-- ===== src/AppDb/Load.antt =====
-- The search for desktop entries: lash_appdb_load_file, lash_appdb_load_dir, lash_appdb_load_dirs
-- and lash_appdb_load. Those that return a status are false here only where memory runs out.
pub mod Suffix
pub mod Priority
pub mod Fields
use gnu_lash.Prelude.{
  ℕ, zero, suc, ◌==◌, ◌-◌, Bool, true, false, not, ◌&&◌, ◌||◌, Option, none, some, List, [], ◌∷◌,
  ◌++◌, Str, codes, str_eq, ◌>>=◌, length, leb, is_empty, if◌then◌else◌,
}
use gnu_lash.AppDb.Parse.{Entry, parse_file_data, find_key, c_string, cut}

-- The file system and the environment.
pub record System : Type 0 where
  -- The bytes of a file, if it can be opened, measured and read.
  pub read_file : Str → Option Str
  -- The entries that readdir returns, if the directory can be opened: the name, and whether d_type
  -- is DT_REG.
  pub list_dir : Str → Option (List (Str × Bool))
  pub getenv : Str → Option Str

-- struct lash_appdb_entry
pub record AppEntry : Type 0 where
  pub name : Option Str
  pub generic_name : Option Str
  pub comment : Option Str
  pub icon : Option Str
  pub exec : Option Str
  pub path : Option Str
  pub terminal : Bool

-- The fields that a map can point to. That of a bool is `terminal`.
pub data Offset : Type 0 where
  name generic_name comment icon exec path terminal : Offset

-- The keys and offsets of g_appdb_entry_map.
unfoldable pub appdb_entry_map : List (Str × Offset)
appdb_entry_map =
    (codes "Name", Offset.name)
    ∷ (codes "GenericName", Offset.generic_name)
    ∷ (codes "Comment", Offset.comment)
    ∷ (codes "Icon", Offset.icon)
    ∷ (codes "Exec", Offset.exec)
    ∷ (codes "Path", Offset.path)
    ∷ (codes "Terminal", Offset.terminal)
    ∷ []

-- What stands from an index on.
unfoldable pub drop : ℕ → Str → Str
drop zero s = s
drop (suc n) [] = []
drop (suc n) (c ∷ s) = drop n s

-- memcmp (s, t, n) == 0, for texts that have n bytes.
unfoldable pub mem_eq : ℕ → Str → Str → Bool
mem_eq zero s t = true
mem_eq (suc n) (c ∷ s) (d ∷ t) = c == d && mem_eq n s t
mem_eq (suc n) s t = false

unfoldable pub suffix_match : Str → Str → Bool
unfolding drop mem_eq
suffix_match string suffix =
    if leb (length string) (length suffix)
    then false
    else mem_eq (length suffix) (drop (length string - length suffix) string) (codes ".desktop")

-- The buffer of load_file_data, if it is not null. An empty file cannot be read.
unfoldable pub load_file_data : System → Str → Option Str
load_file_data sys file_path =
    sys.read_file file_path >>= λ bytes. (if is_empty bytes then none else some bytes)

-- The value of a bool: the field is left as it is if it is neither of two texts.
unfoldable pub bool_value : Str → Bool → Bool
bool_value value old =
    if str_eq value (codes "true")
    then true
    else if str_eq value (codes "false")
    then false
    else old

unfoldable pub fill_field : Offset → Str → AppEntry → AppEntry
unfolding bool_value
fill_field Offset.name value entry = record entry { name = some value }
fill_field Offset.generic_name value entry = record entry { generic_name = some value }
fill_field Offset.comment value entry = record entry { comment = some value }
fill_field Offset.icon value entry = record entry { icon = some value }
fill_field Offset.exec value entry = record entry { exec = some value }
fill_field Offset.path value entry = record entry { path = some value }
fill_field Offset.terminal value entry = record entry { terminal = bool_value value entry.terminal }

unfoldable pub fill_found : Offset → Option Str → AppEntry → AppEntry
unfolding fill_field
fill_found offset none entry = entry
fill_found offset (some value) entry = fill_field offset value entry

-- The loop over the map.
unfoldable pub fill : List (Str × Offset) → List Entry → AppEntry → AppEntry
unfolding fill_found find_key
fill [] entries entry = entry
fill ((key, offset) ∷ maps) entries entry =
    fill maps entries (fill_found offset (find_key entries key) entry)

abbrev pub empty_entry : AppEntry
empty_entry = record {
  name = none;
  generic_name = none;
  comment = none;
  icon = none;
  exec = none;
  path = none;
  terminal = false;
}

-- strcmp (entry_ptr->name, name) == 0. An entry of the list always has a name.
unfoldable pub has_name : Str → AppEntry → Bool
has_name app_name entry = elim entry.name [ none ↦ false | some s ↦ str_eq s app_name ]

unfoldable pub is_listed : List AppEntry → Str → Bool
unfolding has_name
is_listed [] app_name = false
is_listed (entry ∷ appdb) app_name = has_name app_name entry || is_listed appdb app_name

-- The checks that lash_appdb_load_file makes of the keys: the name of the application.
unfoldable pub application_name : List Entry → Option Str
unfolding find_key
application_name entries = find_key entries (codes "Type") >>= λ value.
    (if str_eq value (codes "Application")
      then (find_key entries (codes "Name") >>= λ app_name.
          (find_key entries (codes "X-LASH") >>= λ xlash. some app_name))
      else none)

-- The rest of lash_appdb_load_file, from the look for an entry with the name on.
unfoldable pub load_application : List AppEntry → List Entry → Option Str → List AppEntry
unfolding is_listed fill appdb_entry_map
load_application appdb entries none = appdb
load_application appdb entries (some app_name) =
    if is_listed appdb app_name
    then appdb
    else appdb ++ (fill appdb_entry_map entries empty_entry ∷ [])

unfoldable pub load_entries : List AppEntry → Option (List Entry) → List AppEntry
unfolding application_name load_application
load_entries appdb none = appdb
load_entries appdb (some entries) = load_application appdb entries (application_name entries)

unfoldable pub load_file : System → List AppEntry → Str → List AppEntry
unfolding load_file_data load_entries
load_file sys appdb file_path =
    load_entries appdb (load_file_data sys file_path >>= λ text. parse_file_data text 1000)

-- The loop of lash_appdb_load_dir over what readdir returns.
unfoldable pub load_dentries : System → Str → List (Str × Bool) → List AppEntry → List AppEntry
unfolding load_file suffix_match
load_dentries sys directory_path [] appdb = appdb
load_dentries sys directory_path ((d_name, regular) ∷ dentries) appdb =
    load_dentries sys directory_path dentries (
      if regular && suffix_match d_name (codes ".desktop")
      then load_file sys appdb (directory_path ++ d_name)
      else appdb)

unfoldable pub load_listed :
    System → Str → Option (List (Str × Bool)) → List AppEntry → List AppEntry
unfolding load_dentries
load_listed sys directory_path none appdb = appdb
load_listed sys directory_path (some dentries) appdb =
    load_dentries sys directory_path dentries appdb

unfoldable pub load_dir : System → List AppEntry → Str → List AppEntry
unfolding load_listed
load_dir sys appdb base_directory =
    let directory_path = base_directory ++ codes "/applications/" in
    load_listed sys directory_path (sys.list_dir directory_path) appdb

-- The loop of lash_appdb_load_dirs.
unfoldable pub load_each : System → List Str → List AppEntry → List AppEntry
unfolding load_dir
load_each sys [] appdb = appdb
load_each sys (directory ∷ directories) appdb =
    load_each sys directories (load_dir sys appdb directory)

unfoldable pub load_dirs : System → List AppEntry → Str → List AppEntry
unfolding load_each cut
load_dirs sys appdb base_directories = load_each sys (cut b':' base_directories) appdb

unfoldable pub get_xdg_var : System → Str → Str → Str
get_xdg_var sys var_name default_value = elim (sys.getenv var_name) [
  | none ↦ default_value
  | some value ↦ if is_empty value then default_value else value
]

-- lash_appdb_load: the list, if the result is true.
unfoldable pub load : System → Option (List AppEntry)
unfolding get_xdg_var load_dir load_dirs
load sys = sys.getenv (codes "HOME") >>= λ home_dir.
    (let data_home = get_xdg_var sys (codes "XDG_DATA_HOME") (home_dir ++ codes "/.local/share") in
      let data_dirs =
        get_xdg_var sys (codes "XDG_DATA_DIRS") (codes "/usr/local/share/:/usr/share/") in
      some (load_dirs sys (load_dir sys [] data_home) data_dirs))
