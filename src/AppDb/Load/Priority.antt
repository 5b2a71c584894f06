-- ===== src/AppDb/Load/Priority.antt =====
-- Of the desktop entries with one name, the first counts.
use gnu_lash.Prelude.{
  ◌≡◌, ◌≢◌, refl, sym, ap, ◌∙◌, subst, Bool, true, false, ◌&&◌, Option, none, some, List, [], ◌∷◌,
  ◌++◌, Str, codes, str_eq_iff, ◌>>=◌, arith, keep, Bool-cases, inl, inr, if◌then◌else◌,
}
use mathlib.Core.List.{append_assoc}
use gnu_lash.AppDb.Parse.{Entry, parse_file_data, cut}
use gnu_lash.AppDb.Load.{
  System, AppEntry, appdb_entry_map, empty_entry, fill, has_name, is_listed, application_name,
  load_application, load_entries, load_file_data, load_file, load_dentries, load_listed, load_dir,
  load_each, load_dirs, get_xdg_var, load, suffix_match,
}
use gnu_lash.AppDb.Load.Fields.{application_name-name}

-- The list of what the keys of a desktop entry describe: an application, or nothing.
abbrev pub application : List Entry → Option Str → List AppEntry
application entries none = []
application entries (some app_name) = fill appdb_entry_map entries empty_entry ∷ []

abbrev pub described : Option (List Entry) → List AppEntry
described none = []
described (some entries) = application entries (application_name entries)

-- The applications that files describe, in the order of the files.
abbrev pub candidates : System → List Str → List AppEntry
candidates sys [] = []
candidates sys (path ∷ paths) =
    described (load_file_data sys path >>= λ text. parse_file_data text 1000)
    ++ candidates sys paths

-- The desktop files among the entries of a directory.
abbrev pub desktop_entries : Str → List (Str × Bool) → List Str
desktop_entries directory [] = []
desktop_entries directory ((d_name, regular) ∷ dentries) =
    if regular && suffix_match d_name (codes ".desktop")
    then (directory ++ d_name) ∷ desktop_entries directory dentries
    else desktop_entries directory dentries

abbrev pub listed_files : Str → Option (List (Str × Bool)) → List Str
listed_files directory none = []
listed_files directory (some dentries) = desktop_entries directory dentries

abbrev pub desktop_files : System → List Str → List Str
desktop_files sys [] = []
desktop_files sys (base ∷ bases) =
    listed_files (base ++ codes "/applications/") (sys.list_dir (base ++ codes "/applications/"))
    ++ desktop_files sys bases

-- The directories of the XDG Base Directory Specification: that of the user, and then the others.
abbrev pub data_directories : System → Str → List Str
data_directories sys home_dir =
    get_xdg_var sys (codes "XDG_DATA_HOME") (home_dir ++ codes "/.local/share")
    ∷ cut b':' (get_xdg_var sys (codes "XDG_DATA_DIRS") (codes "/usr/local/share/:/usr/share/"))

abbrev pub first : List AppEntry → List AppEntry
first [] = []
first (entry ∷ entries) = entry ∷ []

-- For every name, the list has the first of the others with the name, and no more.
abbrev pub IsFirsts : List AppEntry → List AppEntry → Type 0
IsFirsts appdb entries = (n : Str) → keep (has_name n) appdb ≡ first (keep (has_name n) entries)

keep-append :
    (p : AppEntry → Bool) (xs ys : List AppEntry) → keep p (xs ++ ys) ≡ keep p xs ++ keep p ys
keep-append p [] ys = refl
keep-append p (x ∷ xs) ys = ground (arith, keep-append p xs ys)

first-append : (xs ys : List AppEntry) → first (xs ++ ys) ≡ first (first xs ++ ys)
first-append [] ys = refl
first-append (x ∷ xs) ys = refl

keep-unlisted :
    (appdb : List AppEntry) (n : Str) → is_listed appdb n ≡ false → keep (has_name n) appdb ≡ []
unfolding is_listed
keep-unlisted [] n h = refl
keep-unlisted (entry ∷ appdb) n h = ground (arith, keep-unlisted appdb n)

keep-listed :
    (appdb : List AppEntry) (n : Str) → is_listed appdb n ≡ true → keep (has_name n) appdb ≢ []
unfolding is_listed
keep-listed [] n h = cc h
keep-listed (entry ∷ appdb) n h = ground (arith, keep-listed appdb n)

has_name-eq :
    (n app_name : Str) (entry : AppEntry)
    → entry.name ≡ some app_name
    → has_name n entry ≡ true
    → app_name ≡ n
unfolding has_name
has_name-eq n app_name entry e h = ground (arith, str_eq_iff app_name n)

append-nil : (xs : List AppEntry) → xs ++ [] ≡ xs
append-nil [] = refl
append-nil (x ∷ xs) = ap (◌∷◌ x) (append-nil xs)

first-unmoved : (xs ys zs : List AppEntry) → xs ≢ [] → xs ≡ first ys → xs ≡ first (ys ++ zs)
first-unmoved xs [] zs ne h = absurd (ne h)
first-unmoved xs (y ∷ ys) zs ne h = h

-- A new entry is added if its name is not listed.
add-IsFirsts :
    (appdb entries : List AppEntry) (entry : AppEntry) (app_name : Str)
    → entry.name ≡ some app_name
    → IsFirsts appdb entries
    → IsFirsts
        (if is_listed appdb app_name then appdb else appdb ++ (entry ∷ []))
        (entries ++ (entry ∷ []))
add-IsFirsts appdb entries entry app_name e h n =
    rw (keep-append (has_name n) entries (entry ∷ [])) (elim (Bool-cases (has_name n entry)) [
      | inl q ↦
          let same = has_name-eq n app_name entry e q in
          elim (Bool-cases (is_listed appdb app_name)) [
            | inl l ↦ rw l (
                rw q (
                  first-unmoved (keep (has_name n) appdb) (keep (has_name n) entries) (entry ∷ [])
                    (keep-listed appdb n (subst (λ m. is_listed appdb m ≡ true) same l)) (h n)))
            | inr l ↦
                let none_before =
                  keep-unlisted appdb n (subst (λ m. is_listed appdb m ≡ false) same l) in
                rw l (
                  rw (keep-append (has_name n) appdb (entry ∷ [])) (
                    rw q (
                      rw none_before (
                        ap (λ xs. first (xs ++ (entry ∷ []))) (sym none_before ∙ h n)
                        ∙ sym (first-append (keep (has_name n) entries) (entry ∷ []))))))
          ]
      | inr q ↦ elim (Bool-cases (is_listed appdb app_name)) [
        | inl l ↦ rw l (rw q (rw (append-nil (keep (has_name n) entries)) (h n)))
        | inr l ↦ rw l (
            rw (keep-append (has_name n) appdb (entry ∷ [])) (
              rw q (
                rw (append-nil (keep (has_name n) entries))
                  (rw (append-nil (keep (has_name n) appdb)) (h n)))))
      ]
    ])

load_application-IsFirsts :
    (appdb entries : List AppEntry) (keys : List Entry) (found : Option Str)
    → application_name keys ≡ found
    → IsFirsts appdb entries
    → IsFirsts (load_application appdb keys found) (entries ++ application keys found)
unfolding load_application
load_application-IsFirsts appdb entries keys none e h = rw (append-nil entries) h
load_application-IsFirsts appdb entries keys (some app_name) e h =
    add-IsFirsts appdb entries (fill appdb_entry_map keys empty_entry) app_name
      (application_name-name keys app_name e) h

load_entries-IsFirsts :
    (read : Option (List Entry)) (appdb entries : List AppEntry)
    → IsFirsts appdb entries
    → IsFirsts (load_entries appdb read) (entries ++ described read)
unfolding load_entries
load_entries-IsFirsts none appdb entries h = rw (append-nil entries) h
load_entries-IsFirsts (some keys) appdb entries h =
    load_application-IsFirsts appdb entries keys (application_name keys) refl h

module _ (sys : System) where
  candidates-append :
      (xs ys : List Str) → candidates sys (xs ++ ys) ≡ candidates sys xs ++ candidates sys ys
  candidates-append [] ys = refl
  candidates-append (x ∷ xs) ys = rw (candidates-append xs ys) (
      sym (
        append_assoc (described (load_file_data sys x >>= λ text. parse_file_data text 1000))
          (candidates sys xs) (candidates sys ys)))

  load_dentries-IsFirsts :
      (directory : Str) (dentries : List (Str × Bool)) (appdb entries : List AppEntry)
      → IsFirsts appdb entries
      → IsFirsts
          (load_dentries sys directory dentries appdb)
          (entries ++ candidates sys (desktop_entries directory dentries))
  unfolding load_dentries load_file
  load_dentries-IsFirsts directory [] appdb entries h = rw (append-nil entries) h
  load_dentries-IsFirsts directory ((d_name, regular) ∷ dentries) appdb entries h =
      elim (Bool-cases (regular && suffix_match d_name (codes ".desktop"))) [
        | inr e ↦ rw e (load_dentries-IsFirsts directory dentries appdb entries h)
        | inl e ↦
            let read =
              load_file_data sys (directory ++ d_name) >>= λ text. parse_file_data text 1000 in
            rw e (
              rw
                (sym (
                  append_assoc entries (described read)
                    (candidates sys (desktop_entries directory dentries))))
                (load_dentries-IsFirsts directory dentries (load_entries appdb read)
                  (entries ++ described read) (load_entries-IsFirsts read appdb entries h)))
      ]

  load_listed-IsFirsts :
      (directory : Str) (listed : Option (List (Str × Bool))) (appdb entries : List AppEntry)
      → IsFirsts appdb entries
      → IsFirsts
          (load_listed sys directory listed appdb)
          (entries ++ candidates sys (listed_files directory listed))
  unfolding load_listed
  load_listed-IsFirsts directory none appdb entries h = rw (append-nil entries) h
  load_listed-IsFirsts directory (some dentries) appdb entries h =
      load_dentries-IsFirsts directory dentries appdb entries h

  load_each-IsFirsts :
      (bases : List Str) (appdb entries : List AppEntry)
      → IsFirsts appdb entries
      → IsFirsts (load_each sys bases appdb) (entries ++ candidates sys (desktop_files sys bases))
  unfolding load_each load_dir
  load_each-IsFirsts [] appdb entries h = rw (append-nil entries) h
  load_each-IsFirsts (base ∷ bases) appdb entries h =
      let directory = base ++ codes "/applications/" in
      let listed = sys.list_dir directory in
      rw (candidates-append (listed_files directory listed) (desktop_files sys bases)) (
        rw
          (sym (
            append_assoc entries (candidates sys (listed_files directory listed))
              (candidates sys (desktop_files sys bases))))
          (load_each-IsFirsts bases (load_listed sys directory listed appdb)
            (entries ++ candidates sys (listed_files directory listed))
            (load_listed-IsFirsts directory listed appdb entries h)))

  -- If HOME is set, lash_appdb_load returns a list that has, for every name, the first of the
  -- applications with the name that the desktop files describe, and no other entry with it. The
  -- files of the user's directory come first, and then those of the other directories in order.
  pub load-IsFirsts :
      (home_dir : Str)
      → sys.getenv (codes "HOME") ≡ some home_dir
      → (appdb : List AppEntry) × (load sys ≡ some appdb)
        × IsFirsts appdb (candidates sys (desktop_files sys (data_directories sys home_dir)))
  unfolding load load_dirs
  load-IsFirsts home_dir h = (
    load_each sys (data_directories sys home_dir) [],
    rw h (unfold load_each in refl),
    load_each-IsFirsts (data_directories sys home_dir) [] [] (λ n. refl),
  )
