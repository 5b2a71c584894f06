-- ===== src/AppDb/Load/Fields.antt =====
-- What a desktop entry gives to the fields of an application's entry.
use gnu_lash.Prelude.{
  ◌≡◌, refl, ◌∙◌, ap, Bool, false, Option, none, some, List, [], ◌∷◌, Str, codes, str_eq, arith,
}
use gnu_lash.AppDb.Parse.{Entry, find_key}
use gnu_lash.AppDb.Load.{
  AppEntry, Offset, appdb_entry_map, bool_value, fill_field, fill_found, fill, empty_entry,
  application_name,
}

-- A found string, or the one that was there.
abbrev override : Option Str → Option Str → Option Str
override none old = old
override (some value) old = some value

abbrev override_bool : Option Str → Bool → Bool
override_bool none old = old
override_bool (some value) old = bool_value value old

abbrev set_field : Offset → Option Str → AppEntry → AppEntry
set_field Offset.name value entry = record entry { name = override value entry.name }
set_field Offset.generic_name value entry = record entry {
  generic_name = override value entry.generic_name;
}
set_field Offset.comment value entry = record entry { comment = override value entry.comment }
set_field Offset.icon value entry = record entry { icon = override value entry.icon }
set_field Offset.exec value entry = record entry { exec = override value entry.exec }
set_field Offset.path value entry = record entry { path = override value entry.path }
set_field Offset.terminal value entry = record entry {
  terminal = override_bool value entry.terminal;
}

fill_found-set_field :
    (offset : Offset) (value : Option Str) (entry : AppEntry)
    → fill_found offset value entry ≡ set_field offset value entry
unfolding fill_found fill_field
fill_found-set_field Offset.name none entry = refl
fill_found-set_field Offset.name (some value) entry = refl
fill_found-set_field Offset.generic_name none entry = refl
fill_found-set_field Offset.generic_name (some value) entry = refl
fill_found-set_field Offset.comment none entry = refl
fill_found-set_field Offset.comment (some value) entry = refl
fill_found-set_field Offset.icon none entry = refl
fill_found-set_field Offset.icon (some value) entry = refl
fill_found-set_field Offset.exec none entry = refl
fill_found-set_field Offset.exec (some value) entry = refl
fill_found-set_field Offset.path none entry = refl
fill_found-set_field Offset.path (some value) entry = refl
fill_found-set_field Offset.terminal none entry = refl
fill_found-set_field Offset.terminal (some value) entry = refl

abbrev set_fields : List (Str × Offset) → List Entry → AppEntry → AppEntry
set_fields [] entries entry = entry
set_fields ((key, offset) ∷ maps) entries entry =
    set_fields maps entries (set_field offset (find_key entries key) entry)

fill-set_fields :
    (maps : List (Str × Offset)) (entries : List Entry) (entry : AppEntry)
    → fill maps entries entry ≡ set_fields maps entries entry
unfolding fill
fill-set_fields [] entries entry = refl
fill-set_fields ((key, offset) ∷ maps) entries entry =
    ap (fill maps entries) (fill_found-set_field offset (find_key entries key) entry)
    ∙ fill-set_fields maps entries (set_field offset (find_key entries key) entry)

override-none : (value : Option Str) → override value none ≡ value
override-none none = refl
override-none (some value) = refl

-- The value is the text "true".
abbrev pub is_true : Option Str → Bool
is_true none = false
is_true (some value) = str_eq value (codes "true")

override_bool-false : (value : Option Str) → override_bool value false ≡ is_true value
unfolding bool_value
override_bool-false none = refl
override_bool-false (some value) = ground arith

-- The entry has in each field the value of the key that the map names for it, if the desktop entry
-- has it, and runs in a terminal exactly if the value of Terminal is "true".
pub fill_lem :
    (entries : List Entry)
    → fill appdb_entry_map entries empty_entry ≡ record {
      name = find_key entries (codes "Name");
      generic_name = find_key entries (codes "GenericName");
      comment = find_key entries (codes "Comment");
      icon = find_key entries (codes "Icon");
      exec = find_key entries (codes "Exec");
      path = find_key entries (codes "Path");
      terminal = is_true (find_key entries (codes "Terminal"));
    }
unfolding appdb_entry_map
fill_lem entries =
    fill-set_fields appdb_entry_map entries empty_entry
    ∙ simp (override-none, override_bool-false) refl

pub application_name-name :
    (entries : List Entry) (app_name : Str)
    → application_name entries ≡ some app_name
    → (fill appdb_entry_map entries empty_entry).name ≡ some app_name
unfolding application_name
application_name-name entries app_name h = rw (fill_lem entries) (ground arith)
