-- ===== src/Store/Disk.antt =====
-- The directory of a store, and the system calls of lashd/store.c on it. A file is known by its
-- name below the directory, as lash_get_fqn puts the directory in front of every name alike.
-- Whether a call fails is decided by the parameter `Io`.
use gnu_lash.Prelude.{
  Bool, true, false, Option, none, some, List, [], ◌∷◌, ◌≡◌, refl, Str, str_eq, str_eq_iff, codes,
  arith, if◌then◌else◌,
}

pub record Disk : Type 0 where
  pub dir_exists : Bool
  pub files : List (Str × Str)

-- Which calls succeed on which files, and what a write that fails leaves behind.
pub record Io : Type 0 where
  pub mkdir_ok : Bool
  pub open_ok : Str → Bool
  pub create_ok : Str → Bool
  pub write_ok : Str → Bool
  pub close_ok : Str → Bool
  pub unlink_ok : Str → Bool
  pub partial : Str → Str → Str

-- STORE_INFO_FILE
abbrev pub info_file : Str
info_file = codes ".store_info"

unfoldable pub lookup_file : Str → List (Str × Str) → Option Str
lookup_file name [] = none
lookup_file name ((n, content) ∷ files) =
    if str_eq n name then some content else lookup_file name files

unfoldable pub write_file : Str → Str → List (Str × Str) → List (Str × Str)
write_file name content [] = (name, content) ∷ []
write_file name content ((n, old) ∷ files) =
    if str_eq n name then (n, content) ∷ files else (n, old) ∷ write_file name content files

unfoldable pub remove_file : Str → List (Str × Str) → List (Str × Str)
remove_file name [] = []
remove_file name ((n, content) ∷ files) =
    if str_eq n name then remove_file name files else (n, content) ∷ remove_file name files

pub lookup_file-write_file :
    (name other content : Str) (files : List (Str × Str))
    → lookup_file other (write_file name content files)
      ≡ (if str_eq name other then some content else lookup_file other files)
unfolding lookup_file write_file
lookup_file-write_file name other content [] = refl
lookup_file-write_file name other content ((n, old) ∷ files) = ground (
  arith,
  str_eq_iff n name,
  str_eq_iff name other,
  str_eq_iff n other,
  lookup_file-write_file name other content files,
)

-- lash_create_dir, as far as the store is concerned
unfoldable pub create_dir : Io → Disk → Disk
create_dir io disk =
    if disk.dir_exists
    then disk
    else (if io.mkdir_ok then record disk { dir_exists = true } else disk)

-- creat or fopen for writing, the writes, and the close. A file that cannot be created is not
-- touched; one whose close fails has been written.
unfoldable pub put_file : Io → Disk → Str → Str → Disk × Bool
put_file io disk name content =
    if disk.dir_exists
    then (if io.create_ok name
        then (if io.write_ok name
            then (record disk { files = write_file name content disk.files }, io.close_ok name)
            else (
              record disk { files = write_file name (io.partial name content) disk.files },
              false,
            ))
        else (disk, false))
    else (disk, false)
