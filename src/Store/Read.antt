-- ===== src/Store/Read.antt =====
-- store_open and store_get_config of lashd/store.c.
pub mod Reopen
use gnu_lash.Prelude.{
  ℕ, Bool, true, false, Option, none, some, List, [], ◌++◌, Str, if◌then◌else◌, ◌>>=◌,
}
use gnu_lash.Store.Types.{Store}
use gnu_lash.Store.Memory.{get_unstored_config}
use gnu_lash.Store.Encoding.{decode_config}
use gnu_lash.Store.Info.{InfoFile, corrupt_header, corrupt_keys, info, read_info}
use gnu_lash.Store.Disk.{Disk, Io, info_file, lookup_file}

-- The value and its type; `none` where the C function returns false.
unfoldable pub get_config : Io → Disk → Store → Str → Option (List ℕ × ℕ)
get_config io disk store key = elim (get_unstored_config key store.unstored_configs) [
  | some config ↦ some (config.value, config.type)
  | none ↦ if io.open_ok key then (lookup_file key disk.files >>= decode_config) else none
]

-- What store_open makes of the contents of the info file. A broken line destroys the key list, a
-- broken header leaves it.
unfoldable pub open_info : Store → InfoFile → Store × Bool
open_info store corrupt_header = (record store { num_keys = 0 }, false)
open_info store corrupt_keys = (record store { num_keys = 0; keys = [] }, false)
open_info store (info n names) = (record store { num_keys = n; keys = store.keys ++ names }, true)

unfoldable pub store_open : Io → Disk → Store → Store × Bool
unfolding open_info
store_open io disk store =
    if disk.dir_exists
    then elim (lookup_file info_file disk.files) [
      | none ↦ (store, false)
      | some file ↦
          if io.open_ok info_file then open_info store (read_info file) else (store, false)
    ]
    else (store, false)
