-- ===== src/Store/Write.antt =====
-- store_write of lashd/store.c and the functions that it calls.
pub mod View
use gnu_lash.Prelude.{
  Bool, true, false, ◌&&◌, Option, none, some, List, [], ◌∷◌, Str, is_empty, if◌then◌else◌,
}
use gnu_lash.Store.Types.{Config, Store}
use gnu_lash.Store.Encoding.{encode_config}
use gnu_lash.Store.Info.{print_info}
use gnu_lash.Store.Disk.{Disk, Io, info_file, lookup_file, remove_file, create_dir, put_file}

unfoldable pub write_config : Io → Disk → Config → Disk × Bool
write_config io disk config =
    if is_empty config.value
    then (disk, false)
    else put_file io disk config.key (encode_config config)

-- The configs that could not be written stay in the list.
unfoldable pub write_configs : Io → Disk → List Config → Disk × List Config × Bool
write_configs io disk [] = (disk, [], true)
write_configs io disk (config ∷ configs) =
    let (disk', ok) = write_config io disk config in
    let (disk'', left, all) = write_configs io disk' configs in
    (disk'', (if ok then left else config ∷ left), ok && all)

unfoldable pub write_info_file : Io → Disk → Store → Disk × Bool
write_info_file io disk store = put_file io disk info_file (print_info store.num_keys store.keys)

-- store_delete_removed_configs: the keys whose files could not be removed stay in the list.
unfoldable pub delete_removed_configs : Io → Disk → List Str → Disk × List Str
delete_removed_configs io disk [] = (disk, [])
delete_removed_configs io disk (name ∷ names) = elim (lookup_file name disk.files) [
  | none ↦ delete_removed_configs io disk names
  | some content ↦
      (if io.unlink_ok name
        then delete_removed_configs io (record disk { files = remove_file name disk.files }) names
        else (let (disk', left) = delete_removed_configs io disk names in (disk', name ∷ left)))
]

unfoldable pub store_write : Io → Disk → Store → Disk × Store × Bool
store_write io disk store =
    if is_empty store.unstored_configs
    then (disk, store, true)
    else (let (disk', left, written) =
          write_configs io (create_dir io disk) store.unstored_configs in
        let kept = record store { unstored_configs = left } in
        if written
        then (let (disk'', informed) = write_info_file io disk' kept in
            if informed
            then (let (disk''', names) = delete_removed_configs io disk'' store.removed_keys in
                (disk''', record store { removed_keys = names; unstored_configs = [] }, true))
            else (disk'', kept, false))
        else (disk', kept, false))
