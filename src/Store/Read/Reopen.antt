-- ===== src/Store/Read/Reopen.antt =====
-- A store that has been written is the same store when it is opened again.
use gnu_lash.Prelude.{
  ◌^◌, ◌<◌, ◌≡◌, refl, sym, ap, ◌∙◌, ◌≢◌, Bool, true, some, [], length, Str, arith,
}
use gnu_lash.Store.Types.{Store, store_new}
use gnu_lash.Store.Memory.{get_unstored_config}
use gnu_lash.Store.Memory.SetConfig.{DistinctConfigs}
use gnu_lash.Store.Info.{print_info, info, read_info}
use gnu_lash.Store.Info.RoundTrip.{AllLines, read_info-print_info}
use gnu_lash.Store.Disk.{Disk, Io, info_file, lookup_file, create_dir}
use gnu_lash.Store.Write.{write_configs, write_info_file, delete_removed_configs, store_write}
use gnu_lash.Store.Write.View.{AllStorable, put_file_self, put_file-dir, get_config-store_write}
use gnu_lash.Store.Read.{get_config, store_open}

-- What a successful store_write with something to write leaves in the info file.
store_write-info :
    (io : Io) (disk : Disk) (store : Store)
    → store.removed_keys ≡ []
    → store.unstored_configs ≢ []
    → (store_write io disk store).2 ≡ true
    → (lookup_file info_file (store_write io disk store).0.files
        ≡ some (print_info store.num_keys store.keys))
      × ((store_write io disk store).0.dir_exists ≡ true)
      × ((store_write io disk store).1 ≡ record store { unstored_configs = [] })
unfolding store_write write_info_file delete_removed_configs
store_write-info io disk store none_removed some_left h =
    let disk' = create_dir io disk in
    let written = write_configs io disk' store.unstored_configs in
    let text = print_info store.num_keys store.keys in
    ground (
      arith,
      put_file_self io written.0 info_file text,
      put_file-dir io written.0 info_file text,
      none_removed,
      some_left,
    )

-- The store that store_open builds from that file.
reopened : Store → Store
reopened store = record {
  num_keys = store.num_keys;
  keys = store.keys;
  removed_keys = [];
  unstored_configs = [];
}

store_open-print_info :
    (io : Io) (disk : Disk) (store : Store)
    → store.num_keys ≡ length store.keys
    → length store.keys < 2 ^ 64
    → AllLines store.keys
    → io.open_ok info_file ≡ true
    → disk.dir_exists ≡ true
    → lookup_file info_file disk.files ≡ some (print_info store.num_keys store.keys)
    → store_open io disk store_new ≡ (reopened store, true)
unfolding store_open store_new reopened
store_open-print_info io disk store counted small lines ok dir file =
    let back : read_info (print_info store.num_keys store.keys) ≡ info store.num_keys store.keys =
      rw counted (read_info-print_info store.keys lines small) in
    rw (dir, file, ok, back) refl

-- After a store_write that succeeds and had something to write, a fresh store opened on the same
-- directory has the same keys, and answers for every key what the store answered before it was
-- written. The store's keys must be counted right and hold no newline, its unstored configs must
-- have distinct keys and be storable, no removal may be pending, the files must be readable, and
-- the key must not be the name of the info file.
pub store_open-store_write :
    (io : Io) (disk : Disk) (store : Store) (key : Str)
    → store.num_keys ≡ length store.keys
    → length store.keys < 2 ^ 64
    → AllLines store.keys
    → DistinctConfigs store.unstored_configs
    → AllStorable store.unstored_configs
    → store.removed_keys ≡ []
    → store.unstored_configs ≢ []
    → io.open_ok info_file ≡ true
    → io.open_ok key ≡ true
    → key ≢ info_file
    → (store_write io disk store).2 ≡ true
    → let disk' = (store_write io disk store).0 in
      let (again, opened) = store_open io disk' store_new in
      (opened ≡ true)
      × (again.keys ≡ store.keys)
      × (get_config io disk' again key ≡ get_config io disk store key)
unfolding reopened
store_open-store_write io disk store key counted small lines dk st none_removed some_left ok
      readable ne h =
    let disk' = (store_write io disk store).0 in
    let (file, dir, kept) = store_write-info io disk store none_removed some_left h in
    let open_again = store_open-print_info io disk' store counted small lines ok dir file in
    (
      ap (λ (r : Store × Bool). r.1) open_again,
      ap (λ (r : Store × Bool). r.0.keys) open_again,
      ap (λ (r : Store × Bool). get_config io disk' r.0 key) open_again
          ∙ same_answer disk'
          ∙ ap (λ s. get_config io disk' s key) (sym kept)
          ∙ get_config-store_write io disk store key dk st none_removed readable ne,
    )
  where
    same_answer :
        (disk' : Disk)
        → get_config io disk' (reopened store) key
          ≡ get_config io disk' (record store { unstored_configs = [] }) key
    same_answer disk' = unfold get_config get_unstored_config in refl
