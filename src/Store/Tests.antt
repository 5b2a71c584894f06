-- ===== src/Store/Tests.antt =====
-- The store theorems at work on a store with one stored and one unstored config.
use gnu_lash.Prelude.{
  ◌≡◌, refl, ◌⊎◌, Bool, true, false, some, [], ◌∷◌, codes, str_eq, arith, is_empty, if◌then◌else◌,
}
use gnu_lash.Store.Types.{Config, Store, store_new, type_string}
use gnu_lash.Store.Memory.{has_key, get_unstored_config, store_set_config}
use gnu_lash.Store.Memory.SetConfig.{
  DistinctConfigs, IsValid, store_set_config-IsValid, store_set_config_lem,
}
use gnu_lash.Store.Encoding.{IsStorable}
use gnu_lash.Store.Info.{print_info, read_info, info}
use gnu_lash.Store.Info.RoundTrip.{AllLines, read_info-print_info}
use gnu_lash.Store.Disk.{Disk, Io, create_dir, put_file}
use gnu_lash.Store.Write.{
  write_config, write_configs, write_info_file, delete_removed_configs, store_write,
}
use gnu_lash.Store.Write.View.{get_config-store_write}
use gnu_lash.Store.Read.{get_config, store_open}
use gnu_lash.Store.Read.Reopen.{store_open-store_write}

abbrev tempo : Config
tempo = record { key = codes "bpm"; value = codes "120"; type = type_string }

abbrev small_store : Store
small_store = record {
  num_keys = 2;
  keys = codes "name" ∷ codes "bpm" ∷ [];
  removed_keys = [];
  unstored_configs = tempo ∷ [];
}

abbrev old_disk : Disk
old_disk = record {
  dir_exists = true;
  files = (codes "name", 0 ∷ 0 ∷ 0 ∷ 1 ∷ b'x' ∷ b's' ∷ []) ∷ [];
}

-- Every call succeeds.
abbrev sound_io : Io
sound_io = record {
  mkdir_ok = true;
  open_ok = λ name. true;
  create_ok = λ name. true;
  write_ok = λ name. true;
  close_ok = λ name. true;
  unlink_ok = λ name. true;
  partial = λ name content. [];
}

-- The disk is full: nothing can be written to any file.
abbrev full_io : Io
full_io = record sound_io { write_ok = λ name. false }

tempo-IsStorable : IsStorable tempo
tempo-IsStorable = record { nonempty = omega arith; small = omega arith; known_type = refl }

small_store-DistinctConfigs : DistinctConfigs small_store.unstored_configs
unfolding get_unstored_config
small_store-DistinctConfigs = (refl, tt)

small_store-AllLines : AllLines small_store.keys
small_store-AllLines = ground arith

small_store-IsValid : IsValid small_store
unfolding has_key get_unstored_config str_eq
small_store-IsValid = record {
  counted = refl;
  distinct_keys = (refl, (refl, tt));
  distinct_configs = (refl, tt);
  listed = (refl, refl, tt);
}

read_info-print_info_example : read_info (print_info 2 small_store.keys) ≡ info 2 small_store.keys
read_info-print_info_example =
    read_info-print_info small_store.keys small_store-AllLines (omega arith)

store_set_config-IsValid_example :
    IsValid (store_set_config small_store (some (codes "key")) (some (1 ∷ 2 ∷ [])) type_string).0
store_set_config-IsValid_example =
    store_set_config-IsValid small_store (some (codes "key")) (some (1 ∷ 2 ∷ [])) type_string
      small_store-IsValid (omega arith)

abbrev bpm_set : Store × Bool
bpm_set = store_set_config small_store (some (codes "bpm")) (some (codes "90")) type_string

store_set_config_example :
    ((bpm_set.1 ≡ true)
      × (is_empty (codes "bpm") ≡ false)
      × (is_empty (codes "90") ≡ false)
      × (has_key (codes "bpm") bpm_set.0.keys ≡ true)
      × (get_unstored_config (codes "key") bpm_set.0.unstored_configs ≡ (
          if str_eq (codes "bpm") (codes "key")
          then some (record { key = codes "bpm"; value = codes "90"; type = type_string })
          else get_unstored_config (codes "key") small_store.unstored_configs)))
    ⊎ ((bpm_set.1 ≡ false)
        × ((is_empty (codes "bpm") ≡ true) ⊎ (is_empty (codes "90") ≡ true))
        × (bpm_set.0 ≡ small_store))
store_set_config_example =
    store_set_config_lem small_store (codes "bpm") (codes "key") (codes "90") type_string

-- The write fails, and the config is still found.
get_config-store_write_example :
    get_config full_io
      (store_write full_io old_disk small_store).0
      (store_write full_io old_disk small_store).1
      (codes "bpm")
    ≡ get_config full_io old_disk small_store (codes "bpm")
get_config-store_write_example =
    get_config-store_write full_io old_disk small_store (codes "bpm") small_store-DistinctConfigs
      (tempo-IsStorable, tt) refl refl (ground arith)

small_store-written : (store_write sound_io old_disk small_store).2 ≡ true
unfolding store_write write_configs write_config write_info_file delete_removed_configs put_file
    create_dir
small_store-written = refl

store_open-store_write_example :
    let disk' = (store_write sound_io old_disk small_store).0 in
    let (again, opened) = store_open sound_io disk' store_new in
    (opened ≡ true)
    × (again.keys ≡ small_store.keys)
    × (get_config sound_io disk' again (codes "name")
        ≡ get_config sound_io old_disk small_store (codes "name"))
store_open-store_write_example =
    store_open-store_write sound_io old_disk small_store (codes "name") refl (omega arith)
      small_store-AllLines small_store-DistinctConfigs (tempo-IsStorable, tt) refl (ground arith)
      refl refl (ground arith) small_store-written
