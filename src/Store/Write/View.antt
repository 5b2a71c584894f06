-- ===== src/Store/Write/View.antt =====
-- What a store answers is not changed by writing it to disk.
use gnu_lash.Prelude.{
  ℕ, ◌≡◌, refl, ◌≢◌, inl, inr, true, false, Option, none, some, List, [], ◌∷◌, Str, str_eq,
  str_eq_iff, arith, Bool-cases, if◌then◌else◌, ◌>>=◌,
}
use gnu_lash.Store.Types.{Config, Store}
use gnu_lash.Store.Memory.{get_unstored_config}
use gnu_lash.Store.Memory.SetConfig.{DistinctConfigs}
use gnu_lash.Store.Encoding.{encode_config, decode_config, IsStorable, decode_config-encode_config}
use gnu_lash.Store.Disk.{
  Disk, Io, info_file, lookup_file, create_dir, put_file, lookup_file-write_file,
}
use gnu_lash.Store.Read.{get_config}
use gnu_lash.Store.Write.{
  write_config, write_configs, write_info_file, delete_removed_configs, store_write,
}

abbrev pub AllStorable : List Config → Type 0
AllStorable [] = Unit {0}
AllStorable (c ∷ cs) = IsStorable c × AllStorable cs

-- What store_get_config finds on disk.
abbrev stored : Io → Disk → Str → Option (List ℕ × ℕ)
stored io disk key = if io.open_ok key then (lookup_file key disk.files >>= decode_config) else none

abbrev answer : Io → Disk → List Config → Str → Option (List ℕ × ℕ)
answer io disk configs key = elim (get_unstored_config key configs) [
  | some config ↦ some (config.value, config.type)
  | none ↦ stored io disk key
]

put_file-other :
    (io : Io) (disk : Disk) (name key content : Str)
    → str_eq name key ≡ false
    → lookup_file key (put_file io disk name content).0.files ≡ lookup_file key disk.files
unfolding put_file
put_file-other io disk name key content h = ground (
  arith,
  lookup_file-write_file name key content disk.files,
  lookup_file-write_file name key (io.partial name content) disk.files,
)

pub put_file_self :
    (io : Io) (disk : Disk) (name content : Str)
    → (put_file io disk name content).1 ≡ true
    → lookup_file name (put_file io disk name content).0.files ≡ some content
unfolding put_file
put_file_self io disk name content h =
    ground (arith, lookup_file-write_file name name content disk.files, str_eq_iff name name)

pub put_file-dir :
    (io : Io) (disk : Disk) (name content : Str)
    → (put_file io disk name content).1 ≡ true
    → (put_file io disk name content).0.dir_exists ≡ true
unfolding put_file
put_file-dir io disk name content h = ground arith

write_config-other :
    (io : Io) (disk : Disk) (config : Config) (key : Str)
    → str_eq config.key key ≡ false
    → lookup_file key (write_config io disk config).0.files ≡ lookup_file key disk.files
unfolding write_config
write_config-other io disk config key h =
    ground (arith, put_file-other io disk config.key key (encode_config config))

write_config_self :
    (io : Io) (disk : Disk) (config : Config)
    → (write_config io disk config).1 ≡ true
    → lookup_file config.key (write_config io disk config).0.files ≡ some (encode_config config)
unfolding write_config
write_config_self io disk config h =
    ground (arith, put_file_self io disk config.key (encode_config config))

write_configs-answer :
    (io : Io) (disk : Disk) (configs : List Config) (key : Str)
    → DistinctConfigs configs
    → AllStorable configs
    → io.open_ok key ≡ true
    → answer io (write_configs io disk configs).0 (write_configs io disk configs).1 key
      ≡ answer io disk configs key
unfolding write_configs get_unstored_config
write_configs-answer io disk [] key dk st ok = refl
write_configs-answer io disk (c ∷ cs) key dk st ok =
    let disk' = (write_config io disk c).0 in
    let ih = write_configs-answer io disk' cs key dk.1 st.1 ok in
    elim (Bool-cases (str_eq c.key key)) [
      | inr other ↦ ground (arith, ih, write_config-other io disk c key other)
      | inl same ↦
          let q = (str_eq_iff c.key key).0 same in
          ground
            (arith, ih, q, write_config_self io disk c, decode_config-encode_config c st.0, dk.0)
    ]

write_configs-all_written :
    (io : Io) (disk : Disk) (configs : List Config)
    → (write_configs io disk configs).2 ≡ true
    → (write_configs io disk configs).1 ≡ []
unfolding write_configs
write_configs-all_written io disk [] h = refl
write_configs-all_written io disk (c ∷ cs) h =
    ground (arith, write_configs-all_written io (write_config io disk c).0 cs)

create_dir-files : (io : Io) (disk : Disk) → (create_dir io disk).files ≡ disk.files
unfolding create_dir
create_dir-files io disk = ground arith

write_info_file-other :
    (io : Io) (disk : Disk) (store : Store) (key : Str)
    → key ≢ info_file
    → lookup_file key (write_info_file io disk store).0.files ≡ lookup_file key disk.files
unfolding write_info_file
write_info_file-other io disk store key ne =
    put_file-other io disk info_file key _ (ground (arith, str_eq_iff info_file key, ne))

-- store_write never changes what store_get_config returns for a key, whichever of its system calls
-- fail: a config whose file could not be written stays in memory. The unstored configs must have
-- distinct keys and be storable, no removal may be pending, the key's file must be readable, and
-- the key must not be the name of the info file.
pub get_config-store_write :
    (io : Io) (disk : Disk) (store : Store) (key : Str)
    → DistinctConfigs store.unstored_configs
    → AllStorable store.unstored_configs
    → store.removed_keys ≡ []
    → io.open_ok key ≡ true
    → key ≢ info_file
    → get_config io (store_write io disk store).0 (store_write io disk store).1 key
      ≡ get_config io disk store key
unfolding store_write get_config delete_removed_configs
get_config-store_write io disk store key dk st none_removed ok ne =
    let disk' = create_dir io disk in
    let written = write_configs io disk' store.unstored_configs in
    let kept = record store { unstored_configs = written.1 } in
    ground (
      arith,
      write_configs-answer io disk' store.unstored_configs key dk st ok,
      write_configs-all_written io disk' store.unstored_configs,
      create_dir-files io disk,
      write_info_file-other io written.0 kept key ne,
      none_removed,
    )
