-- ===== src/DataSet/Tests.antt =====
-- The theorems on data sets at work: a client with an entry of each type saves for the first time.
use gnu_lash.Prelude.{
  ℕ, suc, ◌≡◌, refl, ◌⊎◌, Bool, true, false, Option, none, some, List, [], ◌∷◌, Str, codes, arith,
  length, if◌then◌else◌, ◌==◌, ◌>>=◌, str_eq,
}
use gnu_lash.AppDb.Parse.{c_string}
use gnu_lash.Tasks.Types.{saving, save_data_set}
use gnu_lash.Store.Types.{store_new}
use gnu_lash.Store.Memory.{has_key, set_unstored, increment, store_set_config}
use gnu_lash.Store.Encoding.{be32}
use gnu_lash.Store.Disk.{Io, create_dir, put_file, write_file}
use gnu_lash.Store.Write.{
  write_config, write_configs, write_info_file, delete_removed_configs, store_write,
}
use gnu_lash.Store.Read.{store_open}
use gnu_lash.DataSet.Types.{Bus, first_bytes, variant_of, append_dict_entry, get_dict_entry}
use gnu_lash.DataSet.Client.{
  Xdr, Value, a_double, an_integer, a_string, a_raw, append, config_write, config_write_raw,
}
use gnu_lash.DataSet.Server.{
  Side, set_config, get_and_set_config, commit_configs, commit_data_set, create_config_array,
}
use gnu_lash.DataSet.RoundTrip.Steps.{write_entry}
use gnu_lash.DataSet.RoundTrip.Commit.{AllSaved, AreNew}
use gnu_lash.DataSet.RoundTrip.Lists.{empty_handle, loading_handle, write_all, read_all}
use gnu_lash.DataSet.RoundTrip.Loaded.{commit_data_set-read_all}
use gnu_lash.DataSet.Refused.{commit_data_set-Ended}

-- A system whose numbers are 0 and 1.
abbrev bits : Bool → Option (List ℕ)
bits true = some (63 ∷ 240 ∷ 0 ∷ 0 ∷ 0 ∷ 0 ∷ 0 ∷ 0 ∷ [])
bits false = some (0 ∷ 0 ∷ 0 ∷ 0 ∷ 0 ∷ 0 ∷ 0 ∷ 0 ∷ [])

abbrev number : List ℕ → Option Bool
number [] = none
number (b ∷ bytes) = some (if b == 63 then true else false)

number-bits :
    (d : Bool) (bytes : List ℕ) → bits d ≡ some bytes → (length bytes ≡ 8) × (number bytes ≡ some d)
number-bits true bytes h = ground arith
number-bits false bytes h = ground arith

abbrev small_xdr : Xdr Bool
small_xdr = record { encode = bits; decode = number; decode-encode = number-bits }

-- A bus that takes every entry.
abbrev sound_bus : Bus
sound_bus = record { takes = λ key variant. true; behind = λ value. 1 ∷ [] }

abbrev sound_io : Io
sound_io = record {
  mkdir_ok = true;
  open_ok = λ name. true;
  create_ok = λ name. true;
  write_ok = λ name. true;
  close_ok = λ name. true;
  unlink_ok = λ name. true;
  partial = λ name content. [];
}

abbrev saving_side : Side
saving_side = record {
  disk = record { dir_exists = false; files = [] };
  project = record {
    task_type = saving;
    client_tasks_total = 1;
    client_tasks_pending = 1;
    client_tasks_progress = 0;
    modified_status = true;
  };
  client = record {
    pending_task = 7;
    task_type = save_data_set;
    task_progress = 0;
    config_data_set = true;
    config_file = false;
    saved = false;
  };
  store = some store_new;
}

abbrev first : Str × Value Bool
first = (codes "gain", a_double true)

abbrev others : List (Str × Value Bool)
others =
    (codes "name", a_string (codes "synth"))
    ∷ (codes "revision", an_integer 70000)
    ∷ (codes "raw", a_raw (1 ∷ 0 ∷ 2 ∷ []))
    ∷ []

all_saved : AllSaved small_xdr sound_bus (first ∷ others)
all_saved = ground arith

all_new : AreNew small_xdr [] (first ∷ others)
unfolding has_key str_eq
all_new = (refl, (refl, (refl, (refl, tt))))

message_written :
    (store_write sound_io saving_side.disk
      (commit_configs store_new
        (write_all small_xdr sound_bus empty_handle (first ∷ others)).elements).0).2
    ≡ true
unfolding store_write write_configs write_config write_info_file delete_removed_configs put_file
    create_dir write_file commit_configs get_and_set_config set_config get_dict_entry
    store_set_config has_key set_unstored increment store_new write_all write_entry config_write
    config_write_raw append append_dict_entry variant_of first_bytes str_eq be32 c_string
message_written = refl

commit_data_set-read_all_example :
    let message = (write_all small_xdr sound_bus empty_handle (first ∷ others)).elements in
    let (after, signals, error) = commit_data_set sound_io saving_side (some 7) (some message) in
    let (again, opened) = store_open sound_io after.disk store_new in
    (error ≡ false)
    × (opened ≡ true)
    × ((create_config_array sound_bus sound_io after.disk again >>= λ elements.
          read_all small_xdr sound_bus (suc (length elements)) (loading_handle elements))
        ≡ some (first ∷ others))
commit_data_set-read_all_example =
    commit_data_set-read_all small_xdr sound_bus sound_io saving_side first others all_saved all_new
      (omega arith) (ground arith) (ground arith) refl refl refl (ground arith) message_written

commit_data_set-Ended_example :
    let (after, signals, error) = commit_data_set sound_io saving_side (some 7) (some []) in
    ((after ≡ saving_side) × (error ≡ true))
    ⊎ (after.client.pending_task ≡ 0) × ((error ≡ false) ⊎ (after.disk ≡ saving_side.disk))
commit_data_set-Ended_example = commit_data_set-Ended sound_io saving_side (some 7) (some [])
