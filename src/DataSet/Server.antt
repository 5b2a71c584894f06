-- ===== src/DataSet/Server.antt =====
-- get_and_set_config and lashd_dbus_commit_data_set of lashd/dbus_iface_server.c, and
-- store_create_config_array of lashd/store.c.
use gnu_lash.Prelude.{
  ℕ, Bool, true, false, not, Option, none, some, List, [], ◌∷◌, ◌++◌, Str, if◌then◌else◌, ◌>>=◌,
}
use gnu_lash.Tasks.Types.{Client, Project, Signal, save_data_set}
use gnu_lash.Tasks.Client.{client_task_completed}
use gnu_lash.Tasks.Session.{check_tasks}
use gnu_lash.Store.Types.{Store, type_double, type_integer, type_string, type_raw}
use gnu_lash.Store.Memory.{store_set_config}
use gnu_lash.Store.Disk.{Disk, Io}
use gnu_lash.Store.Write.{store_write}
use gnu_lash.Store.Read.{get_config}
use gnu_lash.DataSet.Types.{
  Variant, double, integer, text, byte_array, other_array, other, nothing, Element, Bus,
  append_dict_entry, get_dict_entry,
}

-- The value of the entry is stored with the size of its type.
unfoldable pub set_config : Store → Str → Variant → Store × Bool
unfolding store_set_config
set_config store key (double bytes) = store_set_config store (some key) (some bytes) type_double
set_config store key (integer bytes) = store_set_config store (some key) (some bytes) type_integer
set_config store key (text s) = store_set_config store (some key) (some (s ++ 0 ∷ [])) type_string
set_config store key (byte_array bytes) = store_set_config store (some key) (some bytes) type_raw
set_config store key other_array = (store, false)
set_config store key (other type) = (store, false)
set_config store key nothing = (store, false)

unfoldable pub get_and_set_config : Store → Element → Store × Bool
unfolding get_dict_entry set_config
get_and_set_config store element = elim (get_dict_entry element) [
  | none ↦ (store, false)
  | some (key, variant) ↦ set_config store key variant
]

-- The loop through the configs, which stops at the first that cannot be set.
unfoldable pub commit_configs : Store → List Element → Store × Bool
unfolding get_and_set_config
commit_configs store [] = (store, true)
commit_configs store (element ∷ elements) =
    let (store', ok) = get_and_set_config store element in
    let rest = commit_configs store' elements in if ok then rest else (store', false)

-- What the handler reads and writes: the disk, the client of the sender with its project, which it
-- has, and the client's store, or `none` for a null pointer.
pub record Side : Type 0 where
  pub disk : Disk
  pub project : Project
  pub client : Client
  pub store : Option Store

-- client_task_completed for a client that saves its data set writes its store.
unfoldable pub written : Io → Disk → Client → Store → Bool → Disk × Store × Bool
unfolding store_write
written io disk client store was_successful = elim client.task_type [
  | save_data_set ↦ if was_successful then store_write io disk store else (disk, store, false)
  | _ ↦ (disk, store, false)
]

-- lashd_dbus_commit_data_set for a sender that is a client: the task ID and the array of the
-- message, each `none` where the message has something else in its place. It returns the state, the
-- signals, and whether the reply is an error.
unfoldable pub commit_data_set :
    Io → Side → Option ℕ → Option (List Element) → Side × List Signal × Bool
unfolding commit_configs written client_task_completed
commit_data_set io side none configs = (side, [], true)
commit_data_set io side (some task_id) configs =
    if check_tasks side.client task_id
    then elim side.store [
      | none ↦ (side, [], true)
      | some store ↦ elim configs [
        | none ↦ (side, [], true)
        | some [] ↦ (side, [], true)
        | some (element ∷ elements) ↦
            (let (store', ok) = commit_configs store (element ∷ elements) in
              let (disk', store'', stored) = written io side.disk side.client store' ok in
              let (project', client', signals) =
                client_task_completed side.project side.client ok stored in
              (
                record { disk = disk'; project = project'; client = client'; store = some store'' },
                signals,
                not ok,
              ))
      ]
    ]
    else (side, [], true)

-- The loop of store_create_config_array over the keys: a key whose config cannot be read is passed
-- over, and `none` is an entry that cannot be appended.
unfoldable pub create_entries : Bus → Io → Disk → Store → List Str → Option (List Element)
unfolding append_dict_entry get_config
create_entries bus io disk store [] = some []
create_entries bus io disk store (key ∷ keys) =
    let rest = create_entries bus io disk store keys in
    elim (get_config io disk store key) [
      | none ↦ rest
      | some (value, type) ↦ append_dict_entry bus type key value >>= λ element.
          rest >>= λ elements. some (element ∷ elements)
    ]

unfoldable pub create_config_array : Bus → Io → Disk → Store → Option (List Element)
unfolding create_entries
create_config_array bus io disk store = create_entries bus io disk store store.keys
