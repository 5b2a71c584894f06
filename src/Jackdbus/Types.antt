-- ===== src/Jackdbus/Types.antt =====
-- The structures of the manager, the messages of jackdbus, and the look-up of clients.
use gnu_lash.Prelude.{
  ℕ, Bool, Option, none, some, List, [], ◌∷◌, Str, ◌==◌, ◌>>=◌, find?, if◌then◌else◌,
}
use gnu_lash.Uuid.{Uuid, UuidLib}
use gnu_lash.JackPatch.Types.{JackPatch}

-- struct _jack_mgr_client. A process ID is never negative, and 0 where there is none.
pub record JackClient : Type 0 where
  pub name : Str
  pub id : Uuid
  pub old_patches : List JackPatch
  pub backup_patches : List JackPatch
  pub jackdbus_id : ℕ
  pub pid : ℕ

-- The structures in the graph message: a client with the names of its ports, and a connection. An
-- array of another type is `none`, and so is a structure whose arguments have other types.
pub record GraphClient : Type 0 where
  pub id : ℕ
  pub name : Str
  pub ports : Option (List (Option Str))

pub record GraphPatch : Type 0 where
  pub client1_id : ℕ
  pub client1_name : Str
  pub port1_name : Str
  pub client2_id : ℕ
  pub client2_name : Str
  pub port2_name : Str

pub record Graph : Type 0 where
  pub version : ℕ
  pub clients : Option (List (Option GraphClient))
  pub patches : Option (List (Option GraphPatch))

-- What jackdbus and the D-Bus daemon answer while the manager handles one message: the process of a
-- client, or 0, and the graph for a request, if there is an answer with a version.
pub record Answers : Type 0 where
  pub client_pid : ℕ → ℕ
  pub graph : ℕ → Option Graph
  pub is_started : Bool

-- A place in the list of unknown clients. One that has been destroyed and not been taken out of the
-- list is freed memory.
pub data Cell : Type 0 where
  live : JackClient → Cell
  freed : Cell

-- struct _lashd_jackdbus_mgr
pub record JackdbusMgr : Type 0 where
  pub clients : List JackClient
  pub unknown_clients : List Cell
  pub graph : Option Graph
  pub graph_version : ℕ

-- What the manager does beyond its own state: the call ConnectPortsByName with two clients and their
-- ports; jack_mgr_client_modified of the client with the ID; and the lines of bind_client that give a
-- LASH client the name of its JACK client and fill its class.
pub data Output : Type 0 where
  connect : Str → Str → Str → Str → Output
  modified : Uuid → Output
  named : Uuid → Str → Output

unfoldable pub find_by_jackdbus_id : List JackClient → ℕ → Option JackClient
find_by_jackdbus_id clients id = find? (λ c. c.jackdbus_id == id) clients

-- jack_mgr_client_find_by_jackdbus_id in the list of unknown clients, and the list without the client.
-- `none` where it reads freed memory.
unfoldable pub take_unknown : ℕ → List Cell → Option (Option JackClient × List Cell)
take_unknown id [] = some (none, [])
take_unknown id (freed ∷ cells) = none
take_unknown id (live c ∷ cells) =
    let later = take_unknown id cells in
    if c.jackdbus_id == id
    then some (some c, cells)
    else (later >>= λ (found, rest). some (found, live c ∷ rest))

-- jack_mgr_client_find_by_pid in the list of unknown clients, and the list without the client.
unfoldable pub take_by_pid : ℕ → List Cell → Option (Option JackClient × List Cell)
take_by_pid pid [] = some (none, [])
take_by_pid pid (freed ∷ cells) = none
take_by_pid pid (live c ∷ cells) =
    let later = take_by_pid pid cells in
    if c.pid == pid
    then some (some c, cells)
    else (later >>= λ (found, rest). some (found, live c ∷ rest))

-- list_add_tail, which writes to the last place of the list.
unfoldable pub add_unknown : JackClient → List Cell → Option (List Cell)
add_unknown client [] = some (live client ∷ [])
add_unknown client (cell ∷ []) = elim cell [
  | freed ↦ none
  | live c ↦ some (live c ∷ live client ∷ [])
]
add_unknown client (cell ∷ next ∷ cells) =
    add_unknown client (next ∷ cells) >>= λ rest. some (cell ∷ rest)

-- A client whose first entry with the ID is replaced.
unfoldable pub replace : ℕ → JackClient → List JackClient → List JackClient
replace id client [] = []
replace id client (c ∷ cs) =
    let rest = replace id client cs in if c.jackdbus_id == id then client ∷ cs else c ∷ rest

module _ (lib : UuidLib) where
  -- jack_mgr_client_new, and the fields that the manager sets.
  unfoldable pub new_client : Str → ℕ → ℕ → JackClient
  new_client name jackdbus_id pid = record {
    name = name;
    id = lib.null;
    old_patches = [];
    backup_patches = [];
    jackdbus_id = jackdbus_id;
    pid = pid;
  }

  unfoldable pub find_by_id : List JackClient → Uuid → Option JackClient
  find_by_id clients id = find? (λ c. lib.same id c.id) clients

  -- The list after the client that jack_mgr_client_find_by_id finds is taken out.
  unfoldable pub delete_client : List JackClient → Uuid → List JackClient
  delete_client [] id = []
  delete_client (c ∷ cs) id =
      let rest = delete_client cs id in if lib.same id c.id then cs else c ∷ rest
