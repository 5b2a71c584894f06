-- ===== src/Jackdbus/Signals.antt =====
-- The signals of jackdbus and of the D-Bus daemon, lashd_jackdbus_handler. `none` is a read of freed
-- memory or through a null pointer.
use gnu_lash.Prelude.{
  ℕ, Bool, true, false, Option, none, some, List, [], ◌∷◌, ◌++◌, Str, ◌==◌, ◌>>=◌, if◌then◌else◌,
}
use gnu_lash.Uuid.{Uuid, UuidLib}
use gnu_lash.JackPatch.Types.{JackPatch}
use gnu_lash.Jackdbus.Types.{
  JackClient, JackdbusMgr, Output, modified, Answers, Cell, live, freed, take_unknown, take_by_pid,
  add_unknown, find_by_jackdbus_id, new_client, replace,
}
use gnu_lash.Jackdbus.Reconnect.{new_client_port, new_foreign_port, del_old_patch}
use gnu_lash.Jackdbus.Graph.{graph_free, bind_client}

-- The arguments of a message.
pub data Arg : Type 0 where
  uint64 : ℕ → Arg
  string : Str → Arg
  other : Arg

pub record Message : Type 0 where
  pub is_signal : Bool
  pub interface : Option Str
  pub path : Option Str
  pub member : Option Str
  pub args : List Arg

-- The LASH client with a process that server_find_client_by_pid or server_find_lost_client_by_pid
-- finds: its ID, and its patches.
abbrev pub LashClients : Type 0
LashClients = ℕ → Option (Uuid × List JackPatch)

-- The ends of a connection: an ID, a client and a port, twice.
pub record Ends : Type 0 where
  pub id1 : ℕ
  pub name1 : Str
  pub port1 : Str
  pub id2 : ℕ
  pub name2 : Str
  pub port2 : Str

-- What dbus_message_get_args reads for the signals of clients, ports and connections. It leaves
-- further arguments alone.
unfoldable pub client_args : List Arg → Option (ℕ × Str)
client_args (uint64 version ∷ uint64 id ∷ string name ∷ rest) = some (id, name)
client_args args = none

unfoldable pub port_args : List Arg → Option (ℕ × Str × Str)
port_args (uint64 version ∷ uint64 id ∷ string name ∷ uint64 port_id ∷ string port ∷ rest) =
    some (id, name, port)
port_args args = none

unfoldable pub connection_args : List Arg → Option Ends
connection_args
      (uint64 version
        ∷ uint64 id1
        ∷ string name1
        ∷ uint64 port1_id
        ∷ string port1
        ∷ uint64 id2
        ∷ string name2
        ∷ uint64 port2_id
        ∷ string port2
        ∷ rest) =
    some
      (record { id1 = id1; name1 = name1; port1 = port1; id2 = id2; name2 = name2; port2 = port2 })
connection_args args = none

unfoldable pub owner_args : List Arg → Option (Str × Str × Str)
owner_args (string object_name ∷ string old_owner ∷ string new_owner ∷ rest) =
    some (object_name, old_owner, new_owner)
owner_args args = none

abbrev pub Handled : Type 0
Handled = Option (JackdbusMgr × List Output)

-- lashd_jackdbus_mgr_clear, which destroys the unknown clients and leaves the list as it is.
unfoldable pub destroy_all : List Cell → List Cell
destroy_all [] = []
destroy_all (cell ∷ cells) = freed ∷ destroy_all cells

-- jack_mgr_client_destroy of each client of the list: a client that is freed already is read again.
unfoldable pub none_freed : List Cell → Bool
none_freed [] = true
none_freed (live c ∷ cells) = none_freed cells
none_freed (freed ∷ cells) = false

unfoldable pub clear : JackdbusMgr → Option JackdbusMgr
unfolding destroy_all graph_free none_freed
clear mgr =
    if none_freed mgr.unknown_clients
    then some (graph_free (record mgr { unknown_clients = destroy_all mgr.unknown_clients }))
    else none

module _ (lib : UuidLib) where
  unfoldable pub client_found :
      JackdbusMgr → Answers → JackClient → Option (Uuid × List JackPatch) → Handled
  unfolding add_unknown bind_client
  client_found mgr answers client none = add_unknown client mgr.unknown_clients >>= λ cells.
      some (record mgr { unknown_clients = cells }, [])
  client_found mgr answers client (some (id, jack_patches)) =
      bind_client lib mgr answers client id jack_patches

  -- lashd_jackdbus_on_client_appeared
  unfoldable pub on_client_appeared : JackdbusMgr → Answers → LashClients → Str → ℕ → Handled
  unfolding client_found new_client
  on_client_appeared mgr answers lash client_name client_id =
      let pid = answers.client_pid client_id in
      if pid == 0
      then some (mgr, [])
      else client_found mgr answers (new_client lib client_name client_id pid) (lash pid)

  -- lashd_jackdbus_on_client_disappeared
  unfoldable pub on_client_disappeared : JackdbusMgr → ℕ → Handled
  unfolding take_unknown
  on_client_disappeared mgr client_id =
      take_unknown client_id mgr.unknown_clients >>= λ (found, cells).
      some (record mgr { unknown_clients = cells }, [])

  unfoldable pub lash_client_found :
      JackdbusMgr → Answers → Uuid → List JackPatch → Option JackClient → Handled
  unfolding bind_client
  lash_client_found mgr answers id jack_patches none = some (mgr, [])
  lash_client_found mgr answers id jack_patches (some client) =
      bind_client lib mgr answers client id jack_patches

  -- The end of server_add_client in lashd/server.c, for a new LASH client with a process. The unknown
  -- client that it finds is unlinked in bind_client.
  unfoldable pub on_lash_client : JackdbusMgr → Answers → ℕ → Uuid → List JackPatch → Handled
  unfolding take_by_pid lash_client_found
  on_lash_client mgr answers pid id jack_patches =
      take_by_pid pid mgr.unknown_clients >>= λ (found, cells).
      lash_client_found (record mgr { unknown_clients = cells }) answers id jack_patches found

  unfoldable pub port_of : JackdbusMgr → Option JackClient → Str → Str → Option (List Output)
  unfolding new_client_port new_foreign_port
  port_of mgr none client_name port_name = new_foreign_port lib mgr.clients client_name port_name
  port_of mgr (some client) client_name port_name =
      new_client_port lib client.old_patches mgr.clients client.id client_name port_name

  unfoldable pub on_port_appeared : JackdbusMgr → ℕ → Str → Str → Handled
  unfolding port_of find_by_jackdbus_id
  on_port_appeared mgr id client_name port_name =
      port_of mgr (find_by_jackdbus_id mgr.clients id) client_name port_name >>= λ calls.
      some (mgr, calls)

  -- The part of lashd_jackdbus_mgr_ports_connected for one of the two clients.
  unfoldable pub connected_at : JackdbusMgr → Ends → ℕ → Option JackClient → Handled
  unfolding del_old_patch replace
  connected_at mgr ends id none = some (mgr, [])
  connected_at mgr ends id (some client) =
      del_old_patch lib mgr.clients client ends.id1 ends.name1 ends.port1 ends.id2 ends.name2
        ends.port2
      >>= λ client'.
          some (record mgr { clients = replace id client' mgr.clients }, modified client.id ∷ [])

  -- There is a client, and the connection is one of it with itself.
  unfoldable pub is_internal : Ends → Option JackClient → Bool
  is_internal ends none = false
  is_internal ends (some client) = ends.id1 == ends.id2

  unfoldable pub ports_connected : JackdbusMgr → Ends → Handled
  unfolding connected_at find_by_jackdbus_id is_internal
  ports_connected mgr ends =
      let client = find_by_jackdbus_id mgr.clients ends.id1 in
      connected_at mgr ends ends.id1 client >>= λ (mgr', outputs).
      (if is_internal ends client
        then some (mgr', outputs)
        else (connected_at mgr' ends ends.id2 (find_by_jackdbus_id mgr'.clients ends.id2)
            >>= λ (mgr'', more). some (mgr'', outputs ++ more)))

  unfoldable pub modified_at : Option JackClient → List Output
  modified_at none = []
  modified_at (some client) = modified client.id ∷ []

  unfoldable pub ports_disconnected : JackdbusMgr → Ends → List Output
  unfolding modified_at find_by_jackdbus_id is_internal
  ports_disconnected mgr ends =
      let client = find_by_jackdbus_id mgr.clients ends.id1 in
      if is_internal ends client
      then modified_at client
      else modified_at client ++ modified_at (find_by_jackdbus_id mgr.clients ends.id2)
