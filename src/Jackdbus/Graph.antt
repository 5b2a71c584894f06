-- ===== src/Jackdbus/Graph.antt =====
-- The graph of jackdbus: lashd_jackdbus_mgr_get_graph, and what is read from it, for unknown clients,
-- for a client that is bound, and for the patches of a client.
use gnu_lash.Prelude.{
  Bool, true, false, Option, none, some, List, [], ◌∷◌, ◌++◌, Str, str_eq, ◌==◌, ◌>>=◌, is_empty,
  if◌then◌else◌,
}
use gnu_lash.Uuid.{Uuid, UuidLib}
use gnu_lash.JackPatch.Types.{JackPatch}
use gnu_lash.JackMgr.Types.{dup_patch_list}
use gnu_lash.Jackdbus.Types.{
  JackClient, JackdbusMgr, Output, named, Graph, GraphClient, GraphPatch, Answers, Cell,
  add_unknown, new_client,
}
use gnu_lash.Jackdbus.Reconnect.{new_client_port, del_old_patch}

unfoldable pub graph_free : JackdbusMgr → JackdbusMgr
graph_free mgr = record mgr { graph = none; graph_version = 0 }

-- lashd_jackdbus_mgr_graph_return_handler, for the message of an answer.
unfoldable pub save_graph : JackdbusMgr → Option Graph → JackdbusMgr
save_graph mgr none = mgr
save_graph mgr (some graph) =
    if graph.version == mgr.graph_version
    then mgr
    else record mgr { graph = some graph; graph_version = graph.version }

unfoldable pub get_graph : JackdbusMgr → Answers → JackdbusMgr
unfolding save_graph
get_graph mgr answers = save_graph mgr (answers.graph mgr.graph_version)

-- A client in the graph, or what ends the search for it.
pub data Search : Type 0 where
  malformed missing : Search
  client_at : GraphClient → Search

-- The loop of lashd_jackdbus_mgr_get_client_data over the clients.
unfoldable pub find_in_graph : List (Option GraphClient) → Str → Search
find_in_graph [] name = missing
find_in_graph (none ∷ clients) name = malformed
find_in_graph (some c ∷ clients) name =
    let rest = find_in_graph clients name in if str_eq c.name name then client_at c else rest

module _ (lib : UuidLib) where
  -- The loop of lashd_jackdbus_mgr_get_unknown_clients: the list, and whether it comes to its end.
  unfoldable pub store_unknown :
      Answers → List (Option GraphClient) → List Cell → Option (List Cell × Bool)
  unfolding new_client add_unknown
  store_unknown answers [] cells = some (cells, true)
  store_unknown answers (none ∷ clients) cells = some (cells, false)
  store_unknown answers (some c ∷ clients) cells =
      (if answers.client_pid c.id == 0
        then some cells
        else add_unknown (new_client lib c.name c.id (answers.client_pid c.id)) cells)
      >>= λ cells'. store_unknown answers clients cells'

  unfoldable pub unknown_in :
      JackdbusMgr → Answers → Option (List (Option GraphClient)) → Option JackdbusMgr
  unfolding store_unknown graph_free
  unknown_in mgr answers none = some (graph_free mgr)
  unknown_in mgr answers (some clients) =
      store_unknown answers clients mgr.unknown_clients >>= λ (cells, complete).
      (let mgr' = record mgr { unknown_clients = cells } in
        some (if complete then mgr' else graph_free mgr'))

  unfoldable pub unknown_of : JackdbusMgr → Answers → Option Graph → Option JackdbusMgr
  unfolding unknown_in
  unknown_of mgr answers none = some mgr
  unknown_of mgr answers (some graph) = unknown_in mgr answers graph.clients

  -- lashd_jackdbus_mgr_get_unknown_clients
  unfoldable pub get_unknown_clients : JackdbusMgr → Answers → Option JackdbusMgr
  unfolding unknown_of
  get_unknown_clients mgr answers = unknown_of mgr answers mgr.graph

  -- lashd_jackdbus_mgr_new, if it can add its match rules and its filter.
  unfoldable pub mgr_new : Answers → Option JackdbusMgr
  unfolding get_graph get_unknown_clients
  mgr_new answers =
      let mgr : JackdbusMgr = record {
        clients = [];
        unknown_clients = [];
        graph = none;
        graph_version = 0;
      } in
      if answers.is_started then get_unknown_clients (get_graph mgr answers) answers else some mgr

  -- The loop over the ports of the client: the calls, and whether it comes to its end.
  unfoldable pub try_ports :
      List (Option Str) → List JackClient → JackClient → Str → Option (List Output × Bool)
  unfolding new_client_port
  try_ports [] clients client client_name = some ([], true)
  try_ports (none ∷ ports) clients client client_name = some ([], false)
  try_ports (some port ∷ ports) clients client client_name =
      new_client_port lib client.old_patches clients client.id client_name port >>= λ calls.
      (try_ports ports clients client client_name >>= λ (rest, complete).
      some (calls ++ rest, complete))

  -- The loop over the connections: the client, and whether it comes to its end.
  unfoldable pub drop_connected :
      List (Option GraphPatch) → List JackClient → JackClient → Option (JackClient × Bool)
  unfolding del_old_patch
  drop_connected [] clients client = some (client, true)
  drop_connected (none ∷ patches) clients client = some (client, false)
  drop_connected (some p ∷ patches) clients client =
      del_old_patch lib clients client p.client1_id p.client1_name p.port1_name p.client2_id
        p.client2_name p.port2_name
      >>= λ client'. drop_connected patches clients client'

  unfoldable pub drop_in :
      Option (List (Option GraphPatch))
      → List JackClient
      → JackClient
      → List Output
      → Option (JackClient × List Output × Bool)
  unfolding drop_connected
  drop_in none clients client calls = some (client, calls, false)
  drop_in (some patches) clients client calls =
      drop_connected patches clients client >>= λ (client', complete).
      some (client', calls, complete)

  unfoldable pub try_in :
      Option (List (Option Str))
      → Option (List (Option GraphPatch))
      → List JackClient
      → JackClient
      → Str
      → Option (JackClient × List Output × Bool)
  unfolding try_ports drop_in
  try_in none patches clients client client_name = some (client, [], false)
  try_in (some ports) patches clients client client_name =
      try_ports ports clients client client_name >>= λ (calls, complete).
      (if complete then drop_in patches clients client calls else some (client, calls, false))

  -- lashd_jackdbus_mgr_get_client_data from the loop over the clients on. `clients` is the list before
  -- the client, which is its last entry.
  unfoldable pub data_of :
      Search
      → Option (List (Option GraphPatch))
      → List JackClient
      → JackClient
      → Option (JackClient × List Output × Bool)
  unfolding try_in
  data_of malformed patches clients client = some (record client { jackdbus_id = 0 }, [], false)
  data_of missing patches clients client = some (record client { jackdbus_id = 0 }, [], false)
  data_of (client_at c) patches clients client =
      let client' = record client { jackdbus_id = c.id } in
      if c.id == 0
      then some (client', [], false)
      else if is_empty client.old_patches
      then some (client', [], true)
      else try_in c.ports patches (clients ++ (client' ∷ [])) client' c.name

  unfoldable pub data_in :
      Graph → List JackClient → JackClient → Option (JackClient × List Output × Bool)
  unfolding data_of find_in_graph
  data_in graph clients client = elim graph.clients [
    | none ↦ some (client, [], false)
    | some graph_clients ↦
        data_of (find_in_graph graph_clients client.name) graph.patches clients client
  ]

  -- lashd_jackdbus_mgr_get_client_data for a client that is appended to the list. It frees the graph
  -- if there is something wrong with it.
  unfoldable pub data_from :
      JackdbusMgr → JackClient → Option Graph → Option (JackdbusMgr × List Output)
  unfolding data_in graph_free
  data_from mgr client none = some (record mgr { clients = mgr.clients ++ (client ∷ []) }, [])
  data_from mgr client (some graph) = data_in graph mgr.clients client >>= λ (client', calls, ok).
      (let mgr' = record mgr { clients = mgr.clients ++ (client' ∷ []) } in
        some (if ok then mgr' else graph_free mgr', calls))

  unfoldable pub get_client_data : JackdbusMgr → JackClient → Option (JackdbusMgr × List Output)
  unfolding data_from
  get_client_data mgr client = data_from mgr client mgr.graph

  -- lashd_jackdbus_mgr_bind_client, for a JACK client that is in no list, and the ID and the patches of
  -- a LASH client, which loses the patches.
  unfoldable pub bind_client :
      JackdbusMgr
      → Answers
      → JackClient
      → Uuid
      → List JackPatch
      → Option (JackdbusMgr × List Output)
  unfolding get_graph get_client_data
  bind_client mgr answers jack_client id jack_patches =
      dup_patch_list lib jack_patches >>= λ copies.
      (get_client_data (get_graph mgr answers) (record jack_client {
        id = id;
        old_patches = jack_patches;
        backup_patches = jack_client.backup_patches ++ copies;
      })
        >>= λ (mgr', calls). some (mgr', calls ++ (named id jack_client.name ∷ [])))
