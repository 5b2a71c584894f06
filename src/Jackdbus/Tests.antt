-- ===== src/Jackdbus/Tests.antt =====
-- The theorems at work: the daemon knows a JACK client "synth", with an old patch to a client "fx", and
-- does not know a client "other".
use gnu_lash.Prelude.{ℕ, ◌≡◌, refl, true, none, some, List, [], ◌∷◌, codes, str_eq, arith}
use gnu_lash.Uuid.Sample.{sample}
use gnu_lash.JackPatch.Types.{JackPatch}
use gnu_lash.Jackdbus.Types.{
  JackClient, Graph, GraphPatch, Answers, live, freed, JackdbusMgr, Output, find_by_jackdbus_id,
  find_by_id, new_client,
}
use gnu_lash.Jackdbus.Graph.{get_graph, mgr_new, get_unknown_clients}
use gnu_lash.Jackdbus.Patches.{get_client_patches}
use gnu_lash.Jackdbus.Signals.{
  Ends, on_client_appeared, on_client_disappeared, on_port_appeared, ports_connected, clear,
}
use gnu_lash.Jackdbus.Handler.{handle_control_signal}
use gnu_lash.Jackdbus.Current.Steps.{none_yet, Steps-get_graph}
use gnu_lash.Jackdbus.Stopped.{server_stopped-reads_freed}
use gnu_lash.Jackdbus.Crash.{ports_connected-crash}
use gnu_lash.Jackdbus.Saved.{AreOwn, get_client_patches-own}
use gnu_lash.Jackdbus.Cycle.{AreForAll, on_port_appeared-AreForAll}

-- The patch goes from "out_1" of the client with the ID 5 to "in_1" of the one with the ID 6.
abbrev old_patch : JackPatch
old_patch = record {
  src_client = none;
  src_port = some (codes "out_1");
  dest_client = none;
  dest_port = some (codes "in_1");
  src_desc = none;
  dest_desc = none;
  src_client_id = 5;
  dest_client_id = 6;
}

abbrev synth : JackClient
synth = record {
  name = codes "synth";
  id = 5;
  old_patches = old_patch ∷ [];
  backup_patches = [];
  jackdbus_id = 2;
  pid = 40;
}

abbrev connection : GraphPatch
connection = record {
  client1_id = 2;
  client1_name = codes "synth";
  port1_name = codes "out_1";
  client2_id = 9;
  client2_name = codes "other";
  port2_name = codes "in_1";
}

abbrev graph : Graph
graph = record {
  version = 3;
  clients = some (some (record { id = 9; name = codes "other"; ports = some [] }) ∷ []);
  patches = some (some connection ∷ []);
}

abbrev mgr : JackdbusMgr
mgr = record {
  clients = synth ∷ [];
  unknown_clients = live (new_client sample (codes "other") 9 41) ∷ [];
  graph = some graph;
  graph_version = 3;
}

abbrev answers : Answers
answers = record { client_pid = λ id. 41; graph = λ version. some graph; is_started = true }

abbrev to_other : Ends
to_other = record {
  id1 = 2;
  name1 = codes "synth";
  port1 = codes "out_1";
  id2 = 9;
  name2 = codes "other";
  port2 = codes "in_1";
}

synth_known : find_by_jackdbus_id mgr.clients 2 ≡ some synth
unfolding find_by_jackdbus_id
synth_known = refl

other_unknown : find_by_jackdbus_id mgr.clients 9 ≡ none
unfolding find_by_jackdbus_id
other_unknown = refl

synth_found : find_by_id sample mgr.clients 5 ≡ some synth
unfolding find_by_id
synth_found = refl

abbrev stopped_mgr : JackdbusMgr
stopped_mgr = record {
  clients = synth ∷ [];
  unknown_clients = freed ∷ [];
  graph = none;
  graph_version = 0;
}

stopped :
    handle_control_signal sample mgr answers (some (codes "ServerStopped")) ≡ some (stopped_mgr, [])
unfolding handle_control_signal str_eq clear
stopped = refl

server_stopped-reads_freed_example :
    ((other : ℕ) → on_client_disappeared sample stopped_mgr other ≡ none)
    × (on_client_appeared sample stopped_mgr answers (λ pid. none) (codes "new") 10 ≡ none)
    × (handle_control_signal sample stopped_mgr answers (some (codes "ServerStopped")) ≡ none)
server_stopped-reads_freed_example =
    server_stopped-reads_freed sample mgr stopped_mgr
      (live (new_client sample (codes "other") 9 41)) [] refl answers [] stopped answers
      (λ pid. none) (codes "new") 10 (omega arith) refl

ports_connected-crash_example : ports_connected sample mgr to_other ≡ none
ports_connected-crash_example =
    ports_connected-crash sample mgr to_other synth old_patch [] synth_known other_unknown refl refl
      (omega arith) refl refl refl

on_port_appeared-AreForAll_example :
    (calls : List Output) × (on_port_appeared sample mgr 2 (codes "synth") (codes "out_1")
      ≡ some (mgr, calls))
    × AreForAll sample mgr.clients 5 (codes "synth") (codes "out_1") (old_patch ∷ []) calls
on_port_appeared-AreForAll_example =
    on_port_appeared-AreForAll sample mgr 2 synth (codes "synth") (codes "out_1") synth_known
      ((codes "out_1", refl), (codes "in_1", refl), tt)

get_client_patches-own_example :
    (patches : List JackPatch) × AreOwn sample mgr.clients synth (connection ∷ []) patches
    × ((mgr' : JackdbusMgr) × (get_client_patches sample mgr 5 [] ≡ some (mgr', (patches, true)))
        × (find_by_id sample mgr'.clients 5 ≡ some (record synth { backup_patches = patches })))
get_client_patches-own_example =
    get_client_patches-own sample mgr 5 synth graph (connection ∷ []) refl refl synth_found

-- The manager of a daemon that starts behind JACK.
abbrev started_mgr : JackdbusMgr
started_mgr = record mgr { clients = [] }

started : mgr_new sample answers ≡ some started_mgr
unfolding mgr_new get_graph get_unknown_clients
started = refl

Steps-get_graph_example :
    (g : Graph) × ((get_graph started_mgr answers).graph ≡ some g) × (g.version ≡ 3)
Steps-get_graph_example =
    Steps-get_graph sample answers answers started_mgr started_mgr graph started none_yet refl
      (omega arith)
