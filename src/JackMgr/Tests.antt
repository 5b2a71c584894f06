-- ===== src/JackMgr/Tests.antt =====
-- The theorems on the JACK manager at work, with a server that makes every connection: a port of a
-- client "synth" appears, and then the daemon hears of the client.
use gnu_lash.Prelude.{
  ◌≡◌, refl, ◌==◌, true, none, some, inl, inr, ◌⊎◌, List, [], ◌∷◌, In, Str, str_eq, codes, length,
  map, arith, if◌then◌else◌,
}
use gnu_lash.Uuid.Sample.{sample}
use gnu_lash.JackPatch.Types.{JackPatch, patch_dup, description}
use gnu_lash.JackPatch.Manager.{
  MgrClient, patch_unset, unset_src, unset_dest, unset_client_id, after_loop,
}
use gnu_lash.JackMgr.Types.{Jack, JackMgr, mgr_new}
use gnu_lash.JackMgr.Resume.{resume_old}
use gnu_lash.JackMgr.Registry.{add_client}
use gnu_lash.JackMgr.Messages.{
  Callback, port_registration, graph_reorder, port_added, meant, all_written, read_all,
  read_all-all_written,
}
use gnu_lash.JackMgr.Events.{callback_round, Steps, round, add, done, next}
use gnu_lash.JackMgr.Foreign.{IsForeign, Steps-mgr_new-IsForeign}
use gnu_lash.JackMgr.Accounts.{IsConnected, resume_old-returns}

-- The state of the server is the list of its connections.
abbrev Server : Type 0
Server = List (Str × Str)

abbrev willing : Jack Server
willing = record {
  connect = λ w s t. ((s, t) ∷ w, true);
  port_by_id = λ w id. if id == 1 then some (codes "synth:out_1") else none;
  get_ports = λ w pattern input. [];
  connections = λ w port. [];
}

abbrev saved : JackPatch
saved = record {
  src_client = none;
  src_port = some (codes "out_1");
  dest_client = some (codes "system");
  dest_port = some (codes "playback_1");
  src_desc = none;
  dest_desc = none;
  src_client_id = 5;
  dest_client_id = 0;
}

abbrev started : JackMgr Server
started = mgr_new []

abbrev with_port : JackMgr Server
with_port = record {
  clients = [];
  foreign_ports =
      record {
        id = 1;
        name = codes "synth:out_1";
        client_name = codes "synth";
        port_name = codes "out_1";
      }
      ∷ [];
  server = [];
  last_backup = 100;
}

abbrev with_client : JackMgr Server
with_client = record {
  clients =
      record { name = codes "synth"; id = 5; old_patches = []; backup_patches = []; patches = [] }
      ∷ [];
  foreign_ports = [];
  server = (codes "synth:out_1", codes "system:playback_1") ∷ [];
  last_backup = 100;
}

port_appears : callback_round sample willing started (some (port_added 1)) 100 ≡ some with_port
unfolding callback_round mgr_new
port_appears = refl

client_appears :
    add_client sample willing with_port 5 (codes "synth") (saved ∷ []) ≡ some with_client
unfolding add_client str_eq patch_dup description patch_unset unset_src unset_client_id after_loop
    unset_dest
client_appears = refl

started-Steps : Steps sample willing started with_client
started-Steps =
    next (round (some (port_added 1)) 100 port_appears)
      (next (add 5 (codes "synth") (saved ∷ []) client_appears) done)

Steps-mgr_new-IsForeign_example : IsForeign sample willing with_client
Steps-mgr_new-IsForeign_example =
    Steps-mgr_new-IsForeign sample willing [] with_client started-Steps

abbrev synth : MgrClient
synth = record { id = 5; name = codes "synth" }

abbrev Connected : Server → Str → Str → Type 0
Connected w s t = In (s, t) w

resume_old-returns_example :
    (w : Server) × (kept : List JackPatch) × (resume_old sample willing
        (saved ∷ [])
        []
        (synth ∷ [])
        (codes "synth")
        (codes "out_1")
      ≡ some (w, kept))
    × ((p : JackPatch)
        → In p (saved ∷ [])
        → In p kept
          ⊎ IsConnected sample willing Connected
              (λ w s t e. inl refl)
              (λ w s t s' t' h. inr h)
              synth
              []
              (codes "synth")
              (codes "out_1")
              w
              p)
    × ((p : JackPatch) → In p kept → In p (saved ∷ []))
    × ((s t : Str) → Connected [] s t → Connected w s t)
resume_old-returns_example =
    resume_old-returns sample willing Connected (λ w s t e. inl refl) (λ w s t s' t' h. inr h) synth
      [] (codes "synth") (codes "out_1") (saved ∷ []) [] (ground arith, tt)

abbrev callbacks : List Callback
callbacks = port_registration 70000 1 ∷ graph_reorder ∷ port_registration 3 0 ∷ []

read_all-all_written_example :
    read_all (length callbacks) (all_written callbacks) ≡ some (map meant callbacks, [])
read_all-all_written_example = read_all-all_written callbacks (ground arith)
