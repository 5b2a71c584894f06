-- ===== src/Alsa/Tests.antt =====
-- The theorems on ALSA at work, in a sequencer that makes every connection: a synthesizer with the
-- ID 5 is connected to client 14, which has the ID 7.
use gnu_lash.Prelude.{
  ◌≡◌, refl, not, true, false, ◌==◌, none, some, inl, inr, ◌⊎◌, List, [], ◌∷◌, arith, In, ℕ,
}
use gnu_lash.Uuid.Sample.{sample}
use gnu_lash.Xml.{XmlLib}
use gnu_lash.Alsa.Seq.{Addr, Fields, SeqLib, Sequencer}
use gnu_lash.Alsa.Patch.Types.{AlsaPatch, patch_new}
use gnu_lash.Alsa.Patch.Xml.{create_xml, parse_xml}
use gnu_lash.Alsa.Patch.Xml.Elements.{view}
use gnu_lash.Alsa.Patch.Xml.RoundTrip.{InRange, forget_numbers, view-parse_xml}
use gnu_lash.Alsa.Patch.Ids.{Moved, patch_set, patch_unset, fields-patch_unset}
use gnu_lash.Alsa.Client.{AlsaClient}
use gnu_lash.Alsa.Manager.Types.{AlsaMgr, mgr_new, get_client}
use gnu_lash.Alsa.Manager.Resume.{resume_old}
use gnu_lash.Alsa.Manager.Registry.{add_client}
use gnu_lash.Alsa.Manager.Patches.{get_client_patches}
use gnu_lash.Alsa.Manager.Events.{Steps, event, add, done, next, port_start, receive_event}
use gnu_lash.Alsa.Manager.Foreign.{IsForeign, mgr_new-IsForeign}
use gnu_lash.Alsa.Manager.Unique.{IsUnion, all_fields, get_client_patches-IsUnion}
use gnu_lash.Alsa.Manager.Accounts.{IsSettled, resolved, resume_old-accounts}

abbrev plain_xml : XmlLib
plain_xml = record { content_of = λ s. s; content_of-plain = λ s h. refl }

abbrev nowhere : Addr
nowhere = record { client = 0; port = 0 }

-- A subscription is what the getters return.
abbrev plain_seq : SeqLib Fields
plain_seq = record {
  fresh = record {
    sender = nowhere;
    dest = nowhere;
    queue = 0;
    exclusive = false;
    time_update = false;
    time_real = false;
  };
  fields = λ s. s;
  set_sender = λ s a. record s { sender = a };
  set_sender_lem = λ s a. refl;
  set_dest = λ s a. record s { dest = a };
  set_dest_lem = λ s a. refl;
  set_queue = λ s q. record s { queue = q };
  set_queue_lem = λ s q h. refl;
  set_exclusive = λ s v. record s { exclusive = not (v == 0) };
  set_exclusive_lem = λ s v. refl;
  set_time_update = λ s v. record s { time_update = not (v == 0) };
  set_time_update_lem = λ s v. refl;
  set_time_real = λ s v. record s { time_real = not (v == 0) };
  set_time_real_lem = λ s v. refl;
}

abbrev at : ℕ → ℕ → Addr
at client port = record { client = client; port = port }

abbrev saved : AlsaPatch Fields
saved = record {
  sub = record {
    sender = at 128 1;
    dest = at 14 0;
    queue = 3;
    exclusive = false;
    time_update = true;
    time_real = true;
  };
  src_id = 5;
  dest_id = 7;
}

saved-InRange : InRange saved.sub
saved-InRange = record {
  sender_client = omega arith;
  sender_port = omega arith;
  dest_client = omega arith;
  dest_port = omega arith;
  queue = omega arith;
}

view-parse_xml_example :
    view sample plain_xml plain_seq (
      parse_xml sample plain_xml plain_seq
        (patch_new sample plain_seq)
        (create_xml sample plain_xml plain_seq saved))
    ≡ forget_numbers sample plain_xml plain_seq (view sample plain_xml plain_seq saved)
view-parse_xml_example =
    view-parse_xml sample plain_xml plain_seq saved saved-InRange (ground arith) (ground arith)

abbrev client_of : ℕ → ℕ → List (AlsaPatch Fields) → AlsaClient Fields
client_of number id patches = record {
  client_id = number;
  id = id;
  patches = patches;
  old_patches = saved ∷ [];
  backup_patches = [];
}

abbrev before_restart : List (AlsaClient Fields)
before_restart = client_of 14 7 [] ∷ client_of 128 5 (saved ∷ saved ∷ []) ∷ []

abbrev after_restart : List (AlsaClient Fields)
after_restart = client_of 129 5 [] ∷ client_of 14 7 [] ∷ []

synth-Moved : Moved sample plain_seq before_restart after_restart 128 129
synth-Moved = record {
  earlier_client = client_of 128 5 (saved ∷ saved ∷ []);
  later_client = client_of 129 5 [];
  found = refl;
  proper = refl;
  found_again = refl;
  number_after = refl;
}

through-Moved : Moved sample plain_seq before_restart after_restart 14 14
through-Moved = record {
  earlier_client = client_of 14 7 [];
  later_client = client_of 14 7 [];
  found = refl;
  proper = refl;
  found_again = refl;
  number_after = refl;
}

fields-patch_unset_example :
    let (restored, missing) =
      patch_unset sample plain_seq
        (patch_set sample plain_seq saved before_restart)
        after_restart in
    (missing ≡ 0) × (restored.sub ≡ record saved.sub { sender = at 129 1 })
fields-patch_unset_example =
    fields-patch_unset sample plain_seq saved before_restart after_restart 129 14 synth-Moved
      through-Moved

-- The state of the sequencer is the list of its connections.
abbrev willing : Sequencer Fields (List Fields)
willing = record {
  subscribe = λ w s. (s ∷ w, true);
  ports = λ w n. [];
  readers = λ w a. [];
  writers = λ w a. [];
}

abbrev Manager : Type 0
Manager = AlsaMgr Fields (List Fields)

abbrev started : Manager
started = mgr_new [] plain_seq.fresh

-- A port appears, and then the daemon hears of its client.
abbrev with_port : Manager
with_port = receive_event sample plain_seq willing started (port_start 129 1) 100

abbrev with_client : Manager
with_client = add_client sample plain_seq willing with_port 5 129 (saved ∷ [])

port_is_foreign : with_port.foreign_ports ≡ record { client = 129; port = 1 } ∷ []
unfolding receive_event mgr_new
port_is_foreign = refl

port_is_known : with_client.foreign_ports ≡ []
unfolding receive_event add_client mgr_new
port_is_known = refl

not_found : get_client sample with_port.clients 5 ≡ none
unfolding get_client receive_event mgr_new
not_found = refl

started-Steps : Steps sample plain_seq willing started with_client
started-Steps = next (event (port_start 129 1) 100) (next (add 5 129 (saved ∷ []) not_found) done)

mgr_new-IsForeign_example : IsForeign sample plain_seq willing with_client
mgr_new-IsForeign_example =
    mgr_new-IsForeign sample plain_seq willing [] plain_seq.fresh with_client started-Steps

-- Client 5 has the same connection twice.
abbrev running : Manager
running = record {
  clients = before_restart;
  foreign_ports = [];
  sequencer = [];
  scratch = plain_seq.fresh;
  last_backup = 0;
}

known : get_client sample running.clients 5 ≡ some (client_of 128 5 (saved ∷ saved ∷ []))
unfolding get_client
known = refl

get_client_patches-IsUnion_example :
    IsUnion sample plain_seq
      (all_fields sample plain_seq (get_client_patches sample plain_seq running 5 []))
      []
      (saved.sub ∷ saved.sub ∷ [])
get_client_patches-IsUnion_example =
    get_client_patches-IsUnion sample plain_seq running 5 (client_of 128 5 (saved ∷ saved ∷ [])) []
      known tt

abbrev Connected : List Fields → Fields → Type 0
Connected w s = In s w

resume_old-accounts_example :
    let (w, kept) = resume_old sample plain_seq willing [] after_restart 129 1 (saved ∷ []) in
    (In saved (saved ∷ [])
      → In saved kept
        ⊎ IsSettled sample plain_seq willing Connected
            (λ w s e. inl refl)
            (λ w s t h. inr h)
            after_restart
            129
            1
            w
            saved)
    × (In saved kept
        → In saved (saved ∷ []) × ((resolved sample plain_seq after_restart saved).1 ≡ 0))
resume_old-accounts_example =
    resume_old-accounts sample plain_seq willing Connected (λ w s e. inl refl) (λ w s t h. inr h)
      after_restart 129 1 [] (saved ∷ []) saved
