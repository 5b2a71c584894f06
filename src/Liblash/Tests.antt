-- ===== src/Liblash/Tests.antt =====
-- The theorems on events at work: the server asks a client for a save, with the task number 9.
use gnu_lash.Prelude.{inl, List, Str, ◌≡◌, refl, true, none, some, [], ◌∷◌, codes, arith}
use gnu_lash.Uuid.Sample.{sample}
use gnu_lash.Liblash.Event.{
  Event, task_done, IsConsistent, Built, with_type, with_string, event_new_with_type,
  event_set_string, constructors,
}
use gnu_lash.Liblash.Args.{extract_args, is_prefix, is_prefix_nocase}
use gnu_lash.Liblash.Args.Compact.{take, extract_args-not_for_lash}
use gnu_lash.Liblash.Tasks.{dbus_save, void_return}
use gnu_lash.Liblash.Tasks.Cycle.{idle_client, type_and_string, dbus_save-reports}
use gnu_lash.Liblash.Queue.{Pending, nothing, waiting, progress, OldClient, enabled, get_event}
use gnu_lash.Liblash.Answers.{answer, IsAnswered, IsDangling, get_event-IsAnswered}

abbrev save_request : Event
save_request = record {
  type = 4;
  string = some (codes "/tmp/session");
  project = none;
  client_id = 0;
  constructor = some task_done;
}

abbrev plain_request : Event
plain_request = record save_request { string = none }

made_plain : event_new_with_type sample 4 ≡ some plain_request
unfolding event_new_with_type constructors
made_plain = refl

save_request-Built : Built sample (event_set_string plain_request (some (codes "/tmp/session")))
save_request-Built =
    with_string (some (codes "/tmp/session")) (with_type 4 plain_request made_plain)

abbrev asked : OldClient
asked = record {
  dbus_service = true;
  server_connected = 1;
  pending_task = 9;
  events_in = save_request ∷ [];
  num_events_in = 1;
}

save_request-IsConsistent : IsConsistent save_request
unfolding constructors
save_request-IsConsistent = record { valid = ground arith; handler = refl }

abbrev received : OldClient
received = record asked { events_in = []; num_events_in = 0 }

returned :
    get_event (λ c. c) asked nothing true
    ≡ some (received, waiting save_request, [], some save_request)
unfolding get_event
returned = refl

is_enabled : enabled received ≡ true
unfolding enabled
is_enabled = refl

get_event-IsAnswered_example :
    IsAnswered
      (λ c. c)
      received
      save_request
      true
      (answer save_request 9 true)
      (waiting save_request)
    × IsDangling (λ c. c) received plain_request true (waiting save_request)
get_event-IsAnswered_example =
    get_event-IsAnswered (λ c. c) (λ c. c) asked received received nothing (waiting save_request)
      true true [] save_request plain_request returned (inl refl) save_request-IsConsistent
      is_enabled (ground arith)

abbrev arguments : List Str
arguments =
    codes "--LASH-Server=here" ∷ codes "-v" ∷ codes "--lash-no-autoresume" ∷ codes "file" ∷ []

extract_args-not_for_lash_example :
    let (argv, argc, flags) = extract_args (codes "synth") arguments in
    (take argc argv ≡ some (codes "synth") ∷ some (codes "-v") ∷ some (codes "file") ∷ [])
    × (argc ≡ 3)
unfolding is_prefix is_prefix_nocase
extract_args-not_for_lash_example = extract_args-not_for_lash (codes "synth") arguments

dbus_save-reports_example :
    let client = idle_client true 0 0 in
    let (asked, reply, calls) = dbus_save sample client (some 9) none (some (codes "/data")) in
    (got : OldClient) × (pending : Pending) × (event : Event) × (told : OldClient) × (dbus_save
        sample client
        (some 9)
        (some true)
        (some (codes "/data"))
      ≡ (client, void_return, progress 9 255 ∷ []))
    × (reply ≡ void_return)
    × (calls ≡ [])
    × (get_event (λ c. c) asked nothing true ≡ some (got, pending, [], some event))
    × (type_and_string (some event) ≡ some (4, some (codes "/data")))
    × (get_event (λ c. c) got pending true ≡ some (told, nothing, progress 9 255 ∷ [], none))
    × (told.pending_task ≡ 0)
    × (told.events_in ≡ [])
dbus_save-reports_example = dbus_save-reports sample true 0 0 8 (some (codes "/data")) true true
