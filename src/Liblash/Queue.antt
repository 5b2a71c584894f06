-- ===== src/Liblash/Queue.antt =====
-- The events that the server sends to a client, and the client's answers: the handlers of
-- liblash/event.c, the functions of liblash/lash.c for the old interface, and lash_client_add_event of
-- liblash/client.c. A client handle is never null here.
use gnu_lash.Prelude.{
  ℕ, ◌+◌, ◌-◌, ◌%◌, ◌^◌, Bool, not, ◌||◌, Option, none, some, List, [], ◌∷◌, ◌++◌, Str, ◌==◌,
  is_empty, if◌then◌else◌, ◌>>=◌,
}
use gnu_lash.Liblash.Event.{
  Event, Constructor, client_name, jack_client_name, alsa_client_id, task_done, save_data_set, save,
  quit, save_file_type, restore_file_type, save_data_set_type, restore_data_set_type,
}

-- The method calls to org.nongnu.LASH.Server, with their arguments.
pub data Call : Type 0 where
  get_name get_jack_name get_alsa_id commit_data_set save_project close_project : Call
  jack_name : Str → Call
  alsa_id : ℕ → Call
  progress : ℕ → ℕ → Call

-- The fields of struct _lash_client that are read here. `dbus_service` is whether the pointer is set.
pub record OldClient : Type 0 where
  pub dbus_service : Bool
  pub server_connected : ℕ
  pub pending_task : ℕ
  pub events_in : List Event
  pub num_events_in : ℕ

unfoldable pub client_add_event : OldClient → Event → OldClient
client_add_event client event = record client {
  events_in = client.events_in ++ (event ∷ []);
  num_events_in = (client.num_events_in + 1) % 2 ^ 32;
}

-- lash_jack_client_name, for a string that is not null.
unfoldable pub jack_client_name_call : OldClient → Str → List Call
jack_client_name_call client name =
    if is_empty name then [] else if client.dbus_service then jack_name name ∷ [] else []

-- lash_alsa_client_id of the first byte of a string.
unfoldable pub alsa_client_id_call : OldClient → Str → List Call
alsa_client_id_call client [] = if client.dbus_service then alsa_id 0 ∷ [] else []
alsa_client_id_call client (c ∷ s) = if client.dbus_service then alsa_id c ∷ [] else []

-- The handlers. `closes` is whether the container of the configs can be closed.
unfoldable pub handle : Constructor → OldClient → Option Str → Bool → OldClient × List Call
unfolding jack_client_name_call alsa_client_id_call
handle client_name client none closes = (client, get_name ∷ [])
handle client_name client (some s) closes = (client, [])
handle jack_client_name client none closes = (client, get_jack_name ∷ [])
handle jack_client_name client (some s) closes = (client, jack_client_name_call client s)
handle alsa_client_id client none closes = (client, get_alsa_id ∷ [])
handle alsa_client_id client (some s) closes = (client, alsa_client_id_call client s)
handle task_done client s closes =
    if client.pending_task == 0
    then (client, [])
    else (record client { pending_task = 0 }, progress client.pending_task 255 ∷ [])
handle save_data_set client s closes =
    if client.pending_task == 0
    then (client, [])
    else (record client { pending_task = 0 }, if closes then commit_data_set ∷ [] else [])
handle save client s closes = (client, save_project ∷ [])
handle quit client s closes = (client, close_project ∷ [])

-- lash_enabled
unfoldable pub enabled : OldClient → Bool
enabled client = not (client.server_connected == 0)

-- What g_pending_event points to: nothing, the event that lash_get_event has returned to the client, or,
-- if the client has destroyed that event since, freed memory.
pub data Pending : Type 0 where
  nothing : Pending
  waiting : Event → Pending
  freed : Pending

-- lash_event_destroy by the client of the event that it has from lash_get_event and that is pending. It
-- does not touch g_pending_event. A second call frees the event twice: `none`.
unfoldable pub event_destroy : Pending → Option Pending
event_destroy nothing = some nothing
event_destroy (waiting event) = some freed
event_destroy freed = none

-- The test of lash_send_event: the event has the type of g_pending_event. `none` reads freed memory.
unfoldable pub settle_pending : Pending → Event → Option Pending
settle_pending nothing event = some nothing
settle_pending (waiting pending) event =
    some (if pending.type == event.type then nothing else waiting pending)
settle_pending freed event = none

unfoldable pub run_handler : Option Constructor → OldClient → Event → Bool → OldClient × List Call
unfolding handle
run_handler none client event closes = (client, [])
run_handler (some constructor) client event closes = handle constructor client event.string closes

-- lash_send_event of an event that the client has: the client, g_pending_event, and the calls. The event
-- is destroyed. If it is the pending one, it has that one's type.
unfoldable pub send_event :
    OldClient → Pending → Event → Bool → Option (OldClient × Pending × List Call)
unfolding settle_pending run_handler enabled
send_event client pending event closes =
    let (client', calls) =
      if enabled client then run_handler event.constructor client event closes else (client, []) in
    settle_pending pending event >>= λ pending'. some (client', pending', calls)

-- lash_handle_pending_event, which reads the type of the event first.
unfoldable pub handle_pending_event :
    OldClient → Pending → Bool → Option (OldClient × Pending × List Call)
unfolding send_event
handle_pending_event client nothing closes = some (client, nothing, [])
handle_pending_event client (waiting event) closes = send_event client (waiting event) event closes
handle_pending_event client freed closes = none

-- The types of events that the client must send back.
unfoldable pub wants_answer : Event → Bool
wants_answer event =
    event.type == save_file_type
    || event.type == restore_file_type
    || event.type == save_data_set_type
    || event.type == restore_data_set_type

-- The first event of the queue, if there is one.
unfoldable pub take_event : OldClient → List Event → OldClient × Option Event
take_event client [] = (client, none)
take_event client (event ∷ events) = (
  record client {
    events_in = events;
    num_events_in = (client.num_events_in + (2 ^ 32 - 1)) % 2 ^ 32;
  },
  some event,
)

-- g_pending_event behind the event that lash_get_event returns: the same pointer.
unfoldable pub new_pending : Pending → Option Event → Pending
unfolding wants_answer
new_pending pending none = pending
new_pending pending (some event) = if wants_answer event then waiting event else pending

-- lash_get_event of an enabled client: the client, g_pending_event, the calls, and the event, or `none`
-- if it reads freed memory. `dispatch` is what lash_dispatch_once does to the client.
unfoldable pub next_event :
    (OldClient → OldClient)
    → OldClient
    → Pending
    → Bool
    → Option (OldClient × Pending × List Call × Option Event)
unfolding handle_pending_event take_event new_pending
next_event dispatch client pending closes =
    handle_pending_event client pending closes >>= λ (client', pending', calls).
    (let dispatched = dispatch client' in
      let (client'', event) = take_event dispatched dispatched.events_in in
      some (client'', new_pending pending' event, calls, event))

unfoldable pub get_event :
    (OldClient → OldClient)
    → OldClient
    → Pending
    → Bool
    → Option (OldClient × Pending × List Call × Option Event)
unfolding enabled next_event
get_event dispatch client pending closes =
    if enabled client
    then next_event dispatch client pending closes
    else some (client, pending, [], none)

-- lash_get_pending_event_count
unfoldable pub get_pending_event_count :
    (OldClient → OldClient)
    → OldClient
    → Pending
    → Bool
    → Option (OldClient × Pending × List Call × ℕ)
unfolding enabled handle_pending_event
get_pending_event_count dispatch client pending closes =
    if enabled client
    then (handle_pending_event client pending closes >>= λ (client', pending', calls).
        (let dispatched = dispatch client' in
          some (dispatched, pending', calls, dispatched.num_events_in)))
    else some (client, pending, [], 0)
