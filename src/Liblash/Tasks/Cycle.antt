-- ===== src/Liblash/Tasks/Cycle.antt =====
-- From the server's Save to the client's report.
use gnu_lash.Prelude.{
  ℕ, suc, ◌+◌, ◌-◌, ◌%◌, ◌^◌, ◌==◌, ◌≡◌, refl, Bool, false, Option, none, some, [], ◌∷◌, Str, arith,
  if◌then◌else◌,
}
use gnu_lash.Uuid.{UuidLib}
use gnu_lash.Liblash.Event.{
  Event, task_done, event_new_with_all, constructors, is_invalid, event_new, save_file_type,
}
use gnu_lash.Liblash.Queue.{
  Pending, nothing, waiting, progress, OldClient, client_add_event, enabled, handle, settle_pending,
  run_handler, send_event, handle_pending_event, wants_answer, take_event, new_pending, next_event,
  get_event,
}
use gnu_lash.Liblash.Tasks.{
  report_success_or_failure, queue_event, new_save_task, void_return, get_task_id, dbus_save,
}

-- A client that is connected, has no task and no events. The number that says that it is connected is
-- the successor of `n`.
abbrev pub idle_client : Bool → ℕ → ℕ → OldClient
idle_client service n count = record {
  dbus_service = service;
  server_connected = suc n;
  pending_task = 0;
  events_in = [];
  num_events_in = count;
}

-- The type and the string of an event.
abbrev pub type_and_string : Option Event → Option (ℕ × Option Str)
type_and_string none = none
type_and_string (some event) = some (event.type, event.string)

-- The event, and the client when it has taken it out of its queue.
save_request : UuidLib → Option Str → Event
save_request lib path = record {
  type = save_file_type;
  string = path;
  project = none;
  client_id = lib.null;
  constructor = some task_done;
}

taken_client : Bool → ℕ → ℕ → ℕ → OldClient
taken_client service n count t = record {
  dbus_service = service;
  server_connected = suc n;
  pending_task = suc t;
  events_in = [];
  num_events_in = ((count + 1) % 2 ^ 32 + (2 ^ 32 - 1)) % 2 ^ 32;
}

-- A Save, with a task number other than 0, of a connected client that has no task and no events. With a
-- callback that leaves the client as it is, the client reports full progress if the callback is
-- successful, and no progress otherwise, and then has no task again. Without a callback, and if no other
-- messages arrive, it makes no call, the next lash_get_event returns an event of the type
-- LASH_Save_File with the data path, the one behind it reports full progress and returns no event, and
-- then the client has no task and no event is pending.
pub dbus_save-reports :
    (lib : UuidLib) (service : Bool) (n count t : ℕ) (path : Option Str) (closes saved : Bool)
    → let client = idle_client service n count in
      let (asked, reply, calls) = dbus_save lib client (some (suc t)) none path in
      (got : OldClient) × (pending : Pending) × (event : Event) × (told : OldClient) × (dbus_save
          lib client
          (some (suc t))
          (some saved)
          path
        ≡ (client, void_return, progress (suc t) (if saved then 255 else 0) ∷ []))
      × (reply ≡ void_return)
      × (calls ≡ [])
      × (get_event (λ c. c) asked nothing closes ≡ some (got, pending, [], some event))
      × (type_and_string (some event) ≡ some (save_file_type, path))
      × (get_event (λ c. c) got pending closes
          ≡ some (told, nothing, progress (suc t) 255 ∷ [], none))
      × (told.pending_task ≡ 0)
      × (told.events_in ≡ [])
unfolding dbus_save get_task_id new_save_task report_success_or_failure queue_event client_add_event
    get_event next_event event_new_with_all event_new is_invalid constructors enabled
    handle_pending_event send_event settle_pending run_handler handle wants_answer take_event
    new_pending save_request taken_client
dbus_save-reports lib service n count t path closes saved =
    let busy : (suc t == 0) ≡ false = ground arith in
    let on : (suc n == 0) ≡ false = ground arith in
    let event = save_request lib path in
    let got = taken_client service n count t in
    (
      got,
      waiting event,
      event,
      record got { pending_task = 0 },
      rw busy refl,
      refl,
      refl,
      rw on refl,
      refl,
      rw (on, busy) refl,
      refl,
      refl,
    )
