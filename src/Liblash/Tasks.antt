-- ===== src/Liblash/Tasks.antt =====
-- The task of saving to files in liblash/dbus_iface_client.c: a client that has registered a callback
-- reports at once, and one with the old interface gets an event.
pub mod Cycle
use gnu_lash.Prelude.{ℕ, ◌==◌, Bool, Option, none, some, List, [], ◌∷◌, Str, if◌then◌else◌}
use gnu_lash.Uuid.{UuidLib}
use gnu_lash.Liblash.Event.{Event, event_new_with_all, save_file_type}
use gnu_lash.Liblash.Queue.{Call, progress, OldClient, client_add_event}

unfoldable pub report_success_or_failure : OldClient → Bool → List Call
report_success_or_failure client success =
    if client.pending_task == 0
    then []
    else progress client.pending_task (if success then 255 else 0) ∷ []

-- The event that lash_new_save_task puts into the queue, if it can be made.
unfoldable pub queue_event : OldClient → Option Event → OldClient
unfolding client_add_event
queue_event client none = record client { pending_task = 0 }
queue_event client (some event) = client_add_event client event

-- lash_new_save_task: the client and the calls. The last arguments are what the callback returns, if
-- one is registered, and the client's data path.
unfoldable pub new_save_task :
    UuidLib → OldClient → ℕ → Option Bool → Option Str → OldClient × List Call
unfolding report_success_or_failure queue_event
new_save_task lib client task_id (some saved) data_path = (
  record client { pending_task = 0 },
  report_success_or_failure (record client { pending_task = task_id }) saved,
)
new_save_task lib client task_id none data_path = (
  queue_event (record client { pending_task = task_id })
      (event_new_with_all lib save_file_type data_path),
  [],
)

pub data Reply : Type 0 where
  invalid_args unfinished_task void_return : Reply

-- get_task_id, for the number that the message holds: the error, or the number.
unfoldable pub get_task_id : OldClient → Option ℕ → Reply × ℕ
get_task_id client none = (invalid_args, 0)
get_task_id client (some task_id) =
    (if client.pending_task == 0 then void_return else unfinished_task, task_id)

-- lash_dbus_save: the client, the reply, and the calls.
unfoldable pub dbus_save :
    UuidLib → OldClient → Option ℕ → Option Bool → Option Str → OldClient × Reply × List Call
unfolding get_task_id new_save_task
dbus_save lib client message saved data_path =
    let (reply, task_id) = get_task_id client message in
    let (client', calls) = new_save_task lib client task_id saved data_path in
    elim reply [
      | invalid_args ↦ (client, invalid_args, [])
      | unfinished_task ↦ (client, unfinished_task, [])
      | void_return ↦ (client', void_return, calls)
    ]
