-- ===== src/Liblash/Answers.antt =====
-- Every event that asks a client for a task is answered, whether or not the client sends it back, unless
-- the client destroys it.
use gnu_lash.Prelude.{
  In, Option-cases, ℕ, ◌≡◌, ◌≢◌, ◌⊎◌, refl, sym, subst, Bool, true, false, Option, none, some, List,
  [], ◌∷◌, ◌==◌, arith, Bool-cases, inl, inr, if◌then◌else◌,
}
use gnu_lash.Uuid.{UuidLib}
use gnu_lash.Liblash.Event.{
  Event, task_done, save_data_set, constructors, IsConsistent, save_data_set_type, save_file_type,
  restore_file_type, restore_data_set_type, event_new, event_set_alsa_client_id,
  event_get_alsa_client_id, alsa_client_id_type,
}
use gnu_lash.Liblash.Queue.{
  Pending, nothing, waiting, freed, event_destroy, settle_pending, Call, commit_data_set, progress,
  OldClient, enabled, send_event, handle_pending_event, wants_answer, take_event, new_pending,
  next_event, get_event, get_pending_event_count,
}

-- What the server waits for: a save of a data set ends with the commit, and the other tasks with full
-- progress.
abbrev pub answer : Event → ℕ → Bool → List Call
answer event task closes =
    if event.type == save_data_set_type
    then (if closes then commit_data_set ∷ [] else [])
    else progress task 255 ∷ []

wants_answer-cases :
    (event : Event)
    → IsConsistent event
    → wants_answer event ≡ true
    → ((event.constructor ≡ some task_done) × ((event.type == save_data_set_type) ≡ false))
      ⊎ ((event.constructor ≡ some save_data_set) × ((event.type == save_data_set_type) ≡ true))
unfolding wants_answer constructors
wants_answer-cases event h w = elim (Bool-cases (event.type == save_data_set_type)) [
  | inl e ↦ inr (ground arith, e)
  | inr e ↦ inl (ground arith, e)
]

send_event-answer :
    (event : Event) (client : OldClient) (closes : Bool)
    → IsConsistent event
    → wants_answer event ≡ true
    → enabled client ≡ true
    → client.pending_task ≢ 0
    → send_event client (waiting event) event closes
      ≡ some (record client { pending_task = 0 }, nothing, answer event client.pending_task closes)
unfolding send_event
send_event-answer event client closes h w on task =
    let same : (event.type == event.type) ≡ true = ground arith in
    let not_zero : (client.pending_task == 0) ≡ false = ground arith in
    elim (wants_answer-cases event h w) [
      | inl (c, e) ↦ rw (on, same, c, e, not_zero) refl
      | inr (c, e) ↦ rw (on, same, c, e, not_zero) refl
    ]

-- The types that ask the client for a task.
abbrev pub task_types : List ℕ
task_types = save_file_type ∷ restore_file_type ∷ save_data_set_type ∷ restore_data_set_type ∷ []

wants_answer-In : (event : Event) → In event.type task_types → wants_answer event ≡ true
unfolding wants_answer
wants_answer-In event m = ground arith

-- What lash_get_event remembers of an event that wants an answer.
get_event-pending :
    (dispatch : OldClient → OldClient) (client client' : OldClient) (pending pending' : Pending)
    (closes : Bool) (calls : List Call) (event : Event)
    → get_event dispatch client pending closes ≡ some (client', pending', calls, some event)
    → wants_answer event ≡ true
    → pending' ≡ waiting event
unfolding get_event next_event new_pending
get_event-pending dispatch client client' pending pending' closes calls event e w =
    elim (Option-cases (handle_pending_event client pending closes)) [
      | inl f ↦ ground arith
      | inr (r, f) ↦ ground arith
    ]

handle_pending_event-answer :
    (event : Event) (client : OldClient) (closes : Bool)
    → IsConsistent event
    → wants_answer event ≡ true
    → enabled client ≡ true
    → client.pending_task ≢ 0
    → handle_pending_event client (waiting event) closes
      ≡ some (record client { pending_task = 0 }, nothing, answer event client.pending_task closes)
unfolding handle_pending_event
handle_pending_event-answer event client closes = send_event-answer event client closes

-- With `pending` as g_pending_event, the next look for events makes the calls `due`, and so does the
-- sending of the event, and then nothing is pending.
abbrev pub IsAnswered :
    (OldClient → OldClient) → OldClient → Event → Bool → List Call → Pending → Type 0
IsAnswered dispatch client event closes due pending =
    ((r : OldClient × Pending × List Call × Option Event) × (get_event dispatch client pending
          closes
        ≡ some r)
      × (r.2 ≡ due))
    × ((r : OldClient × Pending × List Call × ℕ) × (get_pending_event_count dispatch client pending
            closes
          ≡ some r)
        × (r.2 ≡ due)
        × (r.1 ≡ nothing))
    × (send_event client pending event closes
        ≡ some (record client { pending_task = 0 }, nothing, due))

-- Once the client has destroyed the event, each of its next calls reads freed memory.
abbrev pub IsDangling : (OldClient → OldClient) → OldClient → Event → Bool → Pending → Type 0
IsDangling dispatch client other closes pending =
    (destroyed : Pending) × (event_destroy pending ≡ some destroyed)
    × (get_event dispatch client destroyed closes ≡ none)
    × (get_pending_event_count dispatch client destroyed closes ≡ none)
    × (send_event client destroyed other closes ≡ none)

-- What both looks for events do with what is pending.
get_event-handled :
    (dispatch : OldClient → OldClient) (client handled : OldClient) (pending left : Pending)
    (closes : Bool) (calls : List Call)
    → enabled client ≡ true
    → handle_pending_event client pending closes ≡ some (handled, left, calls)
    → let dispatched = dispatch handled in
      let (client', next) = take_event dispatched dispatched.events_in in
      (get_event dispatch client pending closes
        ≡ some (client', new_pending left next, calls, next))
      × (get_pending_event_count dispatch client pending closes
          ≡ some (dispatched, left, calls, dispatched.num_events_in))
unfolding get_event next_event get_pending_event_count
get_event-handled dispatch client handled pending left closes calls on e =
    (rw (on, e) refl, rw (on, e) refl)

waiting-IsAnswered :
    (dispatch : OldClient → OldClient) (event : Event) (client : OldClient) (closes : Bool)
    → IsConsistent event
    → wants_answer event ≡ true
    → enabled client ≡ true
    → client.pending_task ≢ 0
    → IsAnswered dispatch client event closes
        (answer event client.pending_task closes)
        (waiting event)
waiting-IsAnswered dispatch event client closes h w on task =
    let handled = handle_pending_event-answer event client closes h w on task in
    let due = answer event client.pending_task closes in
    let dispatched = dispatch (record client { pending_task = 0 }) in
    let (client', next) = take_event dispatched dispatched.events_in in
    let (got, counted) =
      get_event-handled dispatch client (record client { pending_task = 0 }) (waiting event) nothing
        closes due on handled in
    (
      ((client', new_pending nothing next, due, next), got, refl),
      ((dispatched, nothing, due, dispatched.num_events_in), counted, refl, refl),
      send_event-answer event client closes h w on task,
    )

waiting-IsDangling :
    (dispatch : OldClient → OldClient) (event other : Event) (client : OldClient) (closes : Bool)
    → enabled client ≡ true
    → IsDangling dispatch client other closes (waiting event)
unfolding get_event next_event get_pending_event_count handle_pending_event send_event event_destroy
    settle_pending
waiting-IsDangling dispatch event other client closes on =
    (freed, refl, rw on refl, rw on refl, refl)

-- When lash_get_event returns an event of one of the four types that ask for a task, made by the
-- library's functions, and the client is still connected with the task pending, then, as long as the
-- client has neither destroyed the event nor sent it back, its next lash_get_event or
-- lash_get_pending_event_count returns and answers it, and a lash_send_event of the event answers it in
-- the same way; after the count or the sending nothing is left to answer. But if the client has destroyed
-- the event, each of these calls, with whatever event is sent, reads freed memory.
pub get_event-IsAnswered :
    (dispatch dispatch' : OldClient → OldClient) (client client' later : OldClient)
    (pending pending' : Pending) (closes closes' : Bool) (calls : List Call) (event other : Event)
    → get_event dispatch client pending closes ≡ some (client', pending', calls, some event)
    → In event.type task_types
    → IsConsistent event
    → enabled later ≡ true
    → later.pending_task ≢ 0
    → IsAnswered dispatch' later event closes' (answer event later.pending_task closes') pending'
      × IsDangling dispatch' later other closes' pending'
get_event-IsAnswered dispatch dispatch' client client' later pending pending' closes closes' calls
      event other e m h on task =
    let w = wants_answer-In event m in
    let due = answer event later.pending_task closes' in
    subst
      (λ p.
        IsAnswered dispatch' later event closes' due p × IsDangling dispatch' later other closes' p)
      (sym (get_event-pending dispatch client client' pending pending' closes calls event e w))
      (
        waiting-IsAnswered dispatch' event later closes' h w on task,
        waiting-IsDangling dispatch' event other later closes' on,
      )

-- lash_event_set_alsa_client_id stores an ID that lash_event_get_alsa_client_id reads back, but on a
-- new event it sets no handler: lash_send_event of the event makes no call, whatever the client.
send_event-set_alsa_client_id :
    (lib : UuidLib) (id : ℕ) (client : OldClient) (closes : Bool)
    → let event = event_set_alsa_client_id (event_new lib) id in
      (event_get_alsa_client_id event ≡ some id)
      × (event.type ≡ alsa_client_id_type)
      × (send_event client nothing event closes ≡ some (client, nothing, []))
unfolding event_set_alsa_client_id event_get_alsa_client_id event_new send_event
send_event-set_alsa_client_id lib id client closes = (ground arith, refl, ground arith)
