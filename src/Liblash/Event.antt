-- ===== src/Liblash/Event.antt =====
-- struct _lash_event of liblash/event.h, and what liblash/event.c does with it but for the handlers.
use gnu_lash.Prelude.{
  ℕ, ◌≡◌, ◌≤◌, ◌<◌, ltb, ◌||◌, refl, Bool, Option, none, some, [], ◌∷◌, Str, ◌==◌, ◌>>=◌, arith,
  Bool-cases, inl, inr, if◌then◌else◌,
}
use gnu_lash.Uuid.{Uuid, UuidLib}

-- The functions of the type LASHEventConstructor.
pub data Constructor : Type 0 where
  client_name jack_client_name alsa_client_id task_done save_data_set save quit : Constructor

pub record Event : Type 0 where
  pub type : ℕ
  pub string : Option Str
  pub project : Option Str
  pub client_id : Uuid
  pub constructor : Option Constructor

-- LASH_Alsa_Client_ID, and the four types of events that ask a client for a task
abbrev pub alsa_client_id_type : ℕ
alsa_client_id_type = 3

abbrev pub save_file_type : ℕ
save_file_type = 4

abbrev pub restore_file_type : ℕ
restore_file_type = 5

abbrev pub save_data_set_type : ℕ
save_data_set_type = 6

abbrev pub restore_data_set_type : ℕ
restore_data_set_type = 7

-- g_lash_event_ctors
unfoldable pub constructors : ℕ → Option Constructor
constructors n =
    if n == 1
    then some client_name
    else if n == 2
    then some jack_client_name
    else if n == 3
    then some alsa_client_id
    else if n == 4
    then some task_done
    else if n == 5
    then some task_done
    else if n == 6
    then some save_data_set
    else if n == 7
    then some task_done
    else if n == 8
    then some save
    else if n == 9
    then some quit
    else none

-- The test at the start of three functions.
unfoldable pub is_invalid : ℕ → Bool
is_invalid type = ltb type 1 || ltb 17 type

module _ (lib : UuidLib) where
  -- lash_event_new: a zeroed structure
  unfoldable pub event_new : Event
  event_new = record {
    type = 0;
    string = none;
    project = none;
    client_id = lib.null;
    constructor = none;
  }

  unfoldable pub event_new_with_type : ℕ → Option Event
  unfolding event_new is_invalid
  event_new_with_type type =
      if is_invalid type
      then none
      else some (record event_new { type = type; constructor = constructors type })

  unfoldable pub event_new_with_all : ℕ → Option Str → Option Event
  unfolding event_new is_invalid
  event_new_with_all type string =
      if is_invalid type
      then none
      else some (record event_new { type = type; constructor = constructors type; string = string })

unfoldable pub event_set_type : Event → ℕ → Event
unfolding is_invalid
event_set_type event type =
    if is_invalid type then event else record event { type = type; constructor = constructors type }

unfoldable pub event_set_string : Event → Option Str → Event
event_set_string event string = record event { string = string }

unfoldable pub event_set_project : Event → Option Str → Event
event_set_project event project = record event { project = project }

unfoldable pub event_set_client_id : Event → Uuid → Event
event_set_client_id event id = record event { client_id = id }

-- lash_str_set_alsa_client_id: the string that the two bytes spell.
unfoldable pub str_set_alsa_client_id : ℕ → Str
str_set_alsa_client_id alsa_id = if alsa_id == 0 then [] else alsa_id ∷ []

unfoldable pub event_set_alsa_client_id : Event → ℕ → Event
unfolding event_set_string str_set_alsa_client_id
event_set_alsa_client_id event alsa_id =
    event_set_string (record event { type = alsa_client_id_type })
      (some (str_set_alsa_client_id alsa_id))

-- lash_str_get_alsa_client_id: the first byte, which is the terminating NUL in an empty string.
unfoldable pub str_get_alsa_client_id : Str → ℕ
str_get_alsa_client_id [] = 0
str_get_alsa_client_id (c ∷ s) = c

-- lash_event_get_alsa_client_id, which reads through the string of the event.
unfoldable pub event_get_alsa_client_id : Event → Option ℕ
unfolding str_get_alsa_client_id
event_get_alsa_client_id event = event.string >>= λ s. some (str_get_alsa_client_id s)

-- The handler is the one that the table has for the type.
pub record IsConsistent (event : Event) : Type 0 where
  pub valid : (0 < event.type) × (event.type ≤ 17)
  pub handler : event.constructor ≡ constructors event.type

event_set_type-IsConsistent :
    (event : Event) (type : ℕ) → IsConsistent event → IsConsistent (event_set_type event type)
unfolding event_set_type is_invalid
event_set_type-IsConsistent event type h = elim (Bool-cases (ltb type 1 || ltb 17 type)) [
  | inl e ↦ rw e h
  | inr e ↦ rw e (record { valid = ground arith; handler = refl })
]

module _ (lib : UuidLib) where
  event_new_with_type-IsConsistent :
      (type : ℕ) (event : Event) → event_new_with_type lib type ≡ some event → IsConsistent event
  unfolding event_new_with_type is_invalid
  event_new_with_type-IsConsistent type event e = record {
    valid = ground arith;
    handler = ground arith;
  }

  event_new_with_all-IsConsistent :
      (type : ℕ) (string : Option Str) (event : Event)
      → event_new_with_all lib type string ≡ some event
      → IsConsistent event
  unfolding event_new_with_all is_invalid
  event_new_with_all-IsConsistent type string event e = record {
    valid = ground arith;
    handler = ground arith;
  }

  -- An event that a client makes with a type, and changes with the functions that set its type, its
  -- string, its project and its client.
  pub data Built : Event → Type 0 where
    with_type : (type : ℕ) (event : Event) → event_new_with_type lib type ≡ some event → Built event
    with_all :
        (type : ℕ) (string : Option Str) (event : Event)
        → event_new_with_all lib type string ≡ some event
        → Built event
    with_new_type : {event : Event} (type : ℕ) → Built event → Built (event_set_type event type)
    with_string : {event : Event} (s : Option Str) → Built event → Built (event_set_string event s)
    with_project :
        {event : Event} (s : Option Str) → Built event → Built (event_set_project event s)
    with_client_id :
        {event : Event} (id : Uuid) → Built event → Built (event_set_client_id event id)

  -- An event that a client makes with a type, and changes with the functions that set its type, its
  -- string, its project and its client, in any order, has a valid type, and the handler for it.
  Built-IsConsistent : (event : Event) → Built event → IsConsistent event
  unfolding event_set_string event_set_project event_set_client_id
  Built-IsConsistent event (with_type type _ e) = event_new_with_type-IsConsistent type event e
  Built-IsConsistent event (with_all type s _ e) = event_new_with_all-IsConsistent type s event e
  Built-IsConsistent event (with_new_type {event = before} type b) =
      event_set_type-IsConsistent before type (Built-IsConsistent before b)
  Built-IsConsistent event (with_string {event = before} s b) =
      let h = Built-IsConsistent before b in record { valid = h.valid; handler = h.handler }
  Built-IsConsistent event (with_project {event = before} s b) =
      let h = Built-IsConsistent before b in record { valid = h.valid; handler = h.handler }
  Built-IsConsistent event (with_client_id {event = before} id b) =
      let h = Built-IsConsistent before b in record { valid = h.valid; handler = h.handler }
