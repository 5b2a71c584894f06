-- ===== src/JackMgr/Messages.antt =====
-- The messages that JACK's callbacks write to the manager's socket, and jack_mgr_read_callback, which
-- reads them in its own thread.
use gnu_lash.Prelude.{
  ℕ, zero, suc, length, map, ◌+◌, ◌*◌, ◌/◌, ◌%◌, ◌^◌, ◌<◌, ◌≡◌, refl, ◌==◌, Option, none, some,
  List, [], ◌∷◌, ◌++◌, Str, arith, ◌>>=◌, if◌then◌else◌,
}

-- The bytes of a jack_port_id_t, an unsigned number of 32 bits, in a little-endian machine.
unfoldable pub port_id_bytes : ℕ → Str
port_id_bytes id = id % 256 ∷ id / 256 % 256 ∷ id / 65536 % 256 ∷ id / 16777216 % 256 ∷ []

-- The two callbacks, with their arguments.
pub data Callback : Type 0 where
  port_registration : ℕ → ℕ → Callback
  graph_reorder : Callback

-- jack_mgr_port_registration_cb and jack_mgr_graph_reorder_cb: the bytes that they write.
unfoldable pub written : Callback → Str
unfolding port_id_bytes
written (port_registration port_id registered) =
    1 ∷ (port_id_bytes port_id ++ (registered % 256 ∷ []))
written graph_reorder = 0 ∷ []

-- What jack_mgr_read_callback does with a message: it calls jack_mgr_port_notification,
-- jack_mgr_remove_foreign_port, or jack_mgr_graph_reorder_notification.
pub data Notification : Type 0 where
  port_added : ℕ → Notification
  port_lost : ℕ → Notification
  reordered : Notification

-- The port's number and the flag behind the first byte of a message about a port.
unfoldable pub read_port : Str → Option (Notification × Str)
read_port (a ∷ b ∷ c ∷ d ∷ registered ∷ s) =
    let id = a + 256 * b + 65536 * c + 16777216 * d in
    some (if registered == 0 then port_lost id else port_added id, s)
read_port _ = none

-- jack_mgr_read_callback, on the bytes in the socket. It waits for a message that is incomplete.
unfoldable pub read_callback : Str → Option (Notification × Str)
unfolding read_port
read_callback [] = none
read_callback (port_notify ∷ s) = if port_notify == 0 then some (reordered, s) else read_port s

-- What JACK told the callback.
abbrev pub meant : Callback → Notification
meant (port_registration id registered) = if registered == 0 then port_lost id else port_added id
meant graph_reorder = reordered

-- A port number fits its 32 bits, and the flag its byte.
abbrev pub FitsMessage : Callback → Type 0
FitsMessage (port_registration id registered) = (id < 2 ^ 32) × (registered < 256)
FitsMessage graph_reorder = Unit {0}

port_id_lem :
    (id : ℕ)
    → id < 2 ^ 32
    → id % 256
        + 256 * (id / 256 % 256)
        + 65536 * (id / 65536 % 256)
        + 16777216 * (id / 16777216 % 256)
      ≡ id
port_id_lem id h = omega arith

read_callback-message :
    (m : Callback) (rest : Str)
    → FitsMessage m
    → read_callback (written m ++ rest) ≡ some (meant m, rest)
unfolding read_callback written
read_callback-message graph_reorder rest h = refl
read_callback-message (port_registration id registered) rest h =
    let flag : registered % 256 ≡ registered = omega (arith, h.1) in
    rw (port_id_lem id h.0, flag) refl

-- What all the callbacks write to the socket.
unfoldable pub all_written : List Callback → Str
unfolding written
all_written [] = []
all_written (m ∷ ms) = written m ++ all_written ms

-- The rounds of jack_mgr_callback_run that find this many messages, and what is left in the socket.
unfoldable pub read_all : ℕ → Str → Option (List Notification × Str)
unfolding read_callback
read_all zero s = some ([], s)
read_all (suc n) s =
    read_callback s >>= λ (first, s'). (read_all n s' >>= λ (rest, s''). some (first ∷ rest, s''))

abbrev pub AllFit : List Callback → Type 0
AllFit [] = Unit {0}
AllFit (m ∷ ms) = FitsMessage m × AllFit ms

-- Whatever callbacks JACK calls, the manager reads what they were told, in their order, and nothing
-- is left in the socket. The numbers of ports fit their 32 bits, and the flags a byte.
pub read_all-all_written :
    (ms : List Callback)
    → AllFit ms
    → read_all (length ms) (all_written ms) ≡ some (map meant ms, [])
unfolding read_all all_written
read_all-all_written [] h = refl
read_all-all_written (m ∷ ms) h =
    rw (read_callback-message m (all_written ms) h.0, read_all-all_written ms h.1) refl
