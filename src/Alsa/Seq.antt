-- ===== src/Alsa/Seq.antt =====
-- libasound, as far as patches use it. A `snd_seq_port_subscribe_t` is opaque: `fields` is what the
-- getters of the library return for it, and each setter has the effect on them that the library
-- documents.
use gnu_lash.Prelude.{ℕ, ◌<◌, ◌≡◌, Bool, not, List, ◌==◌}

-- snd_seq_addr_t: two values of type unsigned char.
pub record Addr : Type 0 where
  pub client : ℕ
  pub port : ℕ

pub record Fields : Type 0 where
  pub sender : Addr
  pub dest : Addr
  pub queue : ℕ
  pub exclusive : Bool
  pub time_update : Bool
  pub time_real : Bool

pub record SeqLib (Sub : Type 0) : Type 0 where
  -- snd_seq_port_subscribe_malloc
  pub fresh : Sub
  pub fields : Sub → Fields
  pub set_sender : Sub → Addr → Sub
  pub set_sender_lem :
      (s : Sub) (a : Addr) → fields (set_sender s a) ≡ record (fields s) { sender = a }
  pub set_dest : Sub → Addr → Sub
  pub set_dest_lem : (s : Sub) (a : Addr) → fields (set_dest s a) ≡ record (fields s) { dest = a }
  -- A queue's number is a byte.
  pub set_queue : Sub → ℕ → Sub
  pub set_queue_lem :
      (s : Sub) (q : ℕ) → q < 256 → fields (set_queue s q) ≡ record (fields s) { queue = q }
  -- The last three are flags, which any value but 0 sets.
  pub set_exclusive : Sub → ℕ → Sub
  pub set_exclusive_lem :
      (s : Sub) (v : ℕ)
      → fields (set_exclusive s v) ≡ record (fields s) { exclusive = not (v == 0) }
  pub set_time_update : Sub → ℕ → Sub
  pub set_time_update_lem :
      (s : Sub) (v : ℕ)
      → fields (set_time_update s v) ≡ record (fields s) { time_update = not (v == 0) }
  pub set_time_real : Sub → ℕ → Sub
  pub set_time_real_lem :
      (s : Sub) (v : ℕ)
      → fields (set_time_real s v) ≡ record (fields s) { time_real = not (v == 0) }

-- The sequencer of the kernel, in a state `World` that only it reads and writes.
pub record Sequencer (Sub World : Type 0) : Type 0 where
  -- snd_seq_subscribe_port: true if it returns 0.
  pub subscribe : World → Sub → World × Bool
  -- The ports of a client, in the order of snd_seq_query_next_port.
  pub ports : World → ℕ → List Addr
  -- What snd_seq_query_port_subscribers shows of a port, for the types SND_SEQ_QUERY_SUBS_READ and
  -- SND_SEQ_QUERY_SUBS_WRITE and the indices from 0.
  pub readers : World → Addr → List Fields
  pub writers : World → Addr → List Fields
