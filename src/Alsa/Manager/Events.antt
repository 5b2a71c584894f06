-- ===== src/Alsa/Manager/Events.antt =====
-- alsa_mgr_receive_event, and what else changes the manager between two events.
use gnu_lash.Prelude.{some, ℕ, ◌≡◌, Option, none, List}
use gnu_lash.Uuid.{Uuid, UuidLib}
use gnu_lash.Alsa.Seq.{SeqLib, Sequencer}
use gnu_lash.Alsa.Patch.Types.{AlsaPatch}
use gnu_lash.Alsa.Manager.Types.{AlsaMgr, get_client}
use gnu_lash.Alsa.Manager.Registry.{add_client, remove_client, new_port, port_removed}
use gnu_lash.Alsa.Manager.Patches.{redo_patches, backup_patches}

-- The events by their type. `unhandled` is any other, and `failed` is snd_seq_event_input with a
-- negative result.
pub data SeqEvent : Type 0 where
  port_start : ℕ → ℕ → SeqEvent
  port_exit : ℕ → ℕ → SeqEvent
  port_subscribed : SeqEvent
  port_unsubscribed : SeqEvent
  unhandled : ℕ → SeqEvent
  failed : SeqEvent

module _ {Sub World : Type 0} (lib : UuidLib) (seq : SeqLib Sub)
    (kernel : Sequencer Sub World) where
  unfoldable pub receive_event : AlsaMgr Sub World → SeqEvent → ℕ → AlsaMgr Sub World
  unfolding new_port port_removed redo_patches backup_patches
  receive_event mgr failed now = mgr
  receive_event mgr (port_start client port) now =
      backup_patches lib seq (new_port lib seq kernel mgr client port) now
  receive_event mgr (port_exit client port) now =
      backup_patches lib seq (port_removed mgr client port) now
  receive_event mgr port_subscribed now =
      backup_patches lib seq (redo_patches lib seq kernel mgr) now
  receive_event mgr port_unsubscribed now =
      backup_patches lib seq (redo_patches lib seq kernel mgr) now
  receive_event mgr (unhandled type) now = mgr

  -- What happens to the manager, one call that returns after another. The loss of a
  -- client with backup patches does not return if the caller asks for them. The IDs of the daemon's clients differ.
  pub data Step : AlsaMgr Sub World → AlsaMgr Sub World → Type 0 where
    event : {mgr : AlsaMgr Sub World} (e : SeqEvent) (now : ℕ) → Step mgr (receive_event mgr e now)
    add :
        {mgr : AlsaMgr Sub World} (id : Uuid) (number : ℕ) (patches : List (AlsaPatch Sub))
        → get_client lib mgr.clients id ≡ none
        → Step mgr (add_client lib seq kernel mgr id number patches)
    remove :
        {mgr mgr' : AlsaMgr Sub World} (id : Uuid) (backup backup' : Option (List (AlsaPatch Sub)))
        → remove_client lib mgr id backup ≡ some (mgr', backup')
        → Step mgr mgr'
    -- The sequencer changes by itself.
    outside : {mgr : AlsaMgr Sub World} (w : World) → Step mgr (record mgr { sequencer = w })

  pub data Steps : AlsaMgr Sub World → AlsaMgr Sub World → Type 0 where
    done : {mgr : AlsaMgr Sub World} → Steps mgr mgr
    next : {a b c : AlsaMgr Sub World} → Step a b → Steps b c → Steps a c
