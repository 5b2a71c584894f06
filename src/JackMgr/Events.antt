-- ===== src/JackMgr/Events.antt =====
-- What changes the manager, one call after another.
use gnu_lash.Prelude.{ℕ, ◌≡◌, Option, none, some, List, Str, ◌>>=◌}
use gnu_lash.Uuid.{Uuid, UuidLib}
use gnu_lash.JackPatch.Types.{JackPatch}
use gnu_lash.JackMgr.Types.{Jack, JackMgr}
use gnu_lash.JackMgr.Registry.{add_client, remove_client, remove_foreign_port, port_notification}
use gnu_lash.JackMgr.Patches.{graph_reorder_notification, backup_patches}
use gnu_lash.JackMgr.Messages.{Notification, port_added, port_lost, reordered}

module _ {World : Type 0} (lib : UuidLib) (jack : Jack World) where
  -- jack_mgr_read_callback behind the reading of the message.
  unfoldable pub notify : JackMgr World → Notification → Option (JackMgr World)
  unfolding port_notification remove_foreign_port graph_reorder_notification
  notify mgr (port_added id) = port_notification lib jack mgr id
  notify mgr (port_lost id) = some (remove_foreign_port mgr id)
  notify mgr reordered = graph_reorder_notification lib jack mgr

  -- The body of the loop of jack_mgr_callback_run, behind select: `none` is a timeout.
  unfoldable pub callback_round : JackMgr World → Option Notification → ℕ → Option (JackMgr World)
  unfolding notify backup_patches
  callback_round mgr none now = backup_patches lib jack mgr now
  callback_round mgr (some n) now = notify mgr n >>= λ mgr'. backup_patches lib jack mgr' now

  -- One call that returns. JACK changes by itself. The loss of a client with backup patches does not
  -- return if the caller asks for them.
  pub data Step (a b : JackMgr World) : Type 0 where
    round : (n : Option Notification) (now : ℕ) → callback_round a n now ≡ some b → Step a b
    add :
        (id : Uuid) (name : Str) (patches : List JackPatch)
        → add_client lib jack a id name patches ≡ some b
        → Step a b
    remove :
        (id : Uuid) (backup backup' : Option (List JackPatch))
        → remove_client lib a id backup ≡ some (b, backup')
        → Step a b
    outside : (w : World) → record a { server = w } ≡ b → Step a b

  pub data Steps : JackMgr World → JackMgr World → Type 0 where
    done : {mgr : JackMgr World} → Steps mgr mgr
    next : {a b c : JackMgr World} → Step a b → Steps b c → Steps a c
