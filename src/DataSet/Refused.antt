-- ===== src/DataSet/Refused.antt =====
-- What the handler of CommitDataSet leaves when it refuses a data set or a part of it.
use gnu_lash.Prelude.{
  ℕ, ◌≡◌, ◌⊎◌, Bool, true, false, Option, none, some, List, [], ◌∷◌, arith, Option-cases, inl, inr,
}
use gnu_lash.Tasks.Types.{Client, Project}
use gnu_lash.Tasks.Client.{client_task_completed}
use gnu_lash.Store.Types.{Store}
use gnu_lash.Store.Disk.{Disk, Io}
use gnu_lash.DataSet.Types.{Element}
use gnu_lash.DataSet.Server.{Side, written, commit_configs, commit_data_set}

client_task_completed-pending :
    (project : Project) (client : Client) (ok stored : Bool)
    → (client_task_completed project client ok stored).1.pending_task ≡ 0
unfolding client_task_completed
client_task_completed-pending project client ok stored = ground arith

written-refused :
    (io : Io) (disk : Disk) (client : Client) (store : Store)
    → (written io disk client store false).0 ≡ disk
unfolding written
written-refused io disk client store = ground arith

-- Whatever a call of CommitDataSet holds, either the daemon's state is as before and the reply is an
-- error, or the client has no pending task, and the reply is no error or the disk is as before.
pub commit_data_set-Ended :
    (io : Io) (side : Side) (task_id : Option ℕ) (configs : Option (List Element))
    → let (after, signals, error) = commit_data_set io side task_id configs in
      ((after ≡ side) × (error ≡ true))
      ⊎ (after.client.pending_task ≡ 0) × ((error ≡ false) ⊎ (after.disk ≡ side.disk))
unfolding commit_data_set
commit_data_set-Ended io side none configs = ground arith
commit_data_set-Ended io side (some task_id) none = ground arith
commit_data_set-Ended io side (some task_id) (some []) = ground arith
commit_data_set-Ended io side (some task_id) (some (element ∷ elements)) =
    elim (Option-cases side.store) [
      | inl e ↦ ground (arith, e)
      | inr (store, e) ↦
          (let (store', ok) = commit_configs store (element ∷ elements) in
            let (disk', store'', stored) = written io side.disk side.client store' ok in
            ground (
              arith,
              e,
              client_task_completed-pending side.project side.client ok stored,
              written-refused io side.disk side.client store',
            ))
    ]
