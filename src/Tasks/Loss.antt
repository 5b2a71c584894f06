-- ===== src/Tasks/Loss.antt =====
-- The loss of a client in the middle of a task: client_disconnected of lashd/client.c and
-- project_lose_client of lashd/project.c, as far as clients and tasks go. Both leave the client's
-- pending task and the project's counters alone. What they do to the client's files and patches is
-- left out.
pub mod Stuck
use gnu_lash.Prelude.{ℕ, zero, suc, Bool, true, Option, none, some, List, [], ◌∷◌, ◌++◌, ◌>>=◌}
use gnu_lash.Tasks.Types.{Client, Project, Signal}
use gnu_lash.Tasks.Client.{set_modified_status}
use gnu_lash.Tasks.Session.{report_progress}

-- list_del: the client at a position, and the others.
unfoldable pub take_out : ℕ → List Client → Option (Client × List Client)
take_out position [] = none
take_out zero (c ∷ cs) = some (c, cs)
take_out (suc position) (c ∷ cs) =
    take_out position cs >>= λ (client, rest). some (client, c ∷ rest)

-- The project, its running and its lost clients, and the signals.
unfoldable pub client_disconnected :
    ℕ → Project → List Client → List Client → Project × List Client × List Client × List Signal
client_disconnected position project clients lost_clients = elim (take_out position clients) [
  | none ↦ (project, clients, lost_clients, [])
  | some (client, rest) ↦
      let (project', signals) = set_modified_status project true in
      (project', rest, client ∷ lost_clients, signals)
]

-- A Progress call: the position of its sender, the task number, the percentage, and whether a
-- write of the client's store succeeds.
pub record Report : Type 0 where
  pub position : ℕ
  pub task_id : ℕ
  pub percentage : ℕ
  pub stored : Bool

-- One call after the other.
unfoldable pub report_all :
    List Report → Project → List Client → Project × List Client × List Signal
report_all [] project clients = (project, clients, [])
report_all (r ∷ reports) project clients =
    let (project', clients', signals) =
      report_progress r.position project clients r.task_id r.percentage r.stored in
    let (project'', clients'', more) = report_all reports project' clients' in
    (project'', clients'', signals ++ more)
