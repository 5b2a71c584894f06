-- ===== src/Tasks/Session.antt =====
-- project_save and project_save_clients of lashd/project.c over the clients of a project, and the
-- handler of a client's Progress call in lashd/dbus_iface_server.c.
pub mod Invariant
pub mod Saves
use gnu_lash.Prelude.{
  ℕ, zero, suc, ◌+◌, ◌%◌, ◌^◌, Bool, true, false, ◌||◌, ◌&&◌, not, List, [], ◌∷◌, ◌++◌, ◌==◌,
  if◌then◌else◌,
}
use gnu_lash.Tasks.Types.{
  save_file, save_data_set, ProjectTask, idle, saving, loading, Client, Project, Signal, progress,
  save, write_notes, clear_lost_clients,
}
use gnu_lash.Tasks.Client.{clients_save_complete, client_task_progressed}

-- The project, its running clients, and g_server->task_iter.
pub record Session : Type 0 where
  pub project : Project
  pub clients : List Client
  pub task_iter : ℕ

-- CLIENT_HAS_INTERNAL_STATE
abbrev pub has_internal_state : Client → Bool
has_internal_state client = client.config_data_set || client.config_file

unfoldable pub any_pending : List Client → Bool
any_pending [] = false
any_pending (client ∷ clients) = if client.pending_task == 0 then any_pending clients else true

-- The second loop of project_save_clients: the clients, and the number of those that are asked.
unfoldable pub ask_clients : ℕ → List Client → List Client × ℕ
ask_clients task [] = ([], 0)
ask_clients task (client ∷ clients) =
    let (asked, total) = ask_clients task clients in
    if has_internal_state client
    then (
      record client {
        pending_task = task;
        task_type = if client.config_file then save_file else save_data_set;
        task_progress = 0;
      }
          ∷ asked,
      suc total,
    )
    else (client ∷ asked, total)

unfoldable pub save_clients : Session → Session × List Signal
save_clients s =
    if any_pending s.clients
    then (s, [])
    else (let task = (s.task_iter + 1) % 2 ^ 64 in
        let (asked, total) = ask_clients task s.clients in
        let count = total % 2 ^ 32 in
        (
          record {
            project = record s.project {
              task_type = if count == 0 then idle else saving;
              client_tasks_total = count;
              client_tasks_pending = count;
              client_tasks_progress = 0;
            };
            clients = asked;
            task_iter = task;
          },
          save task ∷ [],
        ))

abbrev pub is_idle : ProjectTask → Bool
is_idle idle = true
is_idle saving = false
is_idle loading = false

-- The end of project_save: with no client to wait for, the save is complete.
unfoldable pub finish_save : Session → List Signal → Session × List Signal
finish_save s signals =
    if s.project.client_tasks_total == 0
    then (let (project, more) = clients_save_complete s.project in
        (record s { project = project }, signals ++ more))
    else (s, signals)

-- project_save. The project's place in the list of all projects and its directory are left out.
unfoldable pub project_save : Session → Session × List Signal
project_save s =
    if is_idle s.project.task_type
    then (let (s', asked) = save_clients s in
        finish_save s' (progress 0 ∷ asked ++ write_notes ∷ clear_lost_clients ∷ []))
    else (s, [])

-- check_tasks: the client has a pending task, and the call names it.
abbrev pub check_tasks : Client → ℕ → Bool
check_tasks client task_id = not (client.pending_task == 0) && client.pending_task == task_id

-- lashd_dbus_progress from the `position`-th client of the project. A sender that is no client
-- gets an error reply.
unfoldable pub report_progress :
    ℕ → Project → List Client → ℕ → ℕ → Bool → Project × List Client × List Signal
report_progress position project [] task_id percentage stored = (project, [], [])
report_progress zero project (client ∷ clients) task_id percentage stored =
    if check_tasks client task_id
    then (let (project', client', signals) =
          client_task_progressed project client percentage stored in
        (project', client' ∷ clients, signals))
    else (project, client ∷ clients, [])
report_progress (suc position) project (client ∷ clients) task_id percentage stored =
    let (project', clients', signals) =
      report_progress position project clients task_id percentage stored in
    (project', client ∷ clients', signals)
