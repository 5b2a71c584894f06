-- ===== src/Tasks/Tests.antt =====
-- The task theorems at work on a project with two clients that keep data, and one that does not.
use gnu_lash.Prelude.{
  ◌+◌, ◌%◌, ◌^◌, ℕ, ◌≡◌, refl, inl, inr, true, false, List, [], ◌∷◌, ◌++◌, some, arith,
}
use gnu_lash.Tasks.Types.{
  TaskType, none_set, save_file, restore_file, idle, saving, Client, Project,
}
use gnu_lash.Tasks.Client.Accounts.{Accounts, IsIdle, IsSavingClient, announced}
use gnu_lash.Tasks.Session.{Session, any_pending, project_save, report_progress}
use gnu_lash.Tasks.Session.Invariant.{
  pending_count, progress_sum, AllSavingOrFinished, Ongoing, report_progress-keeps,
}
use gnu_lash.Tasks.Session.Saves.{AreAsked, project_save-Ongoing}
use gnu_lash.Tasks.Loss.{take_out, client_disconnected, Report, report_all}
use gnu_lash.Tasks.Loss.Stuck.{client_disconnected-stuck}

abbrev client_at : ℕ → TaskType → ℕ → Client
client_at task type done = record {
  pending_task = task;
  task_type = type;
  task_progress = done;
  config_data_set = false;
  config_file = true;
  saved = false;
}

abbrev idle_project : Project
idle_project = record {
  task_type = idle;
  client_tasks_total = 0;
  client_tasks_pending = 0;
  client_tasks_progress = 0;
  modified_status = true;
}

-- One client is at 40, the other at 100 and done.
abbrev saving_project : Project
saving_project = record {
  task_type = saving;
  client_tasks_total = 2;
  client_tasks_pending = 1;
  client_tasks_progress = 140;
  modified_status = true;
}

abbrev at_forty : Client
at_forty = client_at 7 save_file 40

abbrev session_clients : List Client
session_clients = at_forty ∷ client_at 0 none_set 0 ∷ []

saving_project-Accounts : Accounts saving_project 1 40
saving_project-Accounts = record {
  task = refl;
  pending = refl;
  within = omega arith;
  counted = refl;
  small = omega arith;
  bounded = omega arith;
}

at_forty-IsSavingClient : IsSavingClient at_forty
at_forty-IsSavingClient = record { asked = ground arith; task = inl refl; below = omega arith }

idle_project-IsIdle : IsIdle idle_project
idle_project-IsIdle = record { task = refl; total = refl; pending = refl; progressed = refl }

report_progress-keeps_example :
    let (p', cs', signals) = report_progress 0 saving_project session_clients 7 255 true in
    AllSavingOrFinished cs' × Ongoing (pending_count cs') (progress_sum cs') p' signals
report_progress-keeps_example =
    report_progress-keeps 0 saving_project session_clients 7 255 true
      (inr at_forty-IsSavingClient, (inl (refl, refl), tt)) (omega arith) saving_project-Accounts

abbrev idle_session : Session
idle_session = record {
  project = idle_project;
  clients = client_at 0 none_set 0 ∷ client_at 0 none_set 0 ∷ [];
  task_iter = 6;
}

project_save-Ongoing_example :
    let (s', signals) = project_save idle_session in
    AreAsked ((idle_session.task_iter + 1) % 2 ^ 64) idle_session.clients s'.clients
    × AllSavingOrFinished s'.clients
    × Ongoing (pending_count s'.clients) (progress_sum s'.clients) s'.project signals
project_save-Ongoing_example =
    project_save-Ongoing idle_session idle_project-IsIdle ((refl, refl), ((refl, refl), tt))
      (omega arith) (ground arith)

-- A client is relaunched with a task of its own while the project is idle.
abbrev relaunched_session : Session
relaunched_session = record {
  project = idle_project;
  clients = client_at 0 none_set 0 ∷ client_at 4 restore_file 0 ∷ [];
  task_iter = 6;
}

relaunched_session-pending : any_pending relaunched_session.clients ≡ true
unfolding any_pending
relaunched_session-pending = refl

-- Two clients are saving, at 40 and at 0.
abbrev two_saving : List Client
two_saving = at_forty ∷ client_at 7 save_file 0 ∷ []

abbrev busy_project : Project
busy_project = record saving_project { client_tasks_pending = 2; client_tasks_progress = 40 }

busy_project-Accounts : Accounts busy_project 2 40
busy_project-Accounts = record {
  task = refl;
  pending = refl;
  within = omega arith;
  counted = refl;
  small = omega arith;
  bounded = omega arith;
}

untouched-IsSavingClient : IsSavingClient (client_at 7 save_file 0)
untouched-IsSavingClient = record { asked = ground arith; task = inl refl; below = omega arith }

first_out : take_out 0 two_saving ≡ some (at_forty, client_at 7 save_file 0 ∷ [])
unfolding take_out
first_out = refl

abbrev other_done : List Report
other_done = record { position = 0; task_id = 7; percentage = 255; stored = true } ∷ []

client_disconnected-stuck_example :
    let (p', cs', _, signals) = client_disconnected 0 busy_project two_saving [] in
    let (p'', _, more) = report_all other_done p' cs' in
    (announced (signals ++ more) ≡ false) × (p''.task_type ≡ saving)
client_disconnected-stuck_example =
    client_disconnected-stuck 0 busy_project two_saving [] at_forty (client_at 7 save_file 0 ∷ [])
      other_done (inr at_forty-IsSavingClient, (inr untouched-IsSavingClient, tt))
      busy_project-Accounts first_out at_forty-IsSavingClient
