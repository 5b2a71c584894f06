-- ===== src/Tasks/Client.antt =====
-- project_set_modified_status, project_client_progress and project_client_task_completed of
-- lashd/project.c, client_task_progressed and client_task_completed of lashd/client.c. The client
-- belongs to the project. Each function returns the project, the client and the signals.
pub mod Accounts
pub mod Reports
use gnu_lash.Prelude.{
  ℕ, zero, suc, ◌+◌, ◌-◌, ◌/◌, ◌%◌, ◌^◌, Bool, true, false, List, [], ◌∷◌, ◌++◌, ltb, leb, ◌==◌,
  if◌then◌else◌,
}
use gnu_lash.Tasks.Types.{
  TaskType, none_set, save_file, save_data_set, restore_file, restore_data_set, idle, Client,
  Project, Signal, progress, project_saved, project_loaded, modified_status_changed, write_info,
  store_written, satisfy_dependency,
}

-- Bool equality, as the C code compares two `bool`s.
same_bool : Bool → Bool → Bool
same_bool true b = b
same_bool false true = false
same_bool false false = true

unfoldable pub set_modified_status : Project → Bool → Project × List Signal
unfolding same_bool
set_modified_status project new_status =
    if same_bool project.modified_status new_status
    then (project, [])
    else (record project { modified_status = new_status }, modified_status_changed new_status ∷ [])

-- project_clients_save_complete. Whether the info file could be written is only logged.
unfoldable pub clients_save_complete : Project → Project × List Signal
unfolding set_modified_status
clients_save_complete project =
    let (project', signals) = set_modified_status project false in
    (project', write_info ∷ progress 100 ∷ project_saved ∷ signals)

unfoldable pub loaded : Project → Project × List Signal
unfolding set_modified_status
loaded project =
    let (project', signals) = set_modified_status project false in
    (project', progress 100 ∷ project_loaded ∷ signals)

-- client_tasks_progress after `-=`, if the client had progressed before, and `+=`
abbrev pub new_progress : Project → Client → ℕ → ℕ
new_progress project client percentage =
    let before =
      if client.task_progress == 0
      then project.client_tasks_progress
      else (project.client_tasks_progress + 2 ^ 32 - client.task_progress) % 2 ^ 32 in
    (before + percentage) % 2 ^ 32

-- The percentage that is signalled: a uint8_t, cut at 99.
abbrev pub shown : ℕ → ℕ → ℕ
shown done total = let p = done / total % 2 ^ 8 in if ltb 99 p then 99 else p

unfoldable pub client_progress : Project → Client → ℕ → Project × Client × List Signal
client_progress project client percentage =
    let done = new_progress project client percentage in
    (
      record project { client_tasks_progress = done },
      record client { task_progress = percentage },
      if project.client_tasks_total == 0
          then []
          else progress (shown done project.client_tasks_total) ∷ [],
    )

-- The switch at the end of project_client_task_completed.
unfoldable pub task_finished : Project → TaskType → Project × List Signal
unfolding clients_save_complete loaded
task_finished project save_data_set = clients_save_complete project
task_finished project save_file = clients_save_complete project
task_finished project restore_file = loaded project
task_finished project restore_data_set = loaded project
task_finished project none_set = (project, [])

unfoldable pub project_client_task_completed : Project → Client → Project × Client × List Signal
project_client_task_completed project client =
    let (project', client', signals) = client_progress project client 100 in
    if project'.client_tasks_pending == 0
    then (project', client', signals)
    else (let pending = project'.client_tasks_pending - 1 in
        if pending == 0
        then (let (project'', more) =
              task_finished
                (record project' {
                  client_tasks_pending = 0;
                  task_type = idle;
                  client_tasks_total = 0;
                  client_tasks_progress = 0;
                })
                client'.task_type in
            (project'', client', signals ++ more))
        else (record project' { client_tasks_pending = pending }, client', signals))

-- What client_task_completed does for the kind of task, before it tells the project. `stored` is
-- the result of store_write on the client's store.
unfoldable pub task_effect : Client → Bool → Bool → Client × List Signal
task_effect client was_succesful stored = elim client.task_type [
  | save_data_set ↦
      (if was_succesful
        then (
          (if stored then record client { saved = true } else client),
          store_written stored ∷ [],
        )
        else (client, []))
  | save_file ↦ ((if was_succesful then record client { saved = true } else client), [])
  | restore_file ↦ (client, (if was_succesful then satisfy_dependency ∷ [] else []))
  | restore_data_set ↦ (client, (if was_succesful then satisfy_dependency ∷ [] else []))
  | none_set ↦ (client, [])
]

-- The lines behind the label `end`.
abbrev pub clear_task : Client → Client
clear_task client = record client { pending_task = 0; task_type = none_set; task_progress = 0 }

unfoldable pub client_task_completed :
    Project → Client → Bool → Bool → Project × Client × List Signal
client_task_completed project client was_succesful stored =
    let (client', before) = task_effect client was_succesful stored in
    let (project', client'', signals) = project_client_task_completed project client' in
    elim client.task_type [
      | none_set ↦ (project, clear_task client, [])
      | _ ↦ (project', clear_task client'', before ++ signals)
    ]

unfoldable pub client_task_progressed : Project → Client → ℕ → Bool → Project × Client × List Signal
client_task_progressed project client percentage stored =
    if percentage == 0
    then client_task_completed project client false stored
    else (if percentage == 255
        then client_task_completed project client true stored
        else (if leb percentage client.task_progress
            then (project, client, [])
            else client_progress project client (if ltb 99 percentage then 99 else percentage)))
