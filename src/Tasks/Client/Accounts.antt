-- ===== src/Tasks/Client/Accounts.antt =====
-- The counters of a project while its clients save, seen from one client: what its reports do to
-- them, when `n` other clients are pending and have progressed by `s` together.
use gnu_lash.Prelude.{
  ℕ, zero, suc, ◌+◌, ◌-◌, ◌*◌, ◌^◌, ◌<◌, ◌≤◌, ◌≡◌, refl, ◌≢◌, ◌⊎◌, Bool, true, false, List, [], ◌∷◌,
  ◌++◌, arith,
}
use gnu_lash.Tasks.Types.{
  TaskType, none_set, save_file, save_data_set, idle, saving, Client, Project, Signal, progress,
  project_saved, project_loaded, modified_status_changed, save, write_info, write_notes,
  clear_lost_clients, satisfy_dependency, store_written,
}
use gnu_lash.Tasks.Client.{
  client_progress, project_client_task_completed, new_progress, task_finished,
}

-- `n` clients are pending, and have progressed by `s` together; the others have finished, at 100.
pub record Accounts (p : Project) (n s : ℕ) : Type 0 where
  pub task : p.task_type ≡ saving
  pub pending : p.client_tasks_pending ≡ n
  pub within : n ≤ p.client_tasks_total
  pub counted : p.client_tasks_progress ≡ s + 100 * (p.client_tasks_total - n)
  pub small : 100 * p.client_tasks_total < 2 ^ 32
  pub bounded : s ≤ 99 * n

-- No task, and no counter is left over.
pub record IsIdle (p : Project) : Type 0 where
  pub task : p.task_type ≡ idle
  pub total : p.client_tasks_total ≡ 0
  pub pending : p.client_tasks_pending ≡ 0
  pub progressed : p.client_tasks_progress ≡ 0

-- The client takes part in the save.
pub record IsSavingClient (c : Client) : Type 0 where
  pub asked : c.pending_task ≢ 0
  pub task : (c.task_type ≡ save_file) ⊎ (c.task_type ≡ save_data_set)
  pub below : c.task_progress ≤ 99

abbrev pub IsFinished : Client → Type 0
IsFinished c = (c.pending_task ≡ 0) × (c.task_progress ≡ 0)

-- The arithmetic of project_client_progress does not wrap around.
new_progress-eq :
    (p : Project) (c : Client) (n s percentage : ℕ)
    → Accounts p (suc n) (s + c.task_progress)
    → s ≤ 99 * n
    → percentage ≤ 100
    → new_progress p c percentage ≡ s + percentage + 100 * (p.client_tasks_total - suc n)
new_progress-eq p c n s percentage a b h = ground arith

-- A report between the client's progress and 99 moves the sum by as much, and leaves the client in.
pub client_progress-Accounts :
    (p : Project) (c : Client) (n s percentage : ℕ)
    → Accounts p (suc n) (s + c.task_progress)
    → s ≤ 99 * n
    → percentage ≤ 99
    → Accounts (client_progress p c percentage).0 (suc n) (s + percentage)
unfolding client_progress
client_progress-Accounts p c n s percentage a b h =
    ground (arith, new_progress-eq p c n s percentage a b)

-- ProjectSaved is among the signals.
abbrev pub announced : List Signal → Bool
announced [] = false
announced (project_saved ∷ rest) = true
announced (x ∷ rest) = announced rest

pub announced-append :
    (xs ys : List Signal) → announced xs ≡ false → announced (xs ++ ys) ≡ announced ys
announced-append [] ys h = refl
announced-append (project_saved ∷ xs) ys h = cc
announced-append (project_loaded ∷ xs) ys h = announced-append xs ys h
announced-append (progress n ∷ xs) ys h = announced-append xs ys h
announced-append (modified_status_changed b ∷ xs) ys h = announced-append xs ys h
announced-append (save n ∷ xs) ys h = announced-append xs ys h
announced-append (write_info ∷ xs) ys h = announced-append xs ys h
announced-append (write_notes ∷ xs) ys h = announced-append xs ys h
announced-append (clear_lost_clients ∷ xs) ys h = announced-append xs ys h
announced-append (store_written b ∷ xs) ys h = announced-append xs ys h
announced-append (satisfy_dependency ∷ xs) ys h = announced-append xs ys h

-- What a report does to a project whose save goes on with `n` other clients: the last one ends it.
abbrev pub AfterReport : ℕ → ℕ → Project → List Signal → Type 0
AfterReport zero s p signals = IsIdle p × (announced signals ≡ true)
AfterReport (suc m) s p signals = Accounts p (suc m) s × (announced signals ≡ false)

task_finished-save :
    (p : Project) (t : TaskType)
    → (t ≡ save_file) ⊎ (t ≡ save_data_set)
    → IsIdle p
    → IsIdle (task_finished p t).0 × (announced (task_finished p t).1 ≡ true)
unfolding task_finished
task_finished-save p none_set h i = ground arith
task_finished-save p t h i = ground arith

pub client_progress_lem :
    (p : Project) (c : Client) (percentage : ℕ)
    → ((client_progress p c percentage).0
        ≡ record p { client_tasks_progress = new_progress p c percentage })
      × ((client_progress p c percentage).1 ≡ record c { task_progress = percentage })
      × (announced (client_progress p c percentage).2 ≡ false)
unfolding client_progress
client_progress_lem p c percentage = ground arith

pub project_client_task_completed-AfterReport :
    (p : Project) (c : Client) (n s : ℕ)
    → Accounts p (suc n) (s + c.task_progress)
    → s ≤ 99 * n
    → (c.task_type ≡ save_file) ⊎ (c.task_type ≡ save_data_set)
    → let (p', c', signals) = project_client_task_completed p c in AfterReport n s p' signals
unfolding project_client_task_completed
project_client_task_completed-AfterReport p c zero s a b t =
    let (e, f, q) = client_progress_lem p c 100 in
    let done = record p {
      client_tasks_pending = 0;
      task_type = idle;
      client_tasks_total = 0;
      client_tasks_progress = 0;
    } in
    ground (
      arith,
      e,
      f,
      announced-append (client_progress p c 100).2 (task_finished done c.task_type).1 q,
      task_finished-save done c.task_type t
          (record { task = refl; total = refl; pending = refl; progressed = refl }),
    )
project_client_task_completed-AfterReport p c (suc m) s a b t =
    let (e, f, q) = client_progress_lem p c 100 in
    ground (arith, e, f, q, new_progress-eq p c (suc m) s 100 a b)
