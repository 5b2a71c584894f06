-- ===== src/Tasks/Session/Saves.antt =====
-- project_save: how a save begins, and what is announced.
use gnu_lash.Prelude.{
  ℕ, zero, suc, ◌+◌, ◌*◌, ◌%◌, ◌^◌, ◌<◌, ◌≤◌, ◌≡◌, refl, sym, ap, subst, ◌∙◌, ◌≢◌, ◌⊎◌, inl, inr,
  Bool, true, false, List, [], ◌∷◌, ◌++◌, ◌==◌, arith, length, if◌then◌else◌,
}
use gnu_lash.Tasks.Types.{
  idle, saving, save_file, save_data_set, Client, Project, Signal, progress, save, write_notes,
  clear_lost_clients,
}
use gnu_lash.Tasks.Client.{clients_save_complete, set_modified_status}
use gnu_lash.Tasks.Client.Accounts.{IsIdle, IsFinished, announced, announced-append}
use gnu_lash.Tasks.Session.{
  Session, any_pending, ask_clients, save_clients, finish_save, project_save,
}
use gnu_lash.Tasks.Session.Invariant.{pending_count, progress_sum, AllSavingOrFinished, Ongoing}

abbrev pub AllFinished : List Client → Type 0
AllFinished [] = Unit {0}
AllFinished (c ∷ cs) = IsFinished c × AllFinished cs

any_pending-AllFinished : (cs : List Client) → AllFinished cs → any_pending cs ≡ false
unfolding any_pending
any_pending-AllFinished [] h = refl
any_pending-AllFinished (c ∷ cs) h = ground (arith, any_pending-AllFinished cs)

-- The clients that are asked, and only those, are pending, at 0.
ask_clients_lem :
    (task : ℕ) (cs : List Client)
    → task ≢ 0
    → AllFinished cs
    → let (asked, total) = ask_clients task cs in
      AllSavingOrFinished asked
      × (pending_count asked ≡ total)
      × (progress_sum asked ≡ 0)
      × (total ≤ length cs)
unfolding ask_clients
ask_clients_lem task [] h v = (tt, refl, refl, omega arith)
ask_clients_lem task (c ∷ cs) h v = ground (arith, ask_clients_lem task cs h)

-- A client that keeps its state in files is asked to save them, one that keeps it in a data set only is
-- asked for that, and one without internal state is left alone.
abbrev pub IsAsked : ℕ → Client → Client → Type 0
IsAsked task c asked =
    ((c.config_file ≡ true)
      × (asked ≡ record c { pending_task = task; task_type = save_file; task_progress = 0 }))
    ⊎ ((c.config_file ≡ false)
        × (c.config_data_set ≡ true)
        × (asked ≡ record c { pending_task = task; task_type = save_data_set; task_progress = 0 }))
    ⊎ (c.config_file ≡ false) × (c.config_data_set ≡ false) × (asked ≡ c)

abbrev pub AreAsked : ℕ → List Client → List Client → Type 0
AreAsked task [] [] = Unit {0}
AreAsked task (c ∷ cs) (d ∷ ds) = IsAsked task c d × AreAsked task cs ds
AreAsked task _ _ = ⊥

ask_clients-AreAsked : (task : ℕ) (cs : List Client) → AreAsked task cs (ask_clients task cs).0
unfolding ask_clients
ask_clients-AreAsked task [] = tt
ask_clients-AreAsked task (c ∷ cs) = ground (arith, ask_clients-AreAsked task cs)

clients_save_complete-IsIdle :
    (p : Project)
    → IsIdle p
    → IsIdle (clients_save_complete p).0 × (announced (clients_save_complete p).1 ≡ true)
unfolding clients_save_complete set_modified_status
clients_save_complete-IsIdle p h = ground arith

-- The session after project_save_clients has asked `total` clients.
asked_session : Session → ℕ → List Client → ℕ → Session
asked_session s task asked total = record {
  project = record s.project {
    task_type = if total == 0 then idle else saving;
    client_tasks_total = total;
    client_tasks_pending = total;
    client_tasks_progress = 0;
  };
  clients = asked;
  task_iter = task;
}

save_clients-eq :
    (s : Session) (task : ℕ)
    → task ≡ (s.task_iter + 1) % 2 ^ 64
    → any_pending s.clients ≡ false
    → (ask_clients task s.clients).1 < 2 ^ 32
    → save_clients s ≡ (
      asked_session s task (ask_clients task s.clients).0 (ask_clients task s.clients).1,
      save task ∷ [],
    )
unfolding save_clients asked_session
save_clients-eq s task e none_pending small = ground arith

finish_save-Ongoing :
    (s : Session) (task : ℕ) (asked : List Client) (total : ℕ) (signals : List Signal)
    → announced signals ≡ false
    → 100 * total < 2 ^ 32
    → let (s', signals') = finish_save (asked_session s task asked total) signals in
      (s'.clients ≡ asked) × Ongoing total 0 s'.project signals'
unfolding finish_save asked_session
finish_save-Ongoing s task asked zero signals q small =
    let p = record s.project {
      task_type = idle;
      client_tasks_total = 0;
      client_tasks_pending = 0;
      client_tasks_progress = 0;
    } in
    let (i, a) =
      clients_save_complete-IsIdle p
        (record { task = refl; total = refl; pending = refl; progressed = refl }) in
    (refl, inr (refl, i, announced-append signals _ q ∙ a))
finish_save-Ongoing s task asked (suc n) signals q small =
    let more : (suc n == 0) ≡ false = ground arith in
    rw more (refl, inl (omega arith, ground arith, q))

project_save-eq :
    (s : Session)
    → s.project.task_type ≡ idle
    → project_save s
      ≡ finish_save
          (save_clients s).0
          (progress 0 ∷ (save_clients s).1 ++ write_notes ∷ clear_lost_clients ∷ [])
unfolding project_save
project_save-eq s e = ground arith

-- A save of an idle project whose clients have no task asks the clients with internal state, and no
-- others, with the next task number: for their files if they have any, and for their data set otherwise.
-- If there are such clients, they are pending and nothing is announced; if there are none, the save is over
-- and ProjectSaved is announced. The counters must fit their 32 bits, and the next task number
-- must not be 0.
pub project_save-Ongoing :
    (s : Session)
    → IsIdle s.project
    → AllFinished s.clients
    → 100 * length s.clients < 2 ^ 32
    → (s.task_iter + 1) % 2 ^ 64 ≢ 0
    → let (s', signals) = project_save s in
      AreAsked ((s.task_iter + 1) % 2 ^ 64) s.clients s'.clients
      × AllSavingOrFinished s'.clients
      × Ongoing (pending_count s'.clients) (progress_sum s'.clients) s'.project signals
project_save-Ongoing s i v small fresh =
    let task = (s.task_iter + 1) % 2 ^ 64 in
    let asked = (ask_clients task s.clients).0 in
    let total = (ask_clients task s.clients).1 in
    let (ok, n, sum, le) = ask_clients_lem task s.clients fresh v in
    let signals = progress 0 ∷ save task ∷ write_notes ∷ clear_lost_clients ∷ [] in
    let (same, o) = finish_save-Ongoing s task asked total signals refl (omega arith) in
    let saved =
      project_save-eq s i.task
      ∙ ap
          (λ (r : Session × List Signal).
            finish_save r.0 (progress 0 ∷ r.1 ++ write_notes ∷ clear_lost_clients ∷ []))
          (save_clients-eq s task refl (any_pending-AllFinished s.clients v) (omega arith)) in
    subst
      (λ (r : Session × List Signal).
        AreAsked task s.clients r.0.clients
        × AllSavingOrFinished r.0.clients
        × Ongoing (pending_count r.0.clients) (progress_sum r.0.clients) r.0.project r.1)
      (sym saved) (rw (same, n, sum) (ask_clients-AreAsked task s.clients, ok, o))

-- The Save signal is among the signals.
abbrev pub requested : List Signal → Bool
requested [] = false
requested (save task ∷ rest) = true
requested (x ∷ rest) = requested rest

save_clients-pending : (s : Session) → any_pending s.clients ≡ true → save_clients s ≡ (s, [])
unfolding save_clients
save_clients-pending s h = rw h refl

-- If a client still has a task of its own while the project has none, as after the relaunch of a
-- lost client, project_save asks no client to save, changes no client, and still announces
-- ProjectSaved and leaves the project marked as unmodified.
project_save-asks_nobody :
    (s : Session)
    → IsIdle s.project
    → any_pending s.clients ≡ true
    → let (s', signals) = project_save s in
      (requested signals ≡ false)
      × (announced signals ≡ true)
      × (s'.clients ≡ s.clients)
      × (s'.project.modified_status ≡ false)
unfolding finish_save clients_save_complete set_modified_status
project_save-asks_nobody s i h =
    let saved =
      project_save-eq s i.task
      ∙ ap
          (λ (r : Session × List Signal).
            finish_save r.0 (progress 0 ∷ r.1 ++ write_notes ∷ clear_lost_clients ∷ []))
          (save_clients-pending s h) in
    subst
      (λ (r : Session × List Signal).
        (requested r.1 ≡ false)
        × (announced r.1 ≡ true)
        × (r.0.clients ≡ s.clients)
        × (r.0.project.modified_status ≡ false))
      (sym saved) (ground (arith, i.total))
