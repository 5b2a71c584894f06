-- ===== src/Tasks/Client/Reports.antt =====
-- What a progress report of a saving client does to the counters.
use gnu_lash.Prelude.{
  ℕ, zero, suc, ◌+◌, ◌*◌, ◌≤◌, ◌≡◌, refl, sym, subst, ◌∙◌, ◌⊎◌, inl, inr, Bool, true, false, List,
  ◌++◌, ltb, leb, ◌==◌, arith, if◌then◌else◌, Bool-cases,
}
use gnu_lash.Tasks.Types.{save_file, save_data_set, Client, Project, Signal}
use gnu_lash.Tasks.Client.{
  client_progress, project_client_task_completed, client_task_completed, client_task_progressed,
  task_effect, clear_task,
}
use gnu_lash.Tasks.Client.Accounts.{
  Accounts, IsSavingClient, IsFinished, AfterReport, announced, announced-append,
  client_progress-Accounts, client_progress_lem, project_client_task_completed-AfterReport,
}

task_effect_lem :
    (c : Client) (ok stored : Bool)
    → ((task_effect c ok stored).0.task_type ≡ c.task_type)
      × ((task_effect c ok stored).0.task_progress ≡ c.task_progress)
      × (announced (task_effect c ok stored).1 ≡ false)
unfolding task_effect
task_effect_lem c ok stored = ground arith

AfterReport-signals :
    (n s : ℕ) (p : Project) (before signals : List Signal)
    → announced before ≡ false
    → AfterReport n s p signals
    → AfterReport n s p (before ++ signals)
AfterReport-signals zero s p before signals h a = (a.0, announced-append before signals h ∙ a.1)
AfterReport-signals (suc m) s p before signals h a = (a.0, announced-append before signals h ∙ a.1)

client_task_completed-eq :
    (p : Project) (c : Client) (was_succesful stored : Bool)
    → (c.task_type ≡ save_file) ⊎ (c.task_type ≡ save_data_set)
    → let (client', before) = task_effect c was_succesful stored in
      let (project', client'', signals) = project_client_task_completed p client' in
      client_task_completed p c was_succesful stored
      ≡ (project', clear_task client'', before ++ signals)
unfolding client_task_completed
client_task_completed-eq p c ok stored t = ground arith

-- When a saving client completes its task, whether or not it was successful, while the counters
-- agree with `n` other pending clients, its task is cleared, the counters agree with the others if
-- there are any, and if there are none the project is idle and ProjectSaved is announced. It is
-- announced only then.
pub client_task_completed-AfterReport :
    (p : Project) (c : Client) (n s : ℕ) (was_succesful stored : Bool)
    → IsSavingClient c
    → Accounts p (suc n) (s + c.task_progress)
    → s ≤ 99 * n
    → let (p', c', signals) = client_task_completed p c was_succesful stored in
      IsFinished c' × AfterReport n s p' signals
client_task_completed-AfterReport p c n s ok stored v a b =
    let c₁ = (task_effect c ok stored).0 in
    let (q, r, h) = task_effect_lem c ok stored in
    let after =
      project_client_task_completed-AfterReport p c₁ n s (rw r a) b
        (subst (λ t. (t ≡ save_file) ⊎ (t ≡ save_data_set)) (sym q) v.task) in
    rw (client_task_completed-eq p c ok stored v.task)
      ((refl, refl), AfterReport-signals n s _ _ _ h after)

-- What a report of a saving client may lead to: it stays in, at its new percentage, or it is done.
abbrev pub Reported : ℕ → ℕ → Project → Client → List Signal → Type 0
Reported n s p c signals =
    (IsSavingClient c × Accounts p (suc n) (s + c.task_progress) × (announced signals ≡ false))
    ⊎ (IsFinished c × AfterReport n s p signals)

client_progress-IsSaving :
    (p : Project) (c : Client) (n s percentage : ℕ)
    → IsSavingClient c
    → Accounts p (suc n) (s + c.task_progress)
    → s ≤ 99 * n
    → percentage ≤ 99
    → let (p', c', signals) = client_progress p c percentage in
      IsSavingClient c' × Accounts p' (suc n) (s + c'.task_progress) × (announced signals ≡ false)
client_progress-IsSaving p c n s percentage v a b h =
    let (e, f, q) = client_progress_lem p c percentage in
    let c' = record c { task_progress = percentage } in
    let v' : IsSavingClient c' = record { asked = v.asked; task = v.task; below = h } in
    (
      subst IsSavingClient (sym f) v',
      subst
          (λ (x : Client).
            Accounts (client_progress p c percentage).0 (suc n) (s + x.task_progress))
          (sym f) (client_progress-Accounts p c n s percentage a b h),
      q,
    )

-- A progress report with any percentage, from a saving client and while the counters agree with it
-- and `n` other pending clients, either leaves it pending, below 100 and counted at its progress,
-- with nothing announced, or finishes it as client_task_completed does.
pub client_task_progressed-Reported :
    (p : Project) (c : Client) (n s percentage : ℕ) (stored : Bool)
    → IsSavingClient c
    → Accounts p (suc n) (s + c.task_progress)
    → s ≤ 99 * n
    → let (p', c', signals) = client_task_progressed p c percentage stored in
      Reported n s p' c' signals
unfolding client_task_progressed
client_task_progressed-Reported p c n s percentage stored v a b =
    let cut : ℕ = if ltb 99 percentage then 99 else percentage in
    let low : cut ≤ 99 = ground arith in
    let failed = client_task_completed-AfterReport p c n s false stored v a b in
    let done = client_task_completed-AfterReport p c n s true stored v a b in
    elim (Bool-cases (percentage == 0)) [
      | inl h ↦ rw h (inr failed)
      | inr h ↦ elim (Bool-cases (percentage == 255)) [
        | inl h' ↦ rw (h, h') (inr done)
        | inr h' ↦ elim (Bool-cases (leb percentage c.task_progress)) [
          | inl h'' ↦ rw (h, h', h'') (inl (v, a, refl))
          | inr h'' ↦ rw (h, h', h'') (inl (client_progress-IsSaving p c n s cut v a b low))
        ]
      ]
    ]
