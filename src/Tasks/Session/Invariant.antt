-- ===== src/Tasks/Session/Invariant.antt =====
-- The counters of a project agree with the tasks of its clients, and the last client to finish
-- ends the save.
use gnu_lash.Prelude.{
  ℕ, zero, suc, ◌+◌, ◌*◌, ◌<◌, ◌≤◌, ◌≡◌, refl, subst, ◌⊎◌, inl, inr, Bool, true, false, List, [],
  ◌∷◌, ◌==◌, arith, if◌then◌else◌, Bool-cases,
}
use gnu_lash.Tasks.Types.{Client, Project, Signal}
use gnu_lash.Tasks.Client.{client_task_progressed}
use gnu_lash.Tasks.Client.Accounts.{
  Accounts, IsIdle, IsSavingClient, IsFinished, AfterReport, announced,
}
use gnu_lash.Tasks.Client.Reports.{client_task_progressed-Reported, Reported}
use gnu_lash.Tasks.Session.{check_tasks, report_progress}

-- How many clients have a pending task, and the sum of their percentages.
abbrev pub pending_count : List Client → ℕ
pending_count [] = 0
pending_count (c ∷ cs) = (if c.pending_task == 0 then 0 else 1) + pending_count cs

abbrev pub progress_sum : List Client → ℕ
progress_sum [] = 0
progress_sum (c ∷ cs) = c.task_progress + progress_sum cs

abbrev pub AllSavingOrFinished : List Client → Type 0
AllSavingOrFinished [] = Unit {0}
AllSavingOrFinished (c ∷ cs) = (IsFinished c ⊎ IsSavingClient c) × AllSavingOrFinished cs

-- A save is under way with `n` pending clients and is not announced, or the last one has ended it.
abbrev pub Ongoing : ℕ → ℕ → Project → List Signal → Type 0
Ongoing n s p signals =
    ((0 < n) × Accounts p n s × (announced signals ≡ false))
    ⊎ ((n ≡ 0) × IsIdle p × (announced signals ≡ true))

AfterReport-Ongoing :
    (n s : ℕ) (p : Project) (signals : List Signal)
    → AfterReport n s p signals
    → Ongoing n s p signals
AfterReport-Ongoing zero s p signals a = inr (refl, a.0, a.1)
AfterReport-Ongoing (suc m) s p signals a = inl (omega arith, a.0, a.1)

progress_sum-le :
    (cs : List Client) → AllSavingOrFinished cs → progress_sum cs ≤ 99 * pending_count cs
progress_sum-le [] h = omega arith
progress_sum-le (c ∷ cs) h = ground (arith, progress_sum-le cs)

pub Accounts-cast : (p : Project) (n m s t : ℕ) → n ≡ m → s ≡ t → Accounts p n s → Accounts p m t
Accounts-cast p n m s t e f a = subst (λ k. Accounts p k t) e (subst (λ k. Accounts p n k) f a)

Ongoing-cast :
    (p : Project) (signals : List Signal) (n m s t : ℕ)
    → n ≡ m
    → s ≡ t
    → Ongoing n s p signals
    → Ongoing m t p signals
Ongoing-cast p signals n m s t e f o =
    subst (λ k. Ongoing k t p signals) e (subst (λ k. Ongoing n k p signals) f o)

abbrev is_pending : Client → ℕ
is_pending c = if c.pending_task == 0 then 0 else 1

Reported-Ongoing :
    (p : Project) (c : Client) (n s : ℕ) (signals : List Signal)
    → Reported n s p c signals
    → (IsFinished c ⊎ IsSavingClient c) × Ongoing (is_pending c + n) (c.task_progress + s) p signals
Reported-Ongoing p c n s signals (inl (v, a, q)) =
    let one : suc n ≡ is_pending c + n = ground (arith, v.asked) in
    (inr v, inl (omega arith, Accounts-cast _ _ _ _ _ one (omega arith) a, q))
Reported-Ongoing p c n s signals (inr (v, a)) =
    let none_left : n ≡ is_pending c + n = ground arith in
    (
      inl v,
      Ongoing-cast p signals n _ s _ none_left (omega arith) (AfterReport-Ongoing n s p signals a),
    )

-- The report of one client, while `n` others are pending.
report-Ongoing :
    (p : Project) (c : Client) (n s percentage : ℕ) (stored : Bool)
    → IsSavingClient c
    → Accounts p (is_pending c + n) (c.task_progress + s)
    → s ≤ 99 * n
    → let (p', c', signals) = client_task_progressed p c percentage stored in
      (IsFinished c' ⊎ IsSavingClient c')
      × Ongoing (is_pending c' + n) (c'.task_progress + s) p' signals
report-Ongoing p c n s percentage stored v a b =
    let one : is_pending c + n ≡ suc n = ground (arith, v.asked) in
    Reported-Ongoing _ _ n s _ (
      client_task_progressed-Reported p c n s percentage stored v
        (Accounts-cast _ _ _ _ _ one (omega arith) a) b)

-- The same at any position, with `m` pending clients before it that have progressed by `t`.
pub report_progress-Ongoing :
    (position : ℕ) (p : Project) (cs : List Client) (m t task_id percentage : ℕ) (stored : Bool)
    → AllSavingOrFinished cs
    → 0 < pending_count cs + m
    → Accounts p (pending_count cs + m) (progress_sum cs + t)
    → t ≤ 99 * m
    → let (p', cs', signals) = report_progress position p cs task_id percentage stored in
      AllSavingOrFinished cs' × Ongoing (pending_count cs' + m) (progress_sum cs' + t) p' signals
unfolding report_progress
report_progress-Ongoing position p [] m t task_id percentage stored v h a b = (tt, inl (h, a, refl))
report_progress-Ongoing zero p (c ∷ cs) m t task_id percentage stored v h a b =
    let le = progress_sum-le cs v.1 in
    elim (Bool-cases (check_tasks c task_id)) [
      | inr e ↦ rw e (v, inl (h, a, refl))
      | inl e ↦
          let saving_client : IsSavingClient c = elim v.0 [
            | inl done ↦ absurd (ground (arith, done, e))
            | inr ok ↦ ok
          ] in
          let (ok, o) =
            report-Ongoing p c (pending_count cs + m) (progress_sum cs + t) percentage stored
              saving_client (Accounts-cast _ _ _ _ _ (omega arith) (omega arith) a) (omega arith) in
          let r = client_task_progressed p c percentage stored in
          rw e ((ok, v.1), Ongoing-cast r.0 r.2 _ _ _ _ (omega arith) (omega arith) o)
    ]
report_progress-Ongoing (suc position) p (c ∷ cs) m t task_id percentage stored v h a b =
    let before : c.task_progress + t ≤ 99 * (is_pending c + m) = ground (arith, v.0) in
    let r = report_progress position p cs task_id percentage stored in
    let (ok, o) =
      report_progress-Ongoing position p cs (is_pending c + m) (c.task_progress + t) task_id
        percentage stored v.1 (omega arith) (Accounts-cast _ _ _ _ _ (omega arith) (omega arith) a)
        before in
    ((v.0, ok), Ongoing-cast r.0 r.2 _ _ _ _ (omega arith) (omega arith) o)

-- While a save is under way, every Progress call, from whichever client and with whatever task
-- number and percentage, leaves the counters in agreement with the clients: the pending ones are
-- counted, and the sum of the percentages is that of the pending ones and 100 for each that is
-- done. When no client is pending any more, the project is idle again. ProjectSaved is announced
-- exactly then.
pub report_progress-keeps :
    (position : ℕ) (p : Project) (cs : List Client) (task_id percentage : ℕ) (stored : Bool)
    → AllSavingOrFinished cs
    → 0 < pending_count cs
    → Accounts p (pending_count cs) (progress_sum cs)
    → let (p', cs', signals) = report_progress position p cs task_id percentage stored in
      AllSavingOrFinished cs' × Ongoing (pending_count cs') (progress_sum cs') p' signals
report_progress-keeps position p cs task_id percentage stored v h a =
    let r = report_progress position p cs task_id percentage stored in
    let (ok, o) =
      report_progress-Ongoing position p cs 0 0 task_id percentage stored v (omega arith)
        (Accounts-cast _ _ _ _ _ (omega arith) (omega arith) a) (omega arith) in
    (ok, Ongoing-cast r.0 r.2 _ _ _ _ (omega arith) (omega arith) o)
