-- ===== src/Tasks/Loss/Stuck.antt =====
-- A save that loses a pending client does not end.
use gnu_lash.Prelude.{
  ℕ, zero, suc, ◌+◌, ◌≤◌, ◌≡◌, refl, sym, subst, ◌∙◌, inl, inr, true, false, some, List, [], ◌∷◌,
  ◌++◌, arith, Option-cases,
}
use gnu_lash.Tasks.Types.{Client, Project, Signal, saving}
use gnu_lash.Tasks.Client.{set_modified_status}
use gnu_lash.Tasks.Client.Accounts.{Accounts, IsSavingClient, announced, announced-append}
use gnu_lash.Tasks.Session.{report_progress}
use gnu_lash.Tasks.Session.Invariant.{
  pending_count, progress_sum, AllSavingOrFinished, report_progress-Ongoing, Accounts-cast,
}
use gnu_lash.Tasks.Loss.{take_out, client_disconnected, Report, report_all}

take_out_lem :
    (position : ℕ) (cs : List Client) (c : Client) (rest : List Client)
    → take_out position cs ≡ some (c, rest)
    → AllSavingOrFinished cs
    → IsSavingClient c
    → AllSavingOrFinished rest
      × (pending_count cs ≡ suc (pending_count rest))
      × (progress_sum cs ≡ progress_sum rest + c.task_progress)
unfolding take_out
take_out_lem position [] c rest e v s = absurd (ground arith)
take_out_lem zero (x ∷ cs) c rest e v s = ground (arith, s.asked)
take_out_lem (suc position) (x ∷ cs) c rest e v s = elim (Option-cases (take_out position cs)) [
  | inl q ↦ absurd (ground arith)
  | inr ((d, others), q) ↦ ground (arith, take_out_lem position cs d others q v.1)
]

-- Reports of the others, while one more client is counted as pending, with the progress `t`.
report_all-saving :
    (reports : List Report) (p : Project) (cs : List Client) (t : ℕ)
    → AllSavingOrFinished cs
    → Accounts p (pending_count cs + 1) (progress_sum cs + t)
    → t ≤ 99
    → (announced (report_all reports p cs).2 ≡ false)
      × ((report_all reports p cs).0.task_type ≡ saving)
unfolding report_all
report_all-saving [] p cs t v a h = (refl, a.task)
report_all-saving (r ∷ reports) p cs t v a h =
    let (ok, o) =
      report_progress-Ongoing r.position p cs 1 t r.task_id r.percentage r.stored v (omega arith) a
        (omega arith) in
    elim o [
      | inr (none_left, _, _) ↦ absurd (omega arith)
      | inl (_, a', silent) ↦
          let step = report_progress r.position p cs r.task_id r.percentage r.stored in
          let (quiet, still) = report_all-saving reports step.0 step.1 t ok a' h in
          (announced-append step.2 (report_all reports step.0 step.1).2 silent ∙ quiet, still)
    ]

set_modified_status-Accounts :
    (p : Project) (n s : ℕ)
    → Accounts p n s
    → Accounts (set_modified_status p true).0 n s
      × (announced (set_modified_status p true).1 ≡ false)
unfolding set_modified_status
set_modified_status-Accounts p n s a = ground arith

client_disconnected-eq :
    (position : ℕ) (p : Project) (cs lost_clients : List Client) (c : Client) (rest : List Client)
    → take_out position cs ≡ some (c, rest)
    → client_disconnected position p cs lost_clients
      ≡ ((set_modified_status p true).0, rest, c ∷ lost_clients, (set_modified_status p true).1)
unfolding client_disconnected
client_disconnected-eq position p cs lost_clients c rest e = rw (e, client_disconnected) refl

-- If a client that is asked to save disconnects before it is done, then whatever the other clients
-- report, ProjectSaved is not announced and the project stays in its save: the counters still
-- wait for the lost client.
pub client_disconnected-stuck :
    (position : ℕ) (p : Project) (cs lost_clients : List Client) (c : Client) (rest : List Client)
    (reports : List Report)
    → AllSavingOrFinished cs
    → Accounts p (pending_count cs) (progress_sum cs)
    → take_out position cs ≡ some (c, rest)
    → IsSavingClient c
    → let (p', cs', _, signals) = client_disconnected position p cs lost_clients in
      let (p'', _, more) = report_all reports p' cs' in
      (announced (signals ++ more) ≡ false) × (p''.task_type ≡ saving)
client_disconnected-stuck position p cs lost_clients c rest reports v a e s =
    let (ok, n, sum) = take_out_lem position cs c rest e v s in
    let p' = (set_modified_status p true).0 in
    let (a', silent) =
      set_modified_status-Accounts p (pending_count rest + 1) (progress_sum rest + c.task_progress)
        (Accounts-cast p _ _ _ _ (omega (arith, n)) sum a) in
    let (quiet, still) = report_all-saving reports p' rest c.task_progress ok a' s.below in
    subst
      (λ (r : Project × List Client × List Client × List Signal).
        (announced (r.3 ++ (report_all reports r.0 r.1).2) ≡ false)
        × ((report_all reports r.0 r.1).0.task_type ≡ saving))
      (sym (client_disconnected-eq position p cs lost_clients c rest e))
      (
        announced-append (set_modified_status p true).1 (report_all reports p' rest).2 silent
            ∙ quiet,
        still,
      )
