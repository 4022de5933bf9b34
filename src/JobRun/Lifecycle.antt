-- ===== src/JobRun/Lifecycle.antt =====
-- The run's row under every order of the mirrors and the API's cancel.
use scrapeflow.Base.{
  ℕ, ◌≡◌, ◌⊎◌, ◌∙◌, refl, sym, true, false, none, some, List, [], ◌∷◌, arith, Option-cases,
  Bool-cases, inl, inr,
}
use scrapeflow.Quota.{Settings}
use scrapeflow.Ledger.{Minio}
use scrapeflow.JobRun.{FinishJobRunInput, finish_job_run, cancel_active_run}
use scrapeflow.JobRun.Running.{
  State, JobRun, Status, job_completed, job_failed, Delivery, RecordJobObjectsInput,
  job_run_started, job_run_processing, record_job_objects, is_active, discard_unrecorded,
}

-- The transactions on the row, in the order in which they commit.
pub data Transaction : Type 0 where
  start : ℕ → Transaction
  process : ℕ → Transaction
  charge : Settings → Minio → RecordJobObjectsInput → ℕ → Transaction
  finish : Minio → FinishJobRunInput → ℕ → Transaction
  api_cancel : Transaction

unfoldable pub commit : State → Transaction → State
commit s (start now) = (job_run_started now s).0
commit s (process now) = (job_run_processing now s).0
commit s (charge settings m i now) = (record_job_objects settings m i now s).0
commit s (finish m i now) = (finish_job_run m i now s).0
commit s api_cancel = cancel_active_run s

unfoldable pub commits : State → List Transaction → State
commits s [] = s
commits s (t ∷ ts) = commits (commit s t) ts

commit-terminal :
    (s : State) (t : Transaction) (run : JobRun)
    → s.run ≡ some run
    → is_active run.status ≡ false
    → ((commit s t).run ≡ s.run)
      × ((commit s t).deliveries ≡ s.deliveries)
      × ((commit s t).notices ≡ s.notices)
unfolding commit job_run_started job_run_processing record_job_objects finish_job_run
    cancel_active_run discard_unrecorded
commit-terminal s (start now) run h a = (ground arith, ground arith, ground arith)
commit-terminal s (process now) run h a = (ground arith, ground arith, ground arith)
commit-terminal s (charge settings m i now) run h a = (ground arith, ground arith, ground arith)
commit-terminal s (finish m i now) run h a = (ground arith, ground arith, ground arith)
commit-terminal s api_cancel run h a = (ground arith, ground arith, ground arith)

-- A run that completed, failed or was cancelled keeps its row, and nothing more is notified or
-- delivered for it, whatever mirrors and cancels commit after.
pub commits-terminal :
    (s : State) (ts : List Transaction) (run : JobRun)
    → s.run ≡ some run
    → is_active run.status ≡ false
    → ((commits s ts).run ≡ some run)
      × ((commits s ts).deliveries ≡ s.deliveries)
      × ((commits s ts).notices ≡ s.notices)
unfolding commits
commits-terminal s [] run h a = (h, refl, refl)
commits-terminal s (t ∷ ts) run h a =
    let one = commit-terminal s t run h a in
    let more = commits-terminal (commit s t) ts run (one.0 ∙ h) a in
    (more.0, more.1 ∙ one.1, more.2 ∙ one.2)

-- An active run has delivered nothing; a run that ended delivered nothing, or one webhook of the
-- event that its status calls for.
abbrev pub FitsDeliveries : Status → List Delivery → Type 0
FitsDeliveries st [] = Unit
FitsDeliveries st (d ∷ []) =
    ((st ≡ Status.completed) × (d.event ≡ job_completed))
    ⊎ ((st ≡ Status.failed) × (d.event ≡ job_failed))
FitsDeliveries st (d ∷ e ∷ rest) = ⊥

abbrev pub IsDelivered : State → Type 0
IsDelivered s = (run : JobRun) → s.run ≡ some run → FitsDeliveries run.status s.deliveries

module _ (s : State) (h : IsDelivered s) where
  active_undelivered :
      (run : JobRun) → s.run ≡ some run → is_active run.status ≡ true → s.deliveries ≡ []
  active_undelivered run e a = silent s.deliveries refl
    where
      silent : (ds : List Delivery) → s.deliveries ≡ ds → s.deliveries ≡ []
      silent [] q = q
      silent (d ∷ []) q = ground (arith, h run e)
      silent (d ∷ d' ∷ rest) q = ground (arith, h run e)

  commit_absent : (t : Transaction) → s.run ≡ none → (commit s t).run ≡ none
  unfolding commit job_run_started job_run_processing record_job_objects finish_job_run
      cancel_active_run discard_unrecorded
  commit_absent (start now) e = ground arith
  commit_absent (process now) e = ground arith
  commit_absent (charge settings m i now) e = ground arith
  commit_absent (finish m i now) e = ground arith
  commit_absent api_cancel e = ground arith

module _ (s : State) (r run : JobRun) (e : s.run ≡ some r) (none_yet : s.deliveries ≡ []) where
  active_commit :
      (t : Transaction)
      → is_active r.status ≡ true
      → (commit s t).run ≡ some run
      → FitsDeliveries run.status (commit s t).deliveries
  unfolding commit job_run_started job_run_processing record_job_objects finish_job_run
      cancel_active_run discard_unrecorded
  active_commit (start now) a q = ground arith
  active_commit (process now) a q = ground arith
  active_commit (charge settings m i now) a q = ground arith
  active_commit (finish m i now) a q = ground arith
  active_commit api_cancel a q = ground arith

commit-IsDelivered : (s : State) (t : Transaction) → IsDelivered s → IsDelivered (commit s t)
commit-IsDelivered s t h run q = elim (Option-cases s.run) [
  | inl n ↦ cc (commit_absent s h t n)
  | inr (r, e) ↦ elim (Bool-cases (is_active r.status)) [
    | inl a ↦ active_commit s r run e (active_undelivered s h r e a) t a q
    | inr a ↦ let (same, ds, ns) = commit-terminal s t r e a in rw ds (h run (sym same ∙ q))
  ]
]

-- Through every sequence of mirrors and cancels a run delivers at most one webhook: none while it is
-- active, and job.completed only of a completed run, job.failed only of a failed one.
pub commits-IsDelivered :
    (s : State) (ts : List Transaction) → IsDelivered s → IsDelivered (commits s ts)
unfolding commits
commits-IsDelivered s [] h = h
commits-IsDelivered s (t ∷ ts) h = commits-IsDelivered (commit s t) ts (commit-IsDelivered s t h)
