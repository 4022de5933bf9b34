-- ===== src/JobRun/Unstarted.antt =====
-- A run whose workflow did not start.
use scrapeflow.Base.{ℕ, ◌≡◌, ◌∙◌, refl, none, some, List, [], ◌∷◌, String, arith, if◌then◌else◌}
use scrapeflow.JobRun.{fail_unstarted_run, failed_start, wants}
use scrapeflow.JobRun.Running.{State, JobRun, Status, Delivery, job_failed, notify}
use scrapeflow.JobRun.Lifecycle.{Transaction, commits, commits-terminal}

-- The webhook row of a run that failed.
abbrev pub failure_of : State → JobRun → List Delivery
failure_of s run =
    if wants s.job job_failed
    then record { event = job_failed; minio_path = none; error = run.error } ∷ []
    else []

module _ (raised : String) (now : ℕ) (s : State) (run : JobRun) (found : s.run ≡ some run) where
  unstarted_run :
      s.deliveries ≡ []
      → ((fail_unstarted_run raised now s).run ≡ some (failed_start raised now run))
        × ((fail_unstarted_run raised now s).deliveries
            ≡ failure_of s (failed_start raised now run))
        × ((fail_unstarted_run raised now s).notices ≡ Status.failed ∷ s.notices)
  unfolding fail_unstarted_run notify
  unstarted_run d = (ground (arith, found), ground (arith, found, d), ground (arith, found))

-- A run that delivered nothing and whose workflow did not start is failed with the refusal, notified
-- once, and delivers one job.failed webhook if its job asks for it; whatever mirrors and cancels
-- commit after, as of a workflow that was started all the same, its row, its notices and its
-- webhooks stay so.
pub fail_unstarted_run-final :
    (raised : String) (now : ℕ) (s : State) (run : JobRun) (ts : List Transaction)
    → s.run ≡ some run
    → s.deliveries ≡ []
    → let t = commits (fail_unstarted_run raised now s) ts in
      (t.run ≡ some (failed_start raised now run))
      × (t.deliveries ≡ failure_of s (failed_start raised now run))
      × (t.notices ≡ Status.failed ∷ s.notices)
fail_unstarted_run-final raised now s run ts found quiet =
    let (row, deliveries, notices) = unstarted_run raised now s run found quiet in
    let (row', deliveries', notices') =
      commits-terminal (fail_unstarted_run raised now s) ts (failed_start raised now run) row
        refl in
    (row', deliveries' ∙ deliveries, notices' ∙ notices)
