-- ===== src/ScheduledJob/Once.antt =====
-- A retried admission.
use scrapeflow.Base.{ℕ, ◌≡◌, ◌⊎◌, arith, Bool, ==_self}
use scrapeflow.ScheduledJob.{
  State, Verdict, Meters, skip, fail, wait, insert, meter, admit_scheduled_run,
}

-- The tick has its run.
abbrev pub HasRun : Verdict → Type 0
HasRun v = (v ≡ Verdict.admitted) ⊎ (v ≡ Verdict.failed)

-- An admission that admitted the tick or failed it is a no-op when it is asked again, with any
-- meters, at any time, last chance or not: the state stays, and the answer is the same.
pub admit_retry :
    (exceeded exceeded' : Meters) (last last' : Bool) (run_id now now' : ℕ) (s t : State)
    (v : Verdict)
    → admit_scheduled_run exceeded last run_id now s ≡ (t, v)
    → HasRun v
    → admit_scheduled_run exceeded' last' run_id now' t ≡ (t, v)
unfolding admit_scheduled_run meter skip fail wait insert
admit_retry exceeded exceeded' last last' run_id now now' s t v h r = ground (arith, ==_self run_id)
