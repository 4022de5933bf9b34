-- ===== src/ScheduledJob/Examples.antt =====
-- A tick that waits for a slot, one that is skipped after a day, and one that storage fails.
use scrapeflow.Base.{ℕ, ◌≡◌, refl, true, false, Option, none, some, [], ◌∷◌, ltb}
use scrapeflow.Quota.{monthly_runs, concurrent_jobs, storage_bytes}
use scrapeflow.ScheduledJob.{State, Job, Verdict, Meters, Ask, admit_scheduled_run, loop, run}
use scrapeflow.JobRun.{wants}
use scrapeflow.ScheduledJob.Wait.{IsAnswered, run-IsAnswered}

abbrev job : Job
job = record {
  is_v2 = true;
  is_active = true;
  has_cron = true;
  webhook = record { has_url = true; events = [] };
  last_run_at = none;
  schedule_skipped_at = none;
  schedule_skip_reason = none;
  schedule_waiting_since = none;
}

abbrev state : State
state = record { job = some job; runs = []; deliveries = [] }

abbrev free : Meters
free meter = false

abbrev busy : Meters
busy monthly_runs = false
busy concurrent_jobs = true
busy storage_bytes = false

abbrev full : Meters
full monthly_runs = false
full concurrent_jobs = true
full storage_bytes = true

-- The slot is free from second 40 on: the third call, at 45, is admitted.
abbrev asks : ℕ → Ask
asks now = record {
  exceeded = (λ m. elim (ltb now 40) [ true ↦ busy m | false ↦ free m ]);
  others = λ s. s;
  took = 0;
}

abbrev verdict_of : Option (State × Verdict) → Option Verdict
verdict_of none = none
verdict_of (some o) = some o.1

admits_third : verdict_of (loop asks 1 0 3 0 15 state) ≡ some Verdict.admitted
unfolding loop admit_scheduled_run
admits_third = refl

last_chance : (admit_scheduled_run busy true 1 9 state).1 ≡ Verdict.skipped
unfolding admit_scheduled_run
last_chance = refl

storage_fails : (admit_scheduled_run full false 1 9 state).0.deliveries ≡ 1 ∷ []
unfolding admit_scheduled_run wants
storage_fails = refl

failed_state :
    admit_scheduled_run full false 1 9 state
    ≡ ((admit_scheduled_run full false 1 9 state).0, Verdict.failed)
unfolding admit_scheduled_run
failed_state = refl

run-IsAnswered_example : IsAnswered asks 1 0 (run asks 1 0 state)
run-IsAnswered_example = run-IsAnswered asks 1 0 state
