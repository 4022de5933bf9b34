-- ===== src/ScheduledJob.antt =====
-- One tick of a scheduled job: admit_scheduled_run (api/app/workflows/activities/schedules.py)
-- and the waiting loop of ScheduledJobWorkflow (api/app/workflows/scheduled_job.py). Of the database
-- the state holds the job's row, its runs and what is delivered; the meters of Quota are read
-- through `Meters`, whose answers may differ from call to call, since the user's other runs come
-- and go. Times are seconds. The credentials and the scrape's input are left out.
pub mod Once
pub mod Wait
mod Examples
use scrapeflow.Base.{
  ℕ, zero, suc, ◌+◌, ◌-◌, ◌*◌, Bool, true, false, not, ◌&&◌, ◌||◌, Option, none, some, List, [],
  ◌∷◌, String, leb, min, any, ◌==◌, if◌then◌else◌,
}
use scrapeflow.Quota.{QuotaType, monthly_runs, concurrent_jobs, storage_bytes}
use scrapeflow.JobRun.{wants}
use scrapeflow.JobRun.Running.{Webhook, job_failed}

pub data RunStatus : Type 0 where
  pending failed : RunStatus

-- The columns of a run that are written at its insert; what the run becomes is up to its workflow.
pub record Run : Type 0 where
  pub id : ℕ
  pub status : RunStatus
  pub error : Option String
  pub completed_at : Option ℕ

pub record Job : Type 0 where
  pub is_v2 : Bool
  pub is_active : Bool
  pub has_cron : Bool
  pub webhook : Webhook
  pub last_run_at : Option ℕ
  pub schedule_skipped_at : Option ℕ
  pub schedule_skip_reason : Option QuotaType
  pub schedule_waiting_since : Option ℕ

-- `job` is none when it was removed.
pub record State : Type 0 where
  pub job : Option Job
  pub runs : List Run
  -- the failed runs whose webhook row was written
  pub deliveries : List ℕ

pub data Verdict : Type 0 where
  admitted waiting skipped failed stopped : Verdict

-- is_quota_exceeded of the job's user, at this call.
abbrev pub Meters : Type 0
Meters = QuotaType → Bool

abbrev pub storage_full : String
storage_full =
    "storage_quota_exceeded: storage is full — delete old results to resume this schedule"

abbrev pub find_run : ℕ → List Run → Option Run
find_run id [] = none
find_run id (r ∷ runs) = let rest = find_run id runs in if r.id == id then some r else rest

-- _skip
unfoldable pub skip : Job → QuotaType → ℕ → State → State × Verdict
skip job reason now s = (
  record s {
    job = some (record job {
      schedule_skipped_at = some now;
      schedule_skip_reason = some reason;
      schedule_waiting_since = none;
    });
  },
  Verdict.skipped,
)

-- _fail
unfoldable pub fail : Job → ℕ → ℕ → State → State × Verdict
fail job run_id now s = (
  record {
    job = some (record job { last_run_at = some now; schedule_waiting_since = none });
    runs =
        record {
          id = run_id;
          status = RunStatus.failed;
          error = some storage_full;
          completed_at = some now;
        }
        ∷ s.runs;
    deliveries =
        if wants (some job.webhook) job_failed then run_id ∷ s.deliveries else s.deliveries;
  },
  Verdict.failed,
)

unfoldable pub wait : Job → ℕ → State → State × Verdict
wait job now s = (
  record s {
    job = some (record job {
      schedule_waiting_since = elim job.schedule_waiting_since [
        | none ↦ some now
        | some t ↦ some t
      ];
    });
  },
  Verdict.waiting,
)

unfoldable pub insert : Job → ℕ → ℕ → State → State × Verdict
insert job run_id now s = (
  record s {
    job = some (record job { last_run_at = some now; schedule_waiting_since = none });
    runs =
        record { id = run_id; status = RunStatus.pending; error = none; completed_at = none }
        ∷ s.runs;
  },
  Verdict.admitted,
)

abbrev pub answer : Run → Verdict
answer run = elim run.status [
  | RunStatus.failed ↦ Verdict.failed
  | RunStatus.pending ↦ Verdict.admitted
]

-- The meters, in order.
unfoldable pub meter : Meters → Bool → ℕ → ℕ → Job → State → State × Verdict
unfolding skip fail wait insert
meter exceeded last_chance run_id now job s =
    if exceeded monthly_runs
    then skip job monthly_runs now s
    else if exceeded storage_bytes
    then fail job run_id now s
    else if exceeded concurrent_jobs
    then (if last_chance then skip job concurrent_jobs now s else wait job now s)
    else insert job run_id now s

unfoldable pub admit_scheduled_run : Meters → Bool → ℕ → ℕ → State → State × Verdict
unfolding meter
admit_scheduled_run exceeded last_chance run_id now s = elim s.job [
  | none ↦ (s, Verdict.stopped)
  | some job ↦ elim (find_run run_id s.runs) [
    | some run ↦ (s, answer run)
    | none ↦
        if not job.is_v2 || not job.is_active || not job.has_cron
        then (s, Verdict.stopped)
        else meter exceeded last_chance run_id now job s
  ]
]

abbrev pub wait_first : ℕ
wait_first = 15

abbrev pub wait_max : ℕ
wait_max = 300

abbrev pub wait_cap : ℕ
wait_cap = 24 * 3600

-- What the call made at a time meets: the meters, what the others have done to the tables before
-- it commits, and how long it takes. A call that is not answered fails the tick.
pub record Ask : Type 0 where
  pub exceeded : Meters
  pub others : State → State
  pub took : ℕ

abbrev pub is_waiting : Verdict → Bool
is_waiting Verdict.waiting = true
is_waiting _ = false

-- The waiting loop, from a call at `now` on; the fuel is the calls left, and `none` is a loop that
-- needs more.
unfoldable pub loop : (ℕ → Ask) → ℕ → ℕ → ℕ → ℕ → ℕ → State → Option (State × Verdict)
unfolding admit_scheduled_run
loop asks run_id started zero now delay s = none
loop asks run_id started (suc fuel) now delay s =
    let ask = asks now in
    let last_chance = leb (started + wait_cap) now in
    let asked = admit_scheduled_run ask.exceeded last_chance run_id now (ask.others s) in
    let rest =
      loop asks run_id started fuel (now + ask.took + delay) (min (delay * 2) wait_max) asked.0 in
    if is_waiting asked.1 then rest else some asked

-- run, up to the start of the child: the tick is asked at most `calls` times.
abbrev pub calls : ℕ
calls = 5762

unfoldable pub run : (ℕ → Ask) → ℕ → ℕ → State → Option (State × Verdict)
unfolding loop
run asks run_id started s = loop asks run_id started calls started wait_first s
