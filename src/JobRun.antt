-- ===== src/JobRun.antt =====
-- The job lane's mirrors of job_runs (api/app/workflows/activities/job_runs.py), the soft cancel of
-- api/app/core/dispatch.py, and the permanent delete as far as it meets a run. The state is one run's
-- row, its owner's and job's columns that the activities read, the ledger, the bucket and what is
-- notified and delivered. Uuids, paths and times are numbers. `_notify` is one entry of `notices`:
-- on the job lane a pg_notify, on the batch lane the mirror of the batch, which is in Batch.
pub mod Running
pub mod Workflow
pub mod Objects
pub mod Lifecycle
pub mod Unstarted
mod Examples
use Prim.Native.String.{◌++◌ as ◌<>◌}
use scrapeflow.Base.{
  ℕ, ◌+◌, ◌≡◌, Bool, true, false, not, ◌&&◌, ◌||◌, Option, none, some, List, [], ◌∷◌, String, map,
  ltb, ◌==◌, if◌then◌else◌, any, filter, sum_by, contains, update,
}
use scrapeflow.Quota.{Settings, check_storage_quota}
use scrapeflow.Ledger.{StorageObject, Ledger, Minio, delete_minio_object, has_key, record_objects}
use scrapeflow.JobRun.Running.{
  Event, JobRun, RunState, State, Status, Webhook, at, discard_unrecorded, gone, is_active,
  job_completed, job_failed, notify,
}

pub data Outcome : Type 0 where
  completed failed cancelled : Outcome

abbrev pub outcome_status : Outcome → Status
outcome_status Outcome.completed = Status.completed
outcome_status Outcome.failed = Status.failed
outcome_status Outcome.cancelled = Status.cancelled

pub record FinishJobRunInput : Type 0 where
  pub status : Outcome
  pub result_path : Option ℕ
  pub error : Option String
  pub warnings : Option (List String)
  pub discard : List ℕ

-- The row of an active run after finish_job_run.
unfoldable pub ended : Outcome → FinishJobRunInput → ℕ → JobRun → JobRun
ended Outcome.completed i now run = record run {
  status = Status.completed;
  completed_at = some now;
  result_path = i.result_path;
  warnings = i.warnings;
}
ended Outcome.failed i now run = record run {
  status = Status.failed;
  completed_at = some now;
  error = i.error;
}
ended Outcome.cancelled i now run = record run {
  status = Status.cancelled;
  completed_at = some now;
}

abbrev pub event_of : Outcome → Option Event
event_of Outcome.completed = some job_completed
event_of Outcome.failed = some job_failed
event_of Outcome.cancelled = none

abbrev same_event : Event → Event → Bool
same_event job_completed job_completed = true
same_event job_failed job_failed = true
same_event _ _ = false

-- `job.webhook_url and (not job.webhook_events or event in job.webhook_events)`
unfoldable pub wants : Option Webhook → Event → Bool
wants none event = false
wants (some w) event =
    w.has_url && elim w.events [ [] ↦ true | e ∷ es ↦ any (λ x. same_event x event) (e ∷ es) ]

unfoldable pub deliver : FinishJobRunInput → State → State
deliver i s = elim (event_of i.status) [
  | none ↦ s
  | some event ↦
      if wants s.job event
      then record s {
        deliveries =
            record { event = event; minio_path = i.result_path; error = i.error } ∷ s.deliveries;
      }
      else s
]

unfoldable pub finish_job_run : Minio → FinishJobRunInput → ℕ → State → State × RunState
unfolding ended deliver wants notify
finish_job_run m i now s0 =
    let s = discard_unrecorded m i.discard s0 in
    elim s0.run [
      | none ↦ (s, gone)
      | some run ↦
          if not (is_active run.status)
          then (s, at run.status)
          else (let run' = ended i.status i now run in
              (notify run' (deliver i (record s { run = some run' })), at run'.status))
    ]

-- cancel_active_runs on this run: the status test is in the UPDATE itself.
unfoldable pub cancel_active_run : State → State
unfolding notify
cancel_active_run s = elim s.run [
  | none ↦ s
  | some run ↦
      if is_active run.status
      then (let run' = record run { status = Status.cancelled } in
          notify run' (record s { run = some run' }))
      else s
]

abbrev pub failed_start : String → ℕ → JobRun → JobRun
failed_start raised now run = record run {
  status = Status.failed;
  error = some ("could not start workflow: " <> raised);
  completed_at = some now;
}

-- fail_unstarted_run, in the request that inserted the run: the UPDATE has no test of its status.
unfoldable pub fail_unstarted_run : String → ℕ → State → State
unfolding wants notify
fail_unstarted_run raised now s = elim s.run [
  | none ↦ s
  | some run ↦
      let run' = failed_start raised now run in
      let s' = record s { run = some run' } in
      notify run' (
        if wants s.job job_failed
        then record s' {
          deliveries =
              record { event = job_failed; minio_path = none; error = run'.error } ∷ s.deliveries;
        }
        else s')
]
