-- ===== src/JobRun/Workflow/Ends.antt =====
-- How the workflow's last calls leave the run, whatever its environment does.
pub mod Recorded
pub mod Stages
use scrapeflow.Base.{
  ℕ, ◌≡◌, ◌⊎◌, refl, ap, Bool, true, false, not, ◌&&◌, ◌||◌, Option, none, some, List, [], ◌∷◌,
  ◌++◌, String, map, arith, ◌==◌, if◌then◌else◌, any, contains, update, Bool-cases, Option-cases,
  ==_iff, inl, inr,
}
use scrapeflow.Quota.{Settings}
use scrapeflow.Ledger.{Minio, has_key}
use scrapeflow.JobRun.{
  Outcome, FinishJobRunInput, finish_job_run, cancel_active_run, ended, deliver, outcome_status,
}
use scrapeflow.JobRun.Running.{
  State, JobRun, Status, RunState, gone, at, StoredObject, paths, RecordJobObjectsInput,
  job_run_started, job_run_processing, record_job_objects, discard_unrecorded, is_active,
  over_limit,
}
use scrapeflow.JobRun.Objects.{
  HoldsOnly, IsClean, Removes, discard_unrecorded-IsClean, record_job_objects-IsClean,
}
use scrapeflow.JobRun.Workflow.{
  Env, Result, returned, api, stopped, complete, fail, cancel, finish, store, recording, no_input,
  Call, answers, raises_before, raises_after, ScrapeEnd, scrape_failed, ExtractEnd, extract_failed,
  finishing, after_fail, after_complete, internal_error,
}

-- The run is out of its active statuses, or its row is gone.
abbrev pub Inactive : State → Type 0
Inactive s = (run : JobRun) → s.run ≡ some run → is_active run.status ≡ false

-- The run has the status that the workflow gave it, unless it was cancelled or failed meanwhile.
abbrev pub Phase : Status → State → Type 0
Phase st s =
    (run : JobRun)
    → s.run ≡ some run
    → (run.status ≡ st) ⊎ ((run.status ≡ Status.cancelled) ⊎ (run.status ≡ Status.failed))

abbrev pub state_of : Option JobRun → RunState
state_of none = gone
state_of (some run) = at run.status

-- The row says completed with this result.
abbrev pub Delivered : ℕ → State → Type 0
Delivered path s =
    (run : JobRun) × (s.run ≡ some run)
    × (run.status ≡ Status.completed)
    × (run.result_path ≡ some path)

pub record Ends (o : State × Result) : Type 0 where
  pub clean : IsClean o.0
  pub over : Inactive o.0
  pub told : (path : ℕ) → o.1 ≡ returned (some path) → Delivered path o.0

module _ (b : Bool) (s : State) where
  pub api-HoldsOnly : (keys : List ℕ) → HoldsOnly keys s → HoldsOnly keys (api b s)
  unfolding cancel_active_run
  api-HoldsOnly keys h k held = ground (arith, h k)

  pub api-Phase : (st : Status) → Phase st s → Phase st (api b s)
  unfolding cancel_active_run
  api-Phase st h run e = elim (Option-cases s.run) [
    | inl n ↦ ground arith
    | inr (r, n) ↦ ground (arith, h r n)
  ]

  stopped_told : (state : RunState) (path : ℕ) → stopped b state ≡ returned (some path) → ⊥
  unfolding stopped
  stopped_told state path h = ground arith

module _ (m : Minio) (removes : Removes m) (i : FinishJobRunInput) (now : ℕ) (s : State) where
  finish_job_run-IsClean : HoldsOnly i.discard s → IsClean (finish_job_run m i now s).0
  unfolding finish_job_run
  finish_job_run-IsClean h k held =
      ground (arith, discard_unrecorded-IsClean m i.discard s removes h k)

  finish_job_run-Inactive : Inactive (finish_job_run m i now s).0
  unfolding finish_job_run discard_unrecorded
  finish_job_run-Inactive run h = ground arith

abbrev pub LeavesNoScrape : ScrapeEnd → Type 0
LeavesNoScrape (scrape_failed message left) = left ≡ []
LeavesNoScrape _ = Unit

abbrev pub LeavesNoExtract : ExtractEnd → Type 0
LeavesNoExtract (extract_failed message left) = left ≡ []
LeavesNoExtract _ = Unit

-- What the end of a run rests on: a MinIO that removes what it is asked to, answers to the calls that
-- start and finish the run and to the one that reads the LLM settings, and a scrape or an LLM step
-- that leaves no object when it fails.
pub record IsOrderly (e : Env) : Type 0 where
  pub removes : Removes e.minio
  pub starts : e.start_call ≡ answers
  pub reads : e.read_settings ≡ answers
  pub finishes : e.finish_call ≡ answers
  pub fails : e.internal_finish ≡ answers
  pub scrape_leaves : LeavesNoScrape e.scrape
  pub extract_leaves : LeavesNoExtract e.extract

module _ (e : Env) (ok : IsOrderly e) where
  finish-IsClean :
      (i : FinishJobRunInput) (s : State) → HoldsOnly i.discard s → IsClean (finish e i s).0
  unfolding finish
  finish-IsClean i s h =
      finish_job_run-IsClean e.minio ok.removes i e.now (api e.api_at_finish s)
        (api-HoldsOnly e.api_at_finish s i.discard h)

  finish-Inactive : (i : FinishJobRunInput) (s : State) → Inactive (finish e i s).0
  unfolding finish
  finish-Inactive i s = finish_job_run-Inactive e.minio ok.removes i e.now (api e.api_at_finish s)

  after_fail_told :
      (error : String) (o : State × RunState) (path : ℕ)
      → (after_fail e error o).1 ≡ returned (some path)
      → ⊥
  unfolding after_fail stopped
  after_fail_told error o path h = ground arith

  after_fail-Ends :
      (error : String) (discard : List ℕ) (s : State)
      → HoldsOnly discard s
      → Ends (
          after_fail e error
            (finish e (record (no_input Outcome.failed discard) { error = some error }) s))
  after_fail-Ends error discard s h =
      let i : FinishJobRunInput = record (no_input Outcome.failed discard) { error = some error } in
      record {
        clean = unfold after_fail in finish-IsClean i s h;
        over = unfold after_fail in finish-Inactive i s;
        told = λ path t. absurd (after_fail_told error (finish e i s) path t);
      }

  pub fail-Ends :
      (error : String) (discard : List ℕ) (s : State)
      → HoldsOnly discard s
      → Ends (fail e error discard s)
  unfolding fail finishing
  fail-Ends error discard s h = rw ok.finishes (after_fail-Ends error discard s h)

  pub internal_error-Ends : (s : State) → IsClean s → Ends (internal_error e s)
  unfolding internal_error finishing
  internal_error-Ends s h = rw ok.fails (after_fail-Ends "internal error" [] s h)

  pub cancel-Ends : (discard : List ℕ) (s : State) → HoldsOnly discard s → Ends (cancel e discard s)
  unfolding cancel finishing
  cancel-Ends discard s h = rw ok.finishes (record {
    clean = finish-IsClean (no_input Outcome.cancelled discard) s h;
    over = finish-Inactive (no_input Outcome.cancelled discard) s;
    told = λ path t.
        absurd (stopped_told true s (finish e (no_input Outcome.cancelled discard) s).1 path t);
  })

  pub stopped-Ends :
      (s : State) (state : RunState)
      → IsClean s
      → Inactive s
      → Ends (s, stopped e.cancel_at_end state)
  stopped-Ends s state h i = record {
    clean = h;
    over = i;
    told = λ path t. absurd (stopped_told e.cancel_at_end s state path t);
  }

  module _ (path : ℕ) (warnings : Option (List String)) (s : State) where
    abbrev completing : FinishJobRunInput
    completing = record (no_input Outcome.completed []) {
      result_path = some path;
      warnings = warnings;
    }

    -- Only an active run can be answered `completed`.
    finish_completed :
        (st : Status)
        → is_active st ≡ true
        → Phase st s
        → (finish e completing s).1 ≡ at Status.completed
        → Delivered path (finish e completing s).0
    unfolding finish finish_job_run discard_unrecorded
    finish_completed st a h t = elim (Option-cases (api e.api_at_finish s).run) [
      | inl n ↦ ground arith
      | inr (run, n) ↦ (
        ended Outcome.completed completing e.now run,
        ground (arith, api-Phase e.api_at_finish s st h run n),
        ground arith,
        ground arith,
      )
    ]

    complete_returned :
        (p : ℕ)
        → (after_complete e path (finish e completing s)).1 ≡ returned (some p)
        → (p ≡ path) × ((finish e completing s).1 ≡ at Status.completed)
    unfolding after_complete stopped
    complete_returned p t = (ground arith, ground arith)

    pub complete-Ends :
        (st : Status)
        → is_active st ≡ true
        → IsClean s
        → Phase st s
        → Ends (complete e path warnings s)
    unfolding complete finishing
    complete-Ends st a h ph = rw ok.finishes (record {
      clean = unfold after_complete in finish-IsClean completing s h;
      over = unfold after_complete in finish-Inactive completing s;
      told = λ p t.
          let (same, done) = complete_returned p t in
          unfold after_complete in rw same (finish_completed st a ph done);
    })
