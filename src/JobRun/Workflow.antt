-- ===== src/JobRun/Workflow.antt =====
-- JobWorkflow (api/app/workflows/job.py) over the activities. What it does not decide is in `Env`:
-- how the scrape and the LLM step end, where an API cancel commits between two activities, where a
-- cancel of the workflow is noted, and how each call of an app-DB activity ends for the workflow. A
-- row deleted under the workflow is not modelled. `now` stands for every time that is written.
pub mod Ends
use scrapeflow.Base.{
  ℕ, ◌≡◌, Bool, true, false, Option, none, some, List, [], ◌∷◌, ◌++◌, String, if◌then◌else◌, update,
}
use scrapeflow.Quota.{Settings}
use scrapeflow.Ledger.{Minio}
use scrapeflow.JobRun.{Outcome, FinishJobRunInput, finish_job_run, cancel_active_run}
use scrapeflow.JobRun.Running.{
  State, Status, RunState, gone, at, StoredObject, paths, JobLlm, no_llm, llm_error, llm,
  job_run_started, job_run_processing, read_llm_settings, record_job_objects, discard_unrecorded,
}

pub record ScrapeOutput : Type 0 where
  pub result : StoredObject
  pub content_hash : ℕ
  pub warnings : List String
  pub screenshots : List StoredObject

pub data ScrapeEnd : Type 0 where
  scraped : ScrapeOutput → ScrapeEnd
  -- an ActivityError, and the objects that its attempts have left in the bucket
  scrape_failed : String → List StoredObject → ScrapeEnd
  -- cancelled while waiting for the host's slot
  scrape_cancelled : ScrapeEnd

pub data ExtractEnd : Type 0 where
  extracted : StoredObject → ExtractEnd
  extract_failed : String → List StoredObject → ExtractEnd

-- A call of an app-DB activity answers, or raises an ActivityError before or after its commit.
pub data Call : Type 0 where
  answers raises_before raises_after : Call

pub record Env : Type 0 where
  pub settings : Settings
  pub minio : Minio
  pub now : ℕ
  pub scrape : ScrapeEnd
  pub extract : ExtractEnd
  -- the API cancels the run before this activity commits
  pub api_at_start : Bool
  pub api_in_scrape : Bool
  pub api_at_record : Bool
  pub api_at_processing : Bool
  pub api_in_extract : Bool
  pub api_at_second_record : Bool
  pub api_at_finish : Bool
  -- _cancel_requested where the code reads it
  pub cancel_before_scrape : Bool
  pub cancel_after_scrape : Bool
  pub cancel_before_extract : Bool
  pub cancel_after_extract : Bool
  pub cancel_at_end : Bool
  pub start_call : Call
  pub read_settings : Call
  pub first_record : Call
  pub processing : Call
  pub second_record : Call
  -- the finish_job_run that ends _run, and the one of run's except branch
  pub finish_call : Call
  pub internal_finish : Call

pub data Result : Type 0 where
  returned : Option ℕ → Result
  application_error : String → Result
  cancelled : Result
  -- an ActivityError that nothing catches
  activity_error : Result

abbrev pub api : Bool → State → State
api b s = if b then cancel_active_run s else s

-- The worker writes its objects to the bucket.
unfoldable pub store : List StoredObject → State → State
store [] s = s
store (o ∷ os) s = store os (record s { bucket = update s.bucket o.path true })

unfoldable pub stopped : Bool → RunState → Result
stopped noted (at Status.cancelled) = if noted then cancelled else returned none
stopped noted (at Status.failed) = application_error "the run was failed: see job_runs.error"
stopped noted _ = returned none

abbrev no_input : Outcome → List ℕ → FinishJobRunInput
no_input o discard = record {
  status = o;
  result_path = none;
  error = none;
  warnings = none;
  discard = discard;
}

module _ (e : Env) where
  finish : FinishJobRunInput → State → State × RunState
  finish i s = finish_job_run e.minio i e.now (api e.api_at_finish s)

  -- _finish_run, with what follows its answer, `next`, and an ActivityError, `raised`.
  finishing :
      Call
      → FinishJobRunInput
      → (State × RunState → State × Result)
      → (State → State × Result)
      → State
      → State × Result
  unfolding finish
  finishing answers i next raised s = next (finish i s)
  finishing raises_before i next raised s = raised s
  finishing raises_after i next raised s = raised (finish i s).0

  unfoldable pub after_fail : String → State × RunState → State × Result
  after_fail error (s', state) = (
    s',
    elim state [
      | at st ↦ elim st [
        | Status.failed ↦ application_error error
        | other ↦ stopped e.cancel_at_end (at other)
      ]
      | gone ↦ stopped e.cancel_at_end gone
    ],
  )

  -- run's except branch
  unfoldable pub internal_error : State → State × Result
  unfolding finishing after_fail
  internal_error s =
      finishing e.internal_finish
        (record (no_input Outcome.failed []) { error = some "internal error" })
        (after_fail "internal error") (λ t. (t, activity_error)) s

  unfoldable pub after_complete : ℕ → State × RunState → State × Result
  after_complete path (s', state) = (
    s',
    elim state [
      | at st ↦ elim st [
        | Status.completed ↦ returned (some path)
        | other ↦ stopped e.cancel_at_end (at other)
      ]
      | gone ↦ stopped e.cancel_at_end gone
    ],
  )

  unfoldable pub complete : ℕ → Option (List String) → State → State × Result
  unfolding finishing after_complete internal_error
  complete path warnings s =
      finishing e.finish_call
        (record (no_input Outcome.completed []) { result_path = some path; warnings = warnings })
        (after_complete path) internal_error s

  unfoldable pub fail : String → List ℕ → State → State × Result
  unfolding finishing after_fail internal_error
  fail error discard s =
      finishing e.finish_call (record (no_input Outcome.failed discard) { error = some error })
        (after_fail error) internal_error s

  unfoldable pub cancel : List ℕ → State → State × Result
  unfolding finishing internal_error
  cancel discard s =
      finishing e.finish_call (no_input Outcome.cancelled discard) (λ o. (o.0, stopped true o.1))
        internal_error s

  -- _record with what follows it, `next`. When the call raises, the run is failed and its objects
  -- discarded, and whatever that ends with ends the workflow.
  unfoldable pub recording :
      Call
      → List StoredObject
      → Option ℕ
      → (State × RunState → State × Result)
      → State
      → State × Result
  recording call objects hash next s =
      let done =
        record_job_objects e.settings e.minio (record { objects = objects; content_hash = hash })
          e.now s in
      elim call [
        | answers ↦ next done
        | raises_before ↦ fail "storage_accounting_failed" (paths objects) s
        | raises_after ↦ fail "storage_accounting_failed" (paths objects) done.0
      ]

  after_second_record : StoredObject → State × RunState → State × Result
  after_second_record result (s, state) = elim state [
    | at st ↦ elim st [
      | Status.processing ↦ complete result.path none s
      | other ↦ (s, stopped e.cancel_at_end (at other))
    ]
    | gone ↦ (s, stopped e.cancel_at_end gone)
  ]

  after_extract : ExtractEnd → State → State × Result
  unfolding after_second_record
  after_extract (extract_failed message left) s = fail message [] (store left s)
  after_extract (extracted result) s =
      let held = store (result ∷ []) s in
      if e.cancel_after_extract
      then cancel (result.path ∷ []) held
      else recording e.second_record (result ∷ []) none (after_second_record result)
          (api e.api_at_second_record held)

  after_processing : State × RunState → State × Result
  unfolding after_extract
  after_processing (s, state) = elim state [
    | at st ↦ elim st [
      | Status.processing ↦ after_extract e.extract (api e.api_in_extract s)
      | other ↦ (s, stopped e.cancel_at_end (at other))
    ]
    | gone ↦ (s, stopped e.cancel_at_end gone)
  ]

  -- `s` is the state before the call, `done` what the call leaves and answers. An ActivityError that
  -- nothing catches in _run is run's "internal error".
  processing_call : Call → State → State × RunState → State × Result
  unfolding after_processing
  processing_call answers s done = after_processing done
  processing_call raises_before s done = internal_error s
  processing_call raises_after s done = internal_error done.0

  processing_stage : State → State × Result
  unfolding processing_call
  processing_stage s =
      if e.cancel_before_extract
      then cancel [] s
      else processing_call e.processing s (job_run_processing e.now (api e.api_at_processing s))

  after_first_record : ScrapeOutput → JobLlm → State × RunState → State × Result
  unfolding processing_stage
  after_first_record out settings (s, state) = elim state [
    | at st ↦ elim st [
      | Status.running ↦ elim settings [
        | llm key config ↦ processing_stage s
        | _ ↦ complete out.result.path (some out.warnings) s
      ]
      | other ↦ (s, stopped e.cancel_at_end (at other))
    ]
    | gone ↦ (s, stopped e.cancel_at_end gone)
  ]

  after_settings : ScrapeOutput → JobLlm → State → State × Result
  unfolding after_first_record
  after_settings out (llm_error message) s = fail message (paths (out.result ∷ out.screenshots)) s
  after_settings out settings s =
      recording e.first_record (out.result ∷ out.screenshots) (some out.content_hash)
        (after_first_record out settings) (api e.api_at_record s)

  settings_call : Call → ScrapeOutput → State → State × Result
  unfolding after_settings
  settings_call answers out s = after_settings out (read_llm_settings s) s
  settings_call _ out s = internal_error s

  after_scrape : ScrapeEnd → State → State × Result
  unfolding settings_call
  after_scrape (scrape_failed message left) s = fail message [] (store left s)
  after_scrape scrape_cancelled s = cancel [] s
  after_scrape (scraped out) s =
      let held = store (out.result ∷ out.screenshots) s in
      if e.cancel_after_scrape
      then cancel (paths (out.result ∷ out.screenshots)) held
      else settings_call e.read_settings out held

  after_started : State × RunState → State × Result
  unfolding after_scrape
  after_started (s, state) = elim state [
    | at st ↦ elim st [
      | Status.running ↦
          if e.cancel_before_scrape
          then cancel [] s
          else after_scrape e.scrape (api e.api_in_scrape s)
      | other ↦ (s, stopped e.cancel_at_end (at other))
    ]
    | gone ↦ (s, stopped e.cancel_at_end gone)
  ]

  -- An ActivityError of the first call leaves run before its try.
  start_called : Call → State → State × RunState → State × Result
  unfolding after_started
  start_called answers s done = after_started done
  start_called raises_before s done = (s, activity_error)
  start_called raises_after s done = (done.0, activity_error)

  unfoldable pub run : State → State × Result
  unfolding start_called
  run s = let t = api e.api_at_start s in start_called e.start_call t (job_run_started e.now t)
