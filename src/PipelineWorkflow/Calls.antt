-- ===== src/PipelineWorkflow/Calls.antt =====
-- What a pipeline's workflow meets, and its calls of the app DB (api/app/workflows/pipeline.py).
use Prim.Native.String.{◌++◌ as ◌<>◌}
use scrapeflow.Base.{ℕ, Bool, true, String, Option, none, List, [], ◌∷◌, min}
use scrapeflow.Quota.{Settings}
use scrapeflow.Catalog.{Config, Timing, budget}
use scrapeflow.PipelineMirror.{StoredObject}
use scrapeflow.PipelineMirror.Mirrors.{
  RunStatus, State, Answer, MirrorStatus, MirrorBlockInput, mirror_block_status, Outcome,
  mirror_run_status,
}
use scrapeflow.Temporal.{
  Exc, cancelled_error, application_error, other_error, Called, got, threw, ApiCancel, DbCall, db,
}
use scrapeflow.WebhookBlock.{Attempt}

pub record RunBlock : Type 0 where
  pub id : ℕ
  pub input : Option ℕ
  pub config : Config

-- `inputs`, `artifact_ids` and `llm_keys` as their keys: a missing one is a KeyError.
pub record PipelineRunInput : Type 0 where
  pub blocks : List RunBlock
  pub time_budget_seconds : ℕ
  -- the run input that the block's url binds
  pub has_url : ℕ → Bool
  pub has_artifact : ℕ → Bool
  pub has_llm_key : ℕ → Bool

pub record ScrapeOutput : Type 0 where
  pub result : StoredObject
  pub screenshots : List StoredObject

-- A cancel and the end of a call: none meets the wait, it is noted while the call goes on, or it
-- comes as the call ends.
pub data Waiting : Type 0 where
  quiet noted at_end : Waiting

-- A mirror, with the wait for it.
pub record Mirroring : Type 0 where
  pub call : DbCall
  pub waiting : Waiting

-- What one block meets.
pub record BlockEnv : Type 0 where
  pub start : Mirroring
  -- workflow.patched(steps.HOST_SLOT_PATCH)
  pub host_slot : Bool
  -- a cancel while waiting for the host's slot
  pub host_cancelled : Bool
  pub releasing : Waiting
  -- what commits while the block's activity runs, and the time when it is called
  pub meanwhile : List ApiCancel
  pub now : ℕ
  pub scrape : Called ScrapeOutput
  pub clean : Called StoredObject
  pub extract : Called StoredObject
  pub validate : Called (Unit {0})
  pub attempts : List Attempt
  pub waiting : Waiting
  pub storage : Mirroring
  pub complete : Mirroring
  pub fail : Mirroring

pub record Env : Type 0 where
  pub settings : Settings
  -- str of a number
  pub str : ℕ → String
  pub deadline : ℕ
  pub at : ℕ → BlockEnv
  pub ending : Mirroring

-- The app DB, and the workflow's own variables.
pub record Flow : Type 0 where
  pub state : State
  pub refs : ℕ → Option ℕ
  pub result_path : Option ℕ
  pub wall : Option String
  pub cancel_requested : Bool

pub data Result : Type 0 where
  returned : Option ℕ → Result
  application_failure : String → Result
  -- CancelledError
  cancelled : Result
  -- what a call outside run's `try` raised
  escaped : Exc → Result
  -- an exception that is no failure: the workflow task is retried for ever
  stuck : Result

-- _finish, around a call that is not interruptible. A cancel that comes as the call ends is raised.
unfoldable pub finish : {A : Type 0} → Waiting → Flow × Called A → Flow × Called A
finish quiet (f, c) = (f, c)
finish noted (f, c) = (record f { cancel_requested = true }, c)
finish at_end (f, c) = (f, threw cancelled_error)

unfoldable pub call_db :
    {A : Type 0} → (State → State × Answer A) → Mirroring → Flow → Flow × Called A
unfolding db finish
call_db activity m f =
    let (s, c) = db activity m.call f.state in finish m.waiting (record f { state = s }, c)

abbrev pub block_input : ℕ → MirrorStatus → MirrorBlockInput
block_input id status = record {
  block_id = id;
  status = status;
  input_ref = none;
  output_ref = none;
  error = none;
}

unfoldable pub mirror_block : MirrorBlockInput → Mirroring → Flow → Flow × Called RunStatus
unfolding call_db
mirror_block i m f = call_db (mirror_block_status i m.call.now) m f

unfoldable pub mirror_run :
    Outcome → Option ℕ → Option String → Mirroring → Flow → Flow × Called RunStatus
unfolding call_db
mirror_run o path error m f =
    call_db
      (mirror_run_status (record { status = o; result_path = path; error = error }) m.call.now) m f

-- _block_options: the timeouts.
pub record Options : Type 0 where
  pub schedule_to_start : ℕ
  pub start_to_close : ℕ
  pub schedule_to_close : ℕ
  pub heartbeat : Option ℕ
  pub maximum_attempts : ℕ

unfoldable pub block_options : Timing → ℕ → Options
unfolding budget
block_options t remaining = record {
  schedule_to_start = t.schedule_to_start;
  start_to_close = t.start_to_close;
  schedule_to_close = min (budget t) remaining;
  heartbeat = t.heartbeat;
  maximum_attempts = t.maximum_attempts;
}

abbrev pub one : Called StoredObject → Called (List StoredObject)
one (got o) = got (o ∷ [])
one (threw x) = threw x

abbrev pub nothing : Called (Unit {0}) → Called (List StoredObject)
nothing (got u) = got []
nothing (threw x) = threw x

abbrev pub scraped : Called ScrapeOutput → Called (List StoredObject)
scraped (got o) = got (o.result ∷ o.screenshots)
scraped (threw x) = threw x

abbrev pub no_input : {A : Type 0} → String → Called A
no_input name = threw (application_error (name <> " has no input"))

abbrev pub key_error : {A : Type 0} → Called A
key_error = threw (other_error "KeyError")
