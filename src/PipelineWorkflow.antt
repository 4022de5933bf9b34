-- ===== src/PipelineWorkflow.antt =====
-- PipelineWorkflow (api/app/workflows/pipeline.py): a pinned definition, run block by block. Its
-- activities write the row through PipelineMirror. What the workflow meets (how each activity ends,
-- when the API's cancel commits, when Temporal's cancel arrives, the time) is the environment, per
-- block. Object paths are numbers; the arguments that only an activity reads are left out.
pub mod Calls
pub mod Perform
pub mod Refines
pub mod Transactions
pub mod Produces
pub mod Told
pub mod Ends
pub mod Ready
pub mod Answers
pub mod Examples
use Prim.Native.String.{◌++◌ as ◌<>◌}
use scrapeflow.Base.{
  ℕ, Bool, true, false, not, String, Option, none, some, List, [], ◌∷◌, ltb, leb, min, update,
  if◌then◌else◌,
}
use scrapeflow.Quota.{Settings}
use scrapeflow.Catalog.{
  Config, scrape_config, clean_config, llm_extract_config, validate_config, webhook_config, type_of,
  kind, Kind, content, effect, Timing, timing, budget,
}
use scrapeflow.PipelineMirror.{StoredObject, record_storage, Event, steps}
use scrapeflow.PipelineMirror.Mirrors.{
  RunStatus, State, Answer, MirrorStatus, MirrorBlockInput, mirror_block_status, Outcome,
  mirror_run_status,
}
use scrapeflow.Temporal.{
  Exc, cancelled_error, application_error, other_error, is_cancellation, failure_message, Called,
  got, threw, ApiCancel, commits, DbCall, db,
}
use scrapeflow.WebhookBlock.{WebhookInput, Attempt, attempts_from}
use scrapeflow.PipelineWorkflow.Calls.{
  Env, Flow, PipelineRunInput, Result, RunBlock, application_failure, block_input, call_db,
  cancelled, escaped, finish, key_error, mirror_block, mirror_run, no_input, nothing, one, returned,
  scraped, stuck,
}
use scrapeflow.PipelineWorkflow.Perform.{attempt_block}

module _ (e : Env) (i : PipelineRunInput) where
  -- _cancel
  unfoldable pub cancel : Flow → Flow × Result
  unfolding mirror_run
  cancel f =
      let (f', c) = mirror_run Outcome.cancelled none none e.ending f in
      elim c [
        | threw x ↦ (f', escaped x)
        | got status ↦ (f', if f'.cancel_requested then cancelled else returned none)
      ]

  abbrev pub fail_input : ℕ → String → MirrorBlockInput
  fail_input id error = record (block_input id MirrorStatus.failed) { error = some error }

  unfoldable pub cancelled_block : RunBlock → Flow → Flow × Result
  unfolding mirror_block cancel
  cancelled_block b f =
      let (f', c) =
        mirror_block (fail_input b.id "cancelled before it finished") (e.at b.id).fail f in
      elim c [ threw x ↦ (f', escaped x) | got status ↦ cancel f' ]

  unfoldable pub failed_run : String → Flow → Flow × Result
  unfolding mirror_run
  failed_run error f =
      let (f', c) = mirror_run Outcome.failed none (some error) e.ending f in
      elim c [ threw x ↦ (f', escaped x) | got status ↦ (f', application_failure error) ]

  unfoldable pub failed_block : RunBlock → Exc → Flow → Flow × Result
  unfolding mirror_block failed_run failure_message timing
  failed_block b x f =
      let message = failure_message e.str x (timing b.config).maximum_attempts in
      let (f', c) = mirror_block (fail_input b.id message) (e.at b.id).fail f in
      elim c [
        | threw y ↦ (f', escaped y)
        | got status ↦ failed_run (e.str b.id <> (": " <> message)) f'
      ]

  -- run's `except`
  unfoldable pub block_raised : RunBlock → Exc → Flow → Flow × Result
  unfolding cancelled_block failed_block
  block_raised b x f = if is_cancellation x then cancelled_block b f else failed_block b x f

  abbrev pub output_ref : Kind → List StoredObject → Option ℕ → Option ℕ
  output_ref content [] input_ref = none
  output_ref content (o ∷ os) input_ref = some o.path
  output_ref effect objects input_ref = input_ref

  abbrev wall_note : ℕ → ℕ → ℕ → String
  wall_note id used limit =
      "storage_wall: block '"
      <> (e.str id
          <> ("' took storage to "
              <> (e.str used
                  <> (" of "
                      <> (e.str limit
                          <> " bytes; the run completed and is charged. Delete results to start new runs")))))

  abbrev wall_after : ℕ → Option (ℕ × ℕ) → Option String → Option String
  wall_after id none wall = wall
  wall_after id (some usage) none =
      if ltb usage.1 usage.0 then some (wall_note id usage.0 usage.1) else none
  wall_after id (some usage) (some note) = some note

  abbrev pub with_output : RunBlock → ℕ → Option (ℕ × ℕ) → Flow → Flow
  with_output b ref usage f = record f {
    refs = update f.refs b.id (some ref);
    result_path = elim (kind (type_of b.config)) [ content ↦ some ref | effect ↦ f.result_path ];
    wall = wall_after b.id usage f.wall;
  }

  -- After the `try`; `none` goes on with the next block.
  unfoldable pub complete_block : RunBlock → Option ℕ → Option (ℕ × ℕ) → Flow → Flow × Option Result
  unfolding mirror_block
  complete_block b none usage f = (f, some stuck)
  complete_block b (some ref) usage f =
      let i' = record (block_input b.id MirrorStatus.completed) { output_ref = some ref } in
      let (f', c) = mirror_block i' (e.at b.id).complete (with_output b ref usage f) in
      elim c [ threw x ↦ (f', some (escaped x)) | got status ↦ (f', none) ]

  abbrev pub ended : Flow × Result → Flow × Option Result
  ended (f, r) = (f, some r)

  unfoldable pub run_started : RunBlock → Option ℕ → Flow → Flow × Option Result
  unfolding attempt_block block_raised complete_block
  run_started b input_ref f =
      let (f', c) = attempt_block e i b input_ref f in
      elim c [
        | threw x ↦ ended (block_raised b x f')
        | got done ↦
            complete_block b (output_ref (kind (type_of b.config)) done.0 input_ref) done.1 f'
      ]

  -- refs.get(block.input) if block.input else None
  abbrev pub input_of : RunBlock → Flow → Option ℕ
  input_of b f = elim b.input [ none ↦ none | some id ↦ f.refs id ]

  -- What the running mirror answers decides.
  abbrev pub after_status : RunBlock → Option ℕ → Flow → RunStatus → Flow × Option Result
  after_status b input_ref f RunStatus.running = run_started b input_ref f
  after_status b input_ref f other = ended (cancel f)

  unfoldable pub run_block : RunBlock → Flow → Flow × Option Result
  unfolding mirror_block cancel run_started
  run_block b f =
      let input_ref = input_of b f in
      let i' = record (block_input b.id MirrorStatus.running) { input_ref = input_ref } in
      let (f', c) = mirror_block i' (e.at b.id).start f in
      if f.cancel_requested then ended (cancel f) else elim c [
        | threw x ↦ (f', some (escaped x))
        | got status ↦ after_status b input_ref f' status
      ]

  -- The loop goes on with `rest`, or ends.
  abbrev pub next_block : Flow → Option Result → Flow × Result → Flow × Result
  next_block f none rest = rest
  next_block f (some r) rest = (f, r)

  unfoldable pub run_blocks : List RunBlock → Flow → Flow × Result
  unfolding run_block mirror_run
  run_blocks [] f =
      let (f', c) = mirror_run Outcome.completed f.result_path f.wall e.ending f in
      elim c [ threw x ↦ (f', escaped x) | got status ↦ (f', returned f.result_path) ]
  run_blocks (b ∷ later) f =
      let (f', end) = run_block b f in next_block f' end (run_blocks later f')

  abbrev pub initial : State → Flow
  initial s = record {
    state = s;
    refs = λ id. none;
    result_path = none;
    wall = none;
    cancel_requested = false;
  }

  unfoldable pub run : State → Flow × Result
  unfolding run_blocks
  run s = run_blocks i.blocks (initial s)
