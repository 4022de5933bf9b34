-- ===== src/PipelineMirror/Mirrors.antt =====
-- The rows of a pipeline run and the mirrors that write them (api/app/workflows/activities/db.py).
use scrapeflow.Base.{
  ℕ, Bool, true, false, not, ◌||◌, Option, none, some, List, ◌∷◌, String, map, ◌==◌, if◌then◌else◌,
  count,
}
use scrapeflow.Ledger.{Ledger}

pub data RunStatus : Type 0 where
  running completed failed cancelled : RunStatus

pub data BlockStatus : Type 0 where
  pending running waiting completed failed skipped : BlockStatus

pub record PipelineRun : Type 0 where
  pub user_id : ℕ
  pub status : RunStatus
  pub cancel_requested_at : Option ℕ
  pub result_path : Option ℕ
  pub error : Option String
  pub finished_at : Option ℕ

pub record PipelineRunBlock : Type 0 where
  pub id : ℕ
  pub block_id : ℕ
  pub status : BlockStatus
  pub input_ref : Option ℕ
  pub output_ref : Option ℕ
  pub error : Option String
  pub started_at : Option ℕ
  pub finished_at : Option ℕ

-- The payload of notify_run, less the run's own ids.
pub record Notice : Type 0 where
  pub status : RunStatus
  pub cancel_requested : Bool
  pub block : Option (ℕ × BlockStatus)

-- `run` is none when there is no such row.
pub record State : Type 0 where
  pub run : Option PipelineRun
  pub blocks : List PipelineRunBlock
  pub ledger : Ledger
  pub notices : List Notice

pub data Answer {ℓ} (A : Type ℓ) : Type ℓ where
  returned : A → Answer A
  -- a non-retryable ApplicationError
  no_run : Answer A
  no_block : Answer A

unfoldable pub cancel_requested : PipelineRun → Bool
cancel_requested run = elim run.status [
  | RunStatus.cancelled ↦ true
  | _ ↦ elim run.cancel_requested_at [ none ↦ false | some t ↦ true ]
]

abbrev pub is_requested : Option ℕ → Bool
is_requested none = false
is_requested (some t) = true

unfoldable pub notify_run : PipelineRun → Option (ℕ × BlockStatus) → State → State
notify_run run block s = record s {
  notices =
      record {
        status = run.status;
        cancel_requested = is_requested run.cancel_requested_at;
        block = block;
      }
      ∷ s.notices;
}

-- The statuses that a mirror of a block may carry.
pub data MirrorStatus : Type 0 where
  running waiting completed failed : MirrorStatus

pub record MirrorBlockInput : Type 0 where
  pub block_id : ℕ
  pub status : MirrorStatus
  pub input_ref : Option ℕ
  pub output_ref : Option ℕ
  pub error : Option String

abbrev pub block_status : MirrorStatus → BlockStatus
block_status MirrorStatus.running = BlockStatus.running
block_status MirrorStatus.waiting = BlockStatus.waiting
block_status MirrorStatus.completed = BlockStatus.completed
block_status MirrorStatus.failed = BlockStatus.failed

abbrev coalesce : Option ℕ → ℕ → Option ℕ
coalesce none now = some now
coalesce (some t) now = some t

-- The columns that the update sets, by status; the others keep their values.
unfoldable pub written : MirrorStatus → MirrorBlockInput → ℕ → PipelineRunBlock → PipelineRunBlock
written MirrorStatus.running i now b = record b {
  status = BlockStatus.running;
  input_ref = i.input_ref;
  started_at = coalesce b.started_at now;
  error = none;
}
written MirrorStatus.waiting i now b = record b { status = BlockStatus.waiting; error = i.error }
written outcome i now b = record b {
  status = block_status outcome;
  output_ref = i.output_ref;
  error = i.error;
  finished_at = some now;
}

abbrev pub is_running : RunStatus → Bool
is_running RunStatus.running = true
is_running _ = false

-- `input.status == "running" and (run.status != "running" or _cancel_requested(run))`
unfoldable pub refuses_start : MirrorStatus → PipelineRun → Bool
unfolding cancel_requested
refuses_start MirrorStatus.running run = not (is_running run.status) || cancel_requested run
refuses_start _ run = false

unfoldable pub mirror_block_status : MirrorBlockInput → ℕ → State → State × Answer RunStatus
unfolding refuses_start cancel_requested notify_run written
mirror_block_status i now s = elim s.run [
  | none ↦ (s, no_run)
  | some run ↦
      if refuses_start i.status run
      then (
        notify_run run none s,
        returned (if cancel_requested run then RunStatus.cancelled else run.status),
      )
      else if count (λ b. b.block_id == i.block_id) s.blocks == 1
      then (
        notify_run run (some (i.block_id, block_status i.status)) (record s {
          blocks =
              map (λ b. if b.block_id == i.block_id then written i.status i now b else b) s.blocks;
        }),
        returned run.status,
      )
      else (s, no_block)
]

-- The statuses that a mirror of a run may carry.
pub data Outcome : Type 0 where
  completed failed cancelled : Outcome

abbrev pub run_status : Outcome → RunStatus
run_status Outcome.completed = RunStatus.completed
run_status Outcome.failed = RunStatus.failed
run_status Outcome.cancelled = RunStatus.cancelled

pub record MirrorRunInput : Type 0 where
  pub status : Outcome
  pub result_path : Option ℕ
  pub error : Option String

-- The values of a run that a mirror moves out of running.
unfoldable pub finished : Outcome → MirrorRunInput → ℕ → PipelineRun → PipelineRun
finished o i now run = record run {
  status = run_status o;
  result_path = elim o [ Outcome.completed ↦ i.result_path | _ ↦ none ];
  error = elim o [ Outcome.cancelled ↦ none | _ ↦ i.error ];
  finished_at = some now;
}

abbrev pub skip : PipelineRunBlock → PipelineRunBlock
skip b = elim b.status [ BlockStatus.pending ↦ record b { status = BlockStatus.skipped } | _ ↦ b ]

abbrev skips : RunStatus → Bool
skips RunStatus.failed = true
skips RunStatus.cancelled = true
skips _ = false

unfoldable pub mirror_run_status : MirrorRunInput → ℕ → State → State × Answer RunStatus
unfolding finished notify_run
mirror_run_status i now s = elim s.run [
  | none ↦ (s, no_run)
  | some run ↦
      let run' = if is_running run.status then finished i.status i now run else run in
      (
        notify_run run' none (record s {
          run = some run';
          blocks = if skips run'.status then map skip s.blocks else s.blocks;
        }),
        returned run'.status,
      )
]
