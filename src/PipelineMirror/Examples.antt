-- ===== src/PipelineMirror/Examples.antt =====
-- A run of two blocks: the first starts, a cancel arrives, and the second is refused.
use scrapeflow.Base.{ℕ, ◌+◌, ◌≤◌, ◌≡◌, refl, inr, false, none, some, List, [], ◌∷◌, arith, count}
use scrapeflow.Quota.{Settings}
use scrapeflow.PipelineMirror.{
  StoredObject, record_storage, cancel_run, Event, mirror_block, mirror_run, cancel, charge, steps,
  step,
}
use scrapeflow.PipelineMirror.Mirrors.{
  RunStatus, BlockStatus, MirrorStatus, Outcome, PipelineRun, PipelineRunBlock, State,
  MirrorBlockInput, MirrorRunInput, mirror_block_status, mirror_run_status,
}
use scrapeflow.PipelineMirror.Status.{steps-terminal, steps-Quiet, starts, active}
use scrapeflow.PipelineMirror.Consistent.{IsConsistent, steps-IsConsistent}

abbrev fresh_block : ℕ → PipelineRunBlock
fresh_block n = record {
  id = 100 + n;
  block_id = n;
  status = BlockStatus.pending;
  input_ref = none;
  output_ref = none;
  error = none;
  started_at = none;
  finished_at = none;
}

abbrev fresh_run : PipelineRun
fresh_run = record {
  user_id = 7;
  status = RunStatus.running;
  cancel_requested_at = none;
  result_path = none;
  error = none;
  finished_at = none;
}

abbrev start : State
start = record {
  run = some fresh_run;
  blocks = fresh_block 1 ∷ fresh_block 2 ∷ [];
  ledger = record { objects = []; quotas = λ u. none };
  notices = record { status = RunStatus.running; cancel_requested = false; block = none } ∷ [];
}

abbrev begins : ℕ → MirrorBlockInput
begins n = record {
  block_id = n;
  status = MirrorStatus.running;
  input_ref = none;
  output_ref = none;
  error = none;
}

abbrev stops : MirrorRunInput
stops = record { status = Outcome.cancelled; result_path = none; error = none }

abbrev settings : Settings
settings = record {
  default_quota_monthly_runs = 500;
  default_quota_concurrent_jobs = 5;
  default_quota_storage_bytes = 1000;
  default_quota_scheduled_jobs = 20;
}

abbrev stored : List StoredObject
stored = record { path = 1; size = 40 } ∷ []

abbrev history : List Event
history =
    mirror_block (begins 1) 10
    ∷ cancel 7 11
    ∷ charge settings 1 stored
    ∷ mirror_block (begins 2) 12
    ∷ mirror_run stops 13
    ∷ []

second_skipped :
    (steps start history).blocks
    ≡ record (fresh_block 1) { status = BlockStatus.running; started_at = some 10 }
      ∷ record (fresh_block 2) { status = BlockStatus.skipped }
      ∷ []
unfolding steps step mirror_block_status mirror_run_status cancel_run record_storage
second_skipped = refl

start-IsConsistent : IsConsistent start
start-IsConsistent = record {
  run = fresh_run;
  row = refl;
  fits = (refl, refl);
  skipped = λ h. ground arith;
  told = (refl, refl);
}

steps-IsConsistent_example : IsConsistent (steps start history)
steps-IsConsistent_example = steps-IsConsistent start history start-IsConsistent

abbrev over : PipelineRun
over = record fresh_run { status = RunStatus.completed; finished_at = some 5 }

steps-terminal_example : (steps (record start { run = some over }) history).run ≡ some over
steps-terminal_example =
    steps-terminal (record start { run = some over }) history over refl (λ e. cc)

steps-Quiet_example :
    let s = record start { run = some (record fresh_run { cancel_requested_at = some 3 }) } in
    (starts (steps s history).blocks ≡ starts s.blocks)
    × (count active (steps s history).blocks ≤ count active s.blocks)
steps-Quiet_example =
    steps-Quiet (record start { run = some (record fresh_run { cancel_requested_at = some 3 }) })
      history (record fresh_run { cancel_requested_at = some 3 }, refl, inr refl)
