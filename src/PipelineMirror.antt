-- ===== src/PipelineMirror.antt =====
-- The two writers of pipeline_runs.status: the mirror activities of
-- api/app/workflows/activities/db.py, and the row half of the API's cancel (cancel_run of
-- api/app/routers/pipelines.py). The state is one run's row, its block rows, the ledger and the
-- queued notifications of core/pipeline_status.py. Uuids, paths, block ids and times are numbers.
-- An activity that raises rolls back: it leaves the state as it was.
pub mod Mirrors
pub mod Status
pub mod Consistent
pub mod Charge
pub mod Reaches
pub mod Rows
mod Examples
use scrapeflow.Base.{
  ℕ, suc, ◌≡◌, Bool, true, false, not, ◌&&◌, ◌||◌, Option, none, some, List, [], ◌∷◌, String, map,
  ◌==◌, if◌then◌else◌, count, get_or,
}
use scrapeflow.Quota.{Settings, storage_usage}
use scrapeflow.Ledger.{StorageObject, Ledger, record_objects}
use scrapeflow.PipelineMirror.Mirrors.{
  Answer, MirrorBlockInput, MirrorRunInput, PipelineRunBlock, RunStatus, State, cancel_requested,
  is_running, mirror_block_status, mirror_run_status, no_block, no_run, notify_run, returned,
}

-- record_storage: the objects as rows of the block, then (used, limit) of the owner.
pub record StoredObject : Type 0 where
  pub path : ℕ
  pub size : ℕ

abbrev pub find_block : ℕ → List PipelineRunBlock → Option PipelineRunBlock
find_block id [] = none
find_block id (b ∷ bs) = if b.block_id == id then some b else find_block id bs

abbrev pub row_of : ℕ → ℕ → StoredObject → StorageObject
row_of user block o = record {
  object_key = o.path;
  user_id = user;
  bytes = o.size;
  job_run_id = none;
  crawl_page_id = none;
  pipeline_run_block_id = some block;
}

unfoldable pub record_storage : Settings → ℕ → List StoredObject → State → State × Answer (ℕ × ℕ)
record_storage settings block objects s = elim s.run [
  | none ↦ (s, no_block)
  | some run ↦ elim (find_block block s.blocks) [
    | none ↦ (s, no_block)
    | some b ↦
        let ledger = record_objects (map (row_of run.user_id b.id) objects) s.ledger in
        (record s { ledger = ledger }, returned (storage_usage settings run.user_id ledger.quotas))
  ]
]

unfoldable pub check_cancelled : State → Answer Bool
unfolding cancel_requested
check_cancelled s = elim s.run [ none ↦ no_run | some run ↦ returned (cancel_requested run) ]

-- cancel_run up to its commit: what the row becomes, and the answer.
pub data CancelAnswer : Type 0 where
  not_found : CancelAnswer
  conflict : RunStatus → CancelAnswer
  accepted : CancelAnswer

unfoldable pub cancel_run : ℕ → ℕ → State → State × CancelAnswer
unfolding notify_run
cancel_run user now s = elim s.run [
  | none ↦ (s, not_found)
  | some run ↦
      if not (run.user_id == user)
      then (s, not_found)
      else if not (is_running run.status)
      then (s, conflict run.status)
      else elim run.cancel_requested_at [
        | none ↦
            let run' = record run { cancel_requested_at = some now } in
            (notify_run run' none (record s { run = some run' }), accepted)
        | some t ↦ (s, accepted)
      ]
]

-- The transactions that write the run, in the order in which they commit: each locks the run's row.
pub data Event : Type 0 where
  mirror_block : MirrorBlockInput → ℕ → Event
  mirror_run : MirrorRunInput → ℕ → Event
  cancel : ℕ → ℕ → Event
  charge : Settings → ℕ → List StoredObject → Event

unfoldable pub step : State → Event → State
step s (mirror_block i now) = (mirror_block_status i now s).0
step s (mirror_run i now) = (mirror_run_status i now s).0
step s (cancel user now) = (cancel_run user now s).0
step s (charge settings block objects) = (record_storage settings block objects s).0

unfoldable pub steps : State → List Event → State
steps s [] = s
steps s (e ∷ es) = steps (step s e) es
