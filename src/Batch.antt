-- ===== src/Batch.antt =====
-- A batch: its row, its items and their runs (api/app/models/batch.py), as the mirrors of
-- api/app/workflows/activities/job_runs.py, finish_batch of api/app/workflows/activities/batches.py,
-- and the cancel and the failed start of api/app/core/dispatch.py write them. The counters are
-- those of api/app/core/batch_progress.py. An item holds its one run. A deleted batch is not in the
-- model: every function returns where its row is gone.
pub mod Items
pub mod Counted
pub mod Closed
pub mod Workflow
mod Examples
use scrapeflow.Base.{
  ℕ, ◌≡◌, Bool, true, false, not, ◌&&◌, ◌||◌, Option, none, some, List, [], ◌∷◌, ◌++◌, String, map,
  ◌==◌, if◌then◌else◌, count, length,
}
use scrapeflow.JobRun.{Outcome, FinishJobRunInput, ended}
use scrapeflow.JobRun.Running.{JobRun, Status, is_active}
use scrapeflow.Batch.Items.{
  Batch, BatchStatus, Item, ItemStatus, State, Write, cancelled, completed, failed, mirror_run,
  notify, partial_failure, pending, queued, recount, running,
}

-- The error of a run that is active once every child has ended.
abbrev no_outcome : String
no_outcome = "internal error: the run's workflow ended without an outcome"

unfoldable pub close_item : Bool → ℕ → Item → Item
close_item is_cancelled now i =
    if is_active i.run.status
    then (let error = if is_cancelled then none else some no_outcome in
        record i {
          run = record i.run {
            status = if is_cancelled then Status.cancelled else Status.failed;
            error = error;
            completed_at = some now;
          };
          status = if is_cancelled then ItemStatus.cancelled else ItemStatus.failed;
          error = error;
          completed_at = some now;
        })
    else i

abbrev pub first_run : List Item → List ℕ
first_run [] = []
first_run (i ∷ items) = i.run.id ∷ []

-- create_batch_webhook_delivery, keyed by the first item's run
abbrev pub deliver : State → State
deliver s =
    if s.batch.has_webhook then record s { deliveries = first_run s.items ++ s.deliveries } else s

abbrev pub is_closed : BatchStatus → Bool
is_closed BatchStatus.completed = true
is_closed BatchStatus.partial_failure = true
is_closed _ = false

abbrev pub is_cancelled : BatchStatus → Bool
is_cancelled BatchStatus.cancelled = true
is_cancelled _ = false

abbrev pub outcome : Batch → BatchStatus
outcome b = if b.completed == b.total then BatchStatus.completed else BatchStatus.partial_failure

-- What follows the recount of finish_batch.
unfoldable pub settle : Bool → ℕ → State → State
settle by_cancel now s =
    if by_cancel
    then record s { batch = record s.batch { status = BatchStatus.cancelled } }
    else deliver
        (record s { batch = record s.batch { status = outcome s.batch; completed_at = some now } })

-- `asked` is input.cancelled: the workflow's cancel.
unfoldable pub finish_batch : Bool → ℕ → State → State × BatchStatus
unfolding recount notify close_item settle
finish_batch asked now s =
    let by_cancel = asked || is_cancelled s.batch.status in
    let closed = recount (record s { items = map (close_item by_cancel now) s.items }) in
    let done = notify (settle by_cancel now closed) in
    if is_closed s.batch.status then (s, s.batch.status) else (done, done.batch.status)

abbrev pub cancel_run : JobRun → JobRun
cancel_run run = if is_active run.status then record run { status = Status.cancelled } else run

abbrev pub cancel_item : Item → Item
cancel_item i = elim i.status [
  | ItemStatus.pending ↦ record i { run = cancel_run i.run; status = ItemStatus.cancelled }
  | ItemStatus.running ↦ record i { run = cancel_run i.run; status = ItemStatus.cancelled }
  | _ ↦ record i { run = cancel_run i.run }
]

-- The whole transaction: it is rolled back on a batch that closed meanwhile.
unfoldable pub cancel_batch : State → State
unfolding recount notify
cancel_batch s =
    if is_closed s.batch.status || is_cancelled s.batch.status
    then s
    else notify (
        recount (record s {
          items = map cancel_item s.items;
          batch = record s.batch { status = BatchStatus.cancelled };
        }))

abbrev pub fail_item : String → ℕ → Item → Item
fail_item error now i = record i {
  run = record i.run { status = Status.failed; error = some error; completed_at = some now };
  status = ItemStatus.failed;
  error = some error;
  completed_at = some now;
}

-- `error` is the refusal of the engine; no child has started.
unfoldable pub fail_unstarted_batch : String → ℕ → State → State
unfolding recount notify
fail_unstarted_batch error now s =
    let failing = recount (record s { items = map (fail_item error now) s.items }) in
    notify (
      deliver (record failing {
        batch = record failing.batch {
          status = BatchStatus.partial_failure;
          completed_at = some now;
        };
      }))

-- The route's update after the start.
unfoldable pub start : State → State
start s = elim s.batch.status [
  | BatchStatus.queued ↦ record s { batch = record s.batch { status = BatchStatus.running } }
  | _ ↦ s
]

-- The transactions on a started batch, in the order in which they commit.
pub data Transaction : Type 0 where
  start_batch : Transaction
  mirror : ℕ → Write → Transaction
  finish : Bool → ℕ → Transaction
  cancel : Transaction

unfoldable pub commit : State → Transaction → State
commit s start_batch = start s
commit s (mirror id w) = mirror_run id w s
commit s (finish asked now) = (finish_batch asked now s).0
commit s cancel = cancel_batch s

unfoldable pub commits : State → List Transaction → State
commits s [] = s
commits s (t ∷ ts) = commits (commit s t) ts
