-- ===== src/Batch/Items.antt =====
-- A batch's rows and the mirrors of its runs (api/app/models/batch.py, api/app/core/batch_progress.py).
use scrapeflow.Base.{
  ℕ, Bool, true, false, ◌&&◌, Option, none, some, List, ◌∷◌, String, map, ◌==◌, if◌then◌else◌,
  count,
}
use scrapeflow.JobRun.{FinishJobRunInput, ended}
use scrapeflow.JobRun.Running.{JobRun, Status, is_active}

pub data ItemStatus : Type 0 where
  pending running completed failed cancelled : ItemStatus

pub record Item : Type 0 where
  pub run : JobRun
  pub status : ItemStatus
  pub result_path : Option ℕ
  pub error : Option String
  pub completed_at : Option ℕ

pub data BatchStatus : Type 0 where
  queued running completed partial_failure cancelled : BatchStatus

pub record Batch : Type 0 where
  pub status : BatchStatus
  pub has_webhook : Bool
  pub total : ℕ
  pub completed : ℕ
  pub failed : ℕ
  pub completed_at : Option ℕ

-- The payload of notify, less the ids and the item.
pub record Notice : Type 0 where
  pub status : BatchStatus
  pub completed : ℕ
  pub failed : ℕ
  pub total : ℕ

pub record State : Type 0 where
  pub batch : Batch
  -- in the order of creation
  pub items : List Item
  pub notices : List Notice
  -- the run of each webhook row that was written
  pub deliveries : List ℕ

abbrev pub is_completed : Item → Bool
is_completed i = elim i.status [ ItemStatus.completed ↦ true | _ ↦ false ]

abbrev pub is_failed : Item → Bool
is_failed i = elim i.status [ ItemStatus.failed ↦ true | _ ↦ false ]

unfoldable pub recount : State → State
recount s = record s {
  batch = record s.batch {
    completed = count is_completed s.items;
    failed = count is_failed s.items;
  };
}

unfoldable pub notify : State → State
notify s = record s {
  notices =
      record {
        status = s.batch.status;
        completed = s.batch.completed;
        failed = s.batch.failed;
        total = s.batch.total;
      }
      ∷ s.notices;
}

-- An item has no processing state.
abbrev pub item_status : Status → ItemStatus
item_status Status.pending = ItemStatus.pending
item_status Status.running = ItemStatus.running
item_status Status.processing = ItemStatus.running
item_status Status.completed = ItemStatus.completed
item_status Status.failed = ItemStatus.failed
item_status Status.cancelled = ItemStatus.cancelled

-- The item's part of _mirror_batch_item.
unfoldable pub mirror_item : JobRun → Item → Item
mirror_item run i =
    let mirrored : Item = record i { run = run; status = item_status run.status } in
    if is_active run.status then mirrored else record mirrored {
      result_path = run.result_path;
      error = run.error;
      completed_at = run.completed_at;
    }

-- What the activities of a run write to its row, `none` where they leave it (and notify nothing).
pub data Write : Type 0 where
  started : ℕ → Write
  processing : Write
  over_limit : ℕ → Write
  finished : FinishJobRunInput → ℕ → Write

unfoldable pub write : Write → JobRun → Option JobRun
unfolding ended
write (started now) run = elim run.status [
  | Status.pending ↦ some (record run { status = Status.running; started_at = some now })
  | _ ↦ none
]
write processing run = elim run.status [
  | Status.running ↦ some (record run { status = Status.processing })
  | _ ↦ none
]
write (over_limit now) run =
    if is_active run.status
    then some (record run {
      status = Status.failed;
      error = some "storage_quota_exceeded";
      completed_at = some now;
    })
    else none
write (finished i now) run = if is_active run.status then some (ended i.status i now run) else none

abbrev pub mirrored : Write → Item → Item
mirrored w i = elim (write w i.run) [ none ↦ i | some run ↦ mirror_item run i ]

abbrev pub is_written : Write → Item → Bool
is_written w i = elim (write w i.run) [ none ↦ false | some run ↦ true ]

-- A mirror of the run `id`, with _mirror_batch_item.
unfoldable pub mirror_run : ℕ → Write → State → State
unfolding recount notify mirror_item write
mirror_run id w s =
    let items = map (λ i. if i.run.id == id then mirrored w i else i) s.items in
    if count (λ i. (i.run.id == id) && is_written w i) s.items == 0
    then s
    else notify (recount (record s { items = items }))
