-- ===== src/Batch/Examples.antt =====
-- A batch of two: the first item completes, the second's run ends without an outcome.
use scrapeflow.Base.{ℕ, ◌≡◌, refl, true, false, none, some, List, [], ◌∷◌, arith}
use scrapeflow.JobRun.{Outcome, FinishJobRunInput, ended}
use scrapeflow.JobRun.Running.{Status}
use scrapeflow.Batch.{
  Transaction, start_batch, mirror, cancel, finish_batch, commit, start, commits,
  fail_unstarted_batch,
}
use scrapeflow.Batch.Items.{Item, ItemStatus, BatchStatus, State, started, finished, mirror_run}
use scrapeflow.Batch.Counted.{IsCounted, commits-IsCounted}
use scrapeflow.Batch.Closed.{IsClosed, Same, verdict, finish_batch-final}

abbrev fresh : ℕ → Item
fresh id = record {
  run = record {
    id = id;
    status = Status.pending;
    started_at = none;
    completed_at = none;
    result_path = none;
    warnings = none;
    error = none;
    content_hash = none;
  };
  status = ItemStatus.pending;
  result_path = none;
  error = none;
  completed_at = none;
}

abbrev created : State
created = record {
  batch = record {
    status = BatchStatus.queued;
    has_webhook = true;
    total = 2;
    completed = 0;
    failed = 0;
    completed_at = none;
  };
  items = fresh 1 ∷ fresh 2 ∷ [];
  notices = [];
  deliveries = [];
}

abbrev completes : FinishJobRunInput
completes = record {
  status = Outcome.completed;
  result_path = some 9;
  error = none;
  warnings = none;
  discard = [];
}

abbrev history : List Transaction
history = start_batch ∷ mirror 1 (started 5) ∷ mirror 1 (finished completes 8) ∷ []

fails_partly : (finish_batch false 20 (commits created history)).1 ≡ BatchStatus.partial_failure
unfolding finish_batch commits ended commit mirror_run start
fails_partly = refl

delivers_once : (finish_batch false 20 (commits created history)).0.deliveries ≡ 1 ∷ []
unfolding finish_batch commits ended commit mirror_run start
delivers_once = refl

unstarted : (fail_unstarted_batch "no engine" 3 created).batch.failed ≡ 2
unfolding fail_unstarted_batch
unstarted = refl

created-IsCounted : IsCounted created
created-IsCounted = record {
  completed = refl;
  failed = refl;
  total = refl;
  items = (refl, (refl, tt));
  deliveries = omega arith;
}

commits-IsCounted_example : IsCounted (commits created history)
commits-IsCounted_example = commits-IsCounted created history created-IsCounted

finish_batch-final_example :
    let t = (finish_batch false 20 created).0 in
    IsClosed t
    × (t.batch.status ≡ verdict false t.items)
    × Same t (commits t (cancel ∷ mirror 2 (started 30) ∷ []))
finish_batch-final_example =
    finish_batch-final false 20 created (cancel ∷ mirror 2 (started 30) ∷ []) created-IsCounted refl
