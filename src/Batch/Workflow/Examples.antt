-- ===== src/Batch/Workflow/Examples.antt =====
-- A batch of two with one child at a time: the first child completes, and the second ends without an
-- outcome or is never started.
use scrapeflow.Base.{ℕ, ◌≡◌, refl, true, false, none, some, List, [], ◌∷◌, arith}
use scrapeflow.JobRun.{Outcome, FinishJobRunInput, ended}
use scrapeflow.JobRun.Running.{Status}
use scrapeflow.Batch.{finish_batch, cancel_batch}
use scrapeflow.Batch.Items.{Item, ItemStatus, BatchStatus, State, started, finished, mirror_run}
use scrapeflow.Batch.Counted.{IsCounted}
use scrapeflow.Batch.Workflow.{
  Phase, Result, returned, begin, Step, advance, child_ends, cancel_workflow, finish_commits,
  mirror_commits, start_commits, cancel_commits, steps,
}
use scrapeflow.Batch.Workflow.InFlight.{IsBounded, steps-IsInOrder}
use scrapeflow.Batch.Workflow.Ends.{PhaseFits, steps-IsFinished}
use scrapeflow.Batch.Workflow.Progress.{CanEnd, flow-CanEnd}

abbrev fresh : ℕ → Item
fresh id = record {
  run = record {
    id = id;
    status = Status.pending;
    started_at = none;
    completed_at = none;
    result_path = none;
    warnings = none;
    error = none;
    content_hash = none;
  };
  status = ItemStatus.pending;
  result_path = none;
  error = none;
  completed_at = none;
}

abbrev created : State
created = record {
  batch = record {
    status = BatchStatus.queued;
    has_webhook = false;
    total = 2;
    completed = 0;
    failed = 0;
    completed_at = none;
  };
  items = fresh 1 ∷ fresh 2 ∷ [];
  notices = [];
  deliveries = [];
}

created-IsCounted : IsCounted created
created-IsCounted = record {
  completed = refl;
  failed = refl;
  total = refl;
  items = (refl, (refl, tt));
  deliveries = omega arith;
}

abbrev runs : List ℕ
runs = 1 ∷ 2 ∷ []

abbrev completes : FinishJobRunInput
completes = record {
  status = Outcome.completed;
  result_path = some 9;
  error = none;
  warnings = none;
  discard = [];
}

-- The third step waits: the first child is in flight.
abbrev one_child : List Step
one_child =
    advance
    ∷ start_commits
    ∷ advance
    ∷ mirror_commits 1 (started 5)
    ∷ mirror_commits 1 (finished completes 8)
    ∷ []

one_in_flight : (steps 1 (begin runs created) one_child).in_flight ≡ 1 ∷ []
unfolding steps
one_in_flight = refl

-- The first answer of finish_batch is lost.
abbrev both_children : List Step
both_children =
    advance
    ∷ mirror_commits 1 (started 5)
    ∷ mirror_commits 1 (finished completes 8)
    ∷ child_ends 1
    ∷ advance
    ∷ advance
    ∷ child_ends 2
    ∷ advance
    ∷ finish_commits 20 true
    ∷ finish_commits 21 false
    ∷ advance
    ∷ []

returns_partial_failure :
    (steps 1 (begin runs created) both_children).phase
    ≡ Phase.ended (returned BatchStatus.partial_failure)
unfolding steps finish_batch mirror_run ended
returns_partial_failure = refl

abbrev cancelled_early : List Step
cancelled_early =
    advance
    ∷ cancel_workflow
    ∷ cancel_commits
    ∷ advance
    ∷ child_ends 1
    ∷ advance
    ∷ finish_commits 20 false
    ∷ advance
    ∷ []

ends_cancelled : (steps 1 (begin runs created) cancelled_early).phase ≡ Phase.ended Result.cancelled
unfolding steps finish_batch cancel_batch
ends_cancelled = refl

never_started : (steps 1 (begin runs created) cancelled_early).waiting ≡ 2 ∷ []
unfolding steps
never_started = refl

steps-IsInOrder_example : IsBounded runs 1 (steps 1 (begin runs created) both_children)
steps-IsInOrder_example = steps-IsInOrder runs 1 created both_children

steps-IsFinished_example :
    PhaseFits
      (steps 1 (begin runs created) both_children)
      (Phase.ended (returned BatchStatus.partial_failure))
steps-IsFinished_example =
    steps-IsFinished 1 runs created both_children (returned BatchStatus.partial_failure)
      created-IsCounted refl returns_partial_failure

flow-CanEnd_example : CanEnd 1 (steps 1 (begin runs created) one_child)
flow-CanEnd_example = flow-CanEnd 1 (steps 1 (begin runs created) one_child) (omega arith)
