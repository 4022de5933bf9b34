-- ===== src/Batch/Workflow.antt =====
-- BatchWorkflow (api/app/workflows/batch.py): the fan-out, one child JobWorkflow for each run, and
-- the finish. A child is its run's id; what the children write are the mirrors of the batch, which,
-- like the API's cancel and its update after the start, may commit between any two steps, whether
-- the child is still in flight or not. A workflow is asked to cancel once: a second cancel while it
-- waits for the cancelled children is not in the model.
pub mod InFlight
pub mod Ends
pub mod Progress
mod Examples
use scrapeflow.Base.{
  ℕ, suc, Bool, true, false, not, ◌&&◌, Option, none, some, List, [], ◌∷◌, ◌++◌, filter, ltb,
  length, ◌==◌, if◌then◌else◌,
}
use scrapeflow.Batch.{finish_batch, is_cancelled, Transaction, start_batch, mirror, cancel, commit}
use scrapeflow.Batch.Items.{BatchStatus, State, Write}

pub data Result : Type 0 where
  returned : BatchStatus → Result
  -- CancelledError
  cancelled : Result
  -- the ActivityError of finish_batch
  failed : Result

pub data Phase : Type 0 where
  -- the loop of _fan_out, its gather, and the gather after a cancel
  starting gathering draining : Phase
  -- finish_batch with `cancelled`, and its answer
  finishing : Bool → Option BatchStatus → Phase
  ended : Result → Phase

-- The app DB, and the workflow's variables. `in_flight` are the children that _in_flight counts.
pub record Flow : Type 0 where
  pub state : State
  -- of input.runs, those with a child (in the order of the start) and the rest
  pub children : List ℕ
  pub waiting : List ℕ
  pub in_flight : List ℕ
  pub phase : Phase
  pub cancel_requested : Bool

abbrev pub begin : List ℕ → State → Flow
begin runs s = record {
  state = s;
  children = [];
  waiting = runs;
  in_flight = [];
  phase = starting;
  cancel_requested = false;
}

-- A round of the loop of _fan_out, which waits while max_in_flight children are in flight.
unfoldable pub next_child : ℕ → List ℕ → Flow → Flow
next_child max_in_flight [] f = record f { phase = gathering }
next_child max_in_flight (run ∷ waiting) f =
    if ltb (length f.in_flight) max_in_flight
    then record f {
      children = f.children ++ run ∷ [];
      waiting = waiting;
      in_flight = run ∷ f.in_flight;
    }
    else f

abbrev pub finish_with : Bool → Flow → Flow
finish_with asked f = record f { phase = finishing asked none; cancel_requested = asked }

-- A gather, which waits for every child.
abbrev pub gathered : Bool → List ℕ → Flow → Flow
gathered asked [] f = finish_with asked f
gathered asked (child ∷ children) f = f

-- run, from the answer of _finish on
unfoldable pub answer : BatchStatus → Flow → Result
answer status f = if is_cancelled status && f.cancel_requested then cancelled else returned status

unfoldable pub advance_from : ℕ → Phase → Flow → Flow
unfolding next_child answer
advance_from max_in_flight starting f = next_child max_in_flight f.waiting f
advance_from max_in_flight gathering f = gathered f.cancel_requested f.in_flight f
advance_from max_in_flight draining f = gathered true f.in_flight f
advance_from max_in_flight (finishing asked none) f = f
advance_from max_in_flight (finishing asked (some status)) f = record f {
  phase = ended (answer status f);
}
advance_from max_in_flight (ended r) f = f

-- The workflow's cancel. _through_cancel notes it, unless the activity has just ended.
unfoldable pub cancel_from : Phase → Flow → Flow
cancel_from starting f = record f { phase = draining }
cancel_from gathering f = record f { phase = draining }
cancel_from draining f = f
cancel_from (finishing asked none) f = record f { cancel_requested = true }
cancel_from (finishing asked (some status)) f = record f { phase = ended cancelled }
cancel_from (ended r) f = f

-- finish_batch commits, and its answer may be lost: then it is called again.
abbrev pub keep_lost : Bool → Bool → BatchStatus → Phase
keep_lost true asked status = finishing asked none
keep_lost false asked status = finishing asked (some status)

unfoldable pub finish_from : ℕ → Bool → Phase → Flow → Flow
unfolding finish_batch
finish_from now lost (finishing asked none) f =
    let (s, status) = finish_batch asked now f.state in
    record f { state = s; phase = keep_lost lost asked status }
finish_from now lost other f = f

-- Every attempt of finish_batch failed, or its window closed.
unfoldable pub fail_from : Phase → Flow → Flow
fail_from (finishing asked none) f = record f { phase = ended failed }
fail_from other f = f

pub data Step : Type 0 where
  advance : Step
  child_ends : ℕ → Step
  cancel_workflow : Step
  finish_commits : ℕ → Bool → Step
  finish_fails : Step
  -- what others commit
  mirror_commits : ℕ → Write → Step
  start_commits cancel_commits : Step

unfoldable pub step : ℕ → Flow → Step → Flow
unfolding advance_from cancel_from finish_from fail_from commit
step max_in_flight f advance = advance_from max_in_flight f.phase f
step max_in_flight f (child_ends run) = record f {
  in_flight = filter (λ r. not (r == run)) f.in_flight;
}
step max_in_flight f cancel_workflow = cancel_from f.phase f
step max_in_flight f (finish_commits now lost) = finish_from now lost f.phase f
step max_in_flight f finish_fails = fail_from f.phase f
step max_in_flight f (mirror_commits run w) = record f { state = commit f.state (mirror run w) }
step max_in_flight f start_commits = record f { state = commit f.state start_batch }
step max_in_flight f cancel_commits = record f { state = commit f.state cancel }

unfoldable pub steps : ℕ → Flow → List Step → Flow
unfolding step
steps max_in_flight f [] = f
steps max_in_flight f (x ∷ xs) = steps max_in_flight (step max_in_flight f x) xs
