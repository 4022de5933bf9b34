-- ===== src/Batch/Workflow/InFlight.antt =====
-- The children of a batch.
use mathlib.Core.List.{append_assoc}
use scrapeflow.Base.{
  ℕ, ◌≤◌, ◌<◌, ◌≡◌, refl, arith, ◌∙◌, Bool, true, not, none, some, List, [], ◌∷◌, ◌++◌, ltb, length,
  length-filter, count-le-length, ◌==◌, Bool-cases, inl, inr, ltb→lt,
}
use scrapeflow.Batch.Items.{State}
use scrapeflow.Batch.Workflow.{
  Flow, Phase, starting, gathering, draining, finishing, ended, begin, next_child, gathered,
  advance_from, cancel_from, finish_from, fail_from, Step, advance, child_ends, cancel_workflow,
  finish_commits, finish_fails, mirror_commits, start_commits, cancel_commits, step, steps,
}

module _ (runs : List ℕ) (max_in_flight : ℕ) where
  -- At most max_in_flight children, and those that were started are the first of the runs, in order.
  pub record IsBounded (f : Flow) : Type 0 where
    pub in_flight : length f.in_flight ≤ max_in_flight
    pub in_order : f.children ++ f.waiting ≡ runs

  -- The fields it speaks of are the same, or the children in flight are fewer.
  kept :
      (f g : Flow)
      → length g.in_flight ≤ length f.in_flight
      → g.children ≡ f.children
      → g.waiting ≡ f.waiting
      → IsBounded f
      → IsBounded g
  kept f g n c w b = record {
    in_flight = omega (arith, n, b.in_flight);
    in_order = rw (c, w) b.in_order;
  }

  same :
      (f g : Flow)
      → g.in_flight ≡ f.in_flight
      → g.children ≡ f.children
      → g.waiting ≡ f.waiting
      → IsBounded f
      → IsBounded g
  same f g n = kept f g (rw n (omega arith))

  started-IsBounded :
      (run : ℕ) (later : List ℕ) (f : Flow)
      → f.children ++ (run ∷ later) ≡ runs
      → length f.in_flight < max_in_flight
      → IsBounded (record f {
        children = f.children ++ run ∷ [];
        waiting = later;
        in_flight = run ∷ f.in_flight;
      })
  started-IsBounded run later f e h = record {
    in_flight = omega (arith, h);
    in_order = append_assoc f.children (run ∷ []) later ∙ e;
  }

  next_child-IsBounded :
      (waiting : List ℕ) (f : Flow)
      → f.waiting ≡ waiting
      → IsBounded f
      → IsBounded (next_child max_in_flight waiting f)
  unfolding next_child
  next_child-IsBounded [] f e b = same f (next_child max_in_flight [] f) refl refl refl b
  next_child-IsBounded (run ∷ later) f e b =
      elim (Bool-cases (ltb (length f.in_flight) max_in_flight)) [
        | inl h ↦ rw h (
            started-IsBounded run later f (rw (← e) b.in_order)
              (ltb→lt (length f.in_flight) max_in_flight h))
        | inr h ↦ rw h b
      ]

  gathered-IsBounded :
      (asked : Bool) (children : List ℕ) (f : Flow)
      → IsBounded f
      → IsBounded (gathered asked children f)
  gathered-IsBounded asked [] f b = same f (gathered asked [] f) refl refl refl b
  gathered-IsBounded asked (c ∷ cs) f b = b

  advance-IsBounded :
      (p : Phase) (f : Flow) → IsBounded f → IsBounded (advance_from max_in_flight p f)
  unfolding advance_from
  advance-IsBounded starting f b = next_child-IsBounded f.waiting f refl b
  advance-IsBounded gathering f b = gathered-IsBounded f.cancel_requested f.in_flight f b
  advance-IsBounded draining f b = gathered-IsBounded true f.in_flight f b
  advance-IsBounded (finishing asked none) f b = b
  advance-IsBounded (finishing asked (some st)) f b =
      same f (advance_from max_in_flight (finishing asked (some st)) f) refl refl refl b
  advance-IsBounded (ended r) f b = b

  cancel-IsBounded : (p : Phase) (f : Flow) → IsBounded f → IsBounded (cancel_from p f)
  unfolding cancel_from
  cancel-IsBounded starting f b = same f (cancel_from starting f) refl refl refl b
  cancel-IsBounded gathering f b = same f (cancel_from gathering f) refl refl refl b
  cancel-IsBounded draining f b = b
  cancel-IsBounded (finishing asked none) f b =
      same f (cancel_from (finishing asked none) f) refl refl refl b
  cancel-IsBounded (finishing asked (some st)) f b =
      same f (cancel_from (finishing asked (some st)) f) refl refl refl b
  cancel-IsBounded (ended r) f b = b

  finish-IsBounded :
      (now : ℕ) (lost : Bool) (p : Phase) (f : Flow)
      → IsBounded f
      → IsBounded (finish_from now lost p f)
  unfolding finish_from
  finish-IsBounded now lost (finishing asked none) f b =
      same f (finish_from now lost (finishing asked none) f) refl refl refl b
  finish-IsBounded now lost (finishing asked (some st)) f b = b
  finish-IsBounded now lost starting f b = b
  finish-IsBounded now lost gathering f b = b
  finish-IsBounded now lost draining f b = b
  finish-IsBounded now lost (ended r) f b = b

  fail-IsBounded : (p : Phase) (f : Flow) → IsBounded f → IsBounded (fail_from p f)
  unfolding fail_from
  fail-IsBounded (finishing asked none) f b =
      same f (fail_from (finishing asked none) f) refl refl refl b
  fail-IsBounded (finishing asked (some st)) f b = b
  fail-IsBounded starting f b = b
  fail-IsBounded gathering f b = b
  fail-IsBounded draining f b = b
  fail-IsBounded (ended r) f b = b

  step-IsBounded : (f : Flow) (x : Step) → IsBounded f → IsBounded (step max_in_flight f x)
  unfolding step
  step-IsBounded f advance b = advance-IsBounded f.phase f b
  step-IsBounded f (child_ends run) b =
      let other = λ (r : ℕ). not (r == run) in
      kept f (step max_in_flight f (child_ends run))
        (omega (arith, length-filter other f.in_flight, count-le-length other f.in_flight)) refl
        refl b
  step-IsBounded f cancel_workflow b = cancel-IsBounded f.phase f b
  step-IsBounded f (finish_commits now lost) b = finish-IsBounded now lost f.phase f b
  step-IsBounded f finish_fails b = fail-IsBounded f.phase f b
  step-IsBounded f (mirror_commits run w) b =
      same f (step max_in_flight f (mirror_commits run w)) refl refl refl b
  step-IsBounded f start_commits b = same f (step max_in_flight f start_commits) refl refl refl b
  step-IsBounded f cancel_commits b = same f (step max_in_flight f cancel_commits) refl refl refl b

  steps-IsBounded : (f : Flow) (xs : List Step) → IsBounded f → IsBounded (steps max_in_flight f xs)
  unfolding steps
  steps-IsBounded f [] b = b
  steps-IsBounded f (x ∷ xs) b = steps-IsBounded (step max_in_flight f x) xs (step-IsBounded f x b)

-- Whatever comes in between, a batch's workflow has at most max_in_flight children in flight, and
-- the children it has started are the first of its runs, each once, in their order.
pub steps-IsInOrder :
    (runs : List ℕ) (max_in_flight : ℕ) (s : State) (xs : List Step)
    → IsBounded runs max_in_flight (steps max_in_flight (begin runs s) xs)
steps-IsInOrder runs max_in_flight s xs =
    steps-IsBounded runs max_in_flight (begin runs s) xs
      (record { in_flight = omega arith; in_order = refl })
