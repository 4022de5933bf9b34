-- ===== src/Batch/Workflow/Progress.antt =====
-- A batch's workflow can always go on to its end.
use scrapeflow.Base.{
  ℕ, zero, suc, ◌≤◌, ◌≡◌, arith, ==_self, Bool, true, false, not, none, some, List, [], ◌∷◌, ◌++◌,
  filter, ltb, length, length-filter, count-le-length, ◌==◌,
}
use scrapeflow.Batch.{finish_batch}
use scrapeflow.Batch.Items.{BatchStatus}
use scrapeflow.Batch.Workflow.{
  Flow, Phase, starting, gathering, draining, finishing, ended, next_child, advance_from,
  finish_from, Step, advance, child_ends, finish_commits, step, steps,
}

abbrev pub IsEnded : Phase → Type 0
IsEnded (ended r) = Unit
IsEnded _ = ⊥

-- Only of these is the schedule made: its own progress, the ends of children, and finish_batch.
abbrev pub IsProgress : Step → Type 0
IsProgress advance = Unit
IsProgress (child_ends run) = Unit
IsProgress (finish_commits now false) = Unit
IsProgress _ = ⊥

abbrev pub AllProgress : List Step → Type 0
AllProgress [] = Unit
AllProgress (x ∷ xs) = IsProgress x × AllProgress xs

abbrev pub CanEnd : ℕ → Flow → Type 0
CanEnd n f = (xs : List Step) × AllProgress xs × IsEnded (steps n f xs).phase

room : (n : ℕ) → 1 ≤ n → ltb 0 n ≡ true
room n h = ground arith

module _ (n : ℕ) where
  then_ends : (x : Step) (f : Flow) → IsProgress x → CanEnd n (step n f x) → CanEnd n f
  unfolding steps
  then_ends x f p (xs, ps, e) = (x ∷ xs, (p, ps), e)

  -- The children in flight end.
  empty_ends :
      (k : ℕ) (children : List ℕ) (f : Flow)
      → length children ≤ k
      → CanEnd n (record f { in_flight = [] })
      → CanEnd n (record f { in_flight = children })
  unfolding step
  empty_ends k [] f h c = c
  empty_ends zero (r ∷ children) f h c = absurd (omega arith)
  empty_ends (suc k) (r ∷ children) f h c =
      let other = λ (x : ℕ). not (x == r) in
      then_ends (child_ends r) (record f { in_flight = r ∷ children }) tt
        (rw (==_self r) (
          empty_ends k (filter other children) f
            (omega (arith, length-filter other children, count-le-length other children)) c))

  answered_ends :
      (asked : Bool) (f : Flow) (status : BatchStatus)
      → CanEnd n (record f { phase = finishing asked (some status) })
  unfolding step advance_from steps
  answered_ends asked f status = (advance ∷ [], (tt, tt), tt)

  finishing_ends : (asked : Bool) (f : Flow) → CanEnd n (record f { phase = finishing asked none })
  unfolding step finish_from
  finishing_ends asked f =
      then_ends (finish_commits 0 false) (record f { phase = finishing asked none }) tt
        (answered_ends asked (record f { state = (finish_batch asked 0 f.state).0 })
          (finish_batch asked 0 f.state).1)

  gathering_ends : (f : Flow) → CanEnd n (record f { phase = gathering })
  unfolding step advance_from
  gathering_ends f =
      empty_ends (length f.in_flight) f.in_flight (record f { phase = gathering }) (omega arith)
        (then_ends advance (record f { phase = gathering; in_flight = [] }) tt
          (finishing_ends f.cancel_requested (record f { in_flight = [] })))

  draining_ends : (f : Flow) → CanEnd n (record f { phase = draining })
  unfolding step advance_from
  draining_ends f =
      empty_ends (length f.in_flight) f.in_flight (record f { phase = draining }) (omega arith)
        (then_ends advance (record f { phase = draining; in_flight = [] }) tt
          (finishing_ends true (record f { in_flight = []; cancel_requested = true })))

  starting_ends :
      (waiting : List ℕ) (f : Flow)
      → 1 ≤ n
      → CanEnd n (record f { phase = starting; waiting = waiting })
  unfolding step advance_from next_child
  starting_ends [] f h =
      then_ends advance (record f { phase = starting; waiting = [] }) tt
        (gathering_ends (record f { waiting = [] }))
  starting_ends (run ∷ later) f h =
      empty_ends (length f.in_flight) f.in_flight
        (record f { phase = starting; waiting = run ∷ later }) (omega arith)
        (then_ends advance (record f { phase = starting; waiting = run ∷ later; in_flight = [] }) tt
          (rw (room n h) (
            starting_ends later
              (record f { children = f.children ++ run ∷ []; in_flight = run ∷ [] }) h)))

  phase_ends : (p : Phase) (f : Flow) → 1 ≤ n → CanEnd n (record f { phase = p })
  unfolding steps
  phase_ends starting f h = starting_ends f.waiting f h
  phase_ends gathering f h = gathering_ends f
  phase_ends draining f h = draining_ends f
  phase_ends (finishing asked none) f h = finishing_ends asked f
  phase_ends (finishing asked (some status)) f h = answered_ends asked f status
  phase_ends (ended r) f h = ([], tt, tt)

-- A batch's workflow that may have a child in flight never gets stuck: whatever it has come to, it
-- can go on to its end by its own progress, the ends of its children and one answer of finish_batch.
pub flow-CanEnd : (n : ℕ) (f : Flow) → 1 ≤ n → CanEnd n f
flow-CanEnd n f h = phase_ends n f.phase f h
