-- ===== src/Batch/Workflow/Ends.antt =====
-- How a batch's workflow ends.
use scrapeflow.Base.{
  ℕ, ◌≡◌, refl, sym, arith, Bool, true, false, not, ◌&&◌, none, some, List, [], ◌∷◌, filter, ltb,
  length, ◌==◌, Bool-cases, inl, inr, ◌∙◌, if_ind,
}
use scrapeflow.Batch.{
  finish_batch, is_closed, is_cancelled, Transaction, start_batch, mirror, cancel, finish, commit,
  commits, start, cancel_batch,
}
use scrapeflow.Batch.Items.{State, BatchStatus, mirror_run, recount, notify}
use scrapeflow.Batch.Counted.{IsCounted, commits-IsCounted}
use scrapeflow.Batch.Closed.{IsClosed, commit-Same, commit-IsClosed, finish_batch-IsClosed}
use scrapeflow.Batch.Workflow.{
  Flow, Phase, starting, gathering, draining, finishing, ended, Result, returned, failed, begin,
  next_child, gathered, advance_from, cancel_from, finish_from, fail_from, answer, Step, advance,
  child_ends, cancel_workflow, finish_commits, finish_fails, mirror_commits, start_commits,
  cancel_commits, step, steps,
}

-- The counters count, and a batch that says it closed is closed.
pub record IsSound (s : State) : Type 0 where
  pub counted : IsCounted s
  pub settled : is_closed s.batch.status ≡ true → IsClosed s

commit-IsCounted : (s : State) (t : Transaction) → IsCounted s → IsCounted (commit s t)
unfolding commits
commit-IsCounted s t h = commits-IsCounted s (t ∷ []) h

-- Only finish_batch closes a batch.
abbrev IsOther : Transaction → Type 0
IsOther (finish asked now) = ⊥
IsOther t = Unit

commit_open :
    (s : State) (t : Transaction)
    → IsOther t
    → is_closed s.batch.status ≡ false
    → is_closed (commit s t).batch.status ≡ false
unfolding commit start mirror_run cancel_batch recount notify
commit_open s start_batch o h = ground (arith, h)
commit_open s (mirror id w) o h = ground (arith, h)
commit_open s (finish asked now) o h = elim o [ ]
commit_open s cancel o h = ground (arith, h)

other-IsSound : (s : State) (t : Transaction) → IsOther t → IsSound s → IsSound (commit s t)
other-IsSound s t o h = record {
  counted = commit-IsCounted s t h.counted;
  settled = λ c. elim (Bool-cases (is_closed s.batch.status)) [
    | inl e ↦ commit-IsClosed s t (h.settled e)
    | inr e ↦ absurd (let k = commit_open s t o e in cc)
  ];
}

finish_batch-commit :
    (asked : Bool) (now : ℕ) (s : State)
    → commit s (finish asked now) ≡ (finish_batch asked now s).0
unfolding commit
finish_batch-commit asked now s = refl

-- finish_batch answers with the status of a closed batch.
finished-IsClosed :
    (asked : Bool) (now : ℕ) (s : State) → IsSound s → IsClosed (finish_batch asked now s).0
finished-IsClosed asked now s h = elim (Bool-cases (is_closed s.batch.status)) [
  | inl e ↦
      rw (← finish_batch-commit asked now s) (commit-IsClosed s (finish asked now) (h.settled e))
  | inr e ↦ (finish_batch-IsClosed asked now s h.counted e).0
]

answered :
    (asked : Bool) (now : ℕ) (s : State)
    → (finish_batch asked now s).1 ≡ (finish_batch asked now s).0.batch.status
unfolding finish_batch
answered asked now s = ground arith

finished-IsSound :
    (asked : Bool) (now : ℕ) (s : State) → IsSound s → IsSound (finish_batch asked now s).0
finished-IsSound asked now s h = record {
  counted =
      rw (← finish_batch-commit asked now s) (commit-IsCounted s (finish asked now) h.counted);
  settled = λ c. finished-IsClosed asked now s h;
}

-- Without a cancel, every run has had a child.
abbrev pub AllStarted : Flow → Type 0
AllStarted f = f.cancel_requested ≡ false → f.waiting ≡ []

abbrev pub Finished : Flow → BatchStatus → Type 0
Finished f status =
    (f.in_flight ≡ []) × AllStarted f × IsClosed f.state × (status ≡ f.state.batch.status)

abbrev pub PhaseFits : Flow → Phase → Type 0
PhaseFits f starting = Unit
PhaseFits f gathering = f.waiting ≡ []
PhaseFits f draining = Unit
PhaseFits f (finishing asked none) = (f.in_flight ≡ []) × AllStarted f
PhaseFits f (finishing asked (some status)) = Finished f status
PhaseFits f (ended (returned status)) = Finished f status
PhaseFits f (ended Result.cancelled) = (f.in_flight ≡ []) × IsClosed f.state
PhaseFits f (ended failed) = f.in_flight ≡ []

pub record Fits (f : Flow) : Type 0 where
  pub sound : IsSound f.state
  pub phase : PhaseFits f f.phase

module _ (max_in_flight : ℕ) where
  next_child-Fits :
      (waiting : List ℕ) (f : Flow)
      → IsSound f.state
      → f.waiting ≡ waiting
      → Fits (next_child max_in_flight waiting (record f { phase = starting }))
  unfolding next_child
  next_child-Fits [] f h e = record { sound = h; phase = e }
  next_child-Fits (run ∷ later) f h e =
      if_ind Fits (ltb (length f.in_flight) max_in_flight) _ _ (record { sound = h; phase = tt })
        (record { sound = h; phase = tt })

  gathering-Fits :
      (children : List ℕ) (f : Flow)
      → IsSound f.state
      → f.in_flight ≡ children
      → f.waiting ≡ []
      → Fits (gathered f.cancel_requested children (record f { phase = gathering }))
  gathering-Fits [] f h e w = record { sound = h; phase = (e, λ c. w) }
  gathering-Fits (c ∷ cs) f h e w = record { sound = h; phase = w }

  draining-Fits :
      (children : List ℕ) (f : Flow)
      → IsSound f.state
      → f.in_flight ≡ children
      → Fits (gathered true children (record f { phase = draining }))
  draining-Fits [] f h e = record { sound = h; phase = (e, λ c. cc) }
  draining-Fits (c ∷ cs) f h e = record { sound = h; phase = tt }

  advance-Fits :
      (p : Phase) (f : Flow)
      → IsSound f.state
      → PhaseFits f p
      → Fits (advance_from max_in_flight p (record f { phase = p }))
  unfolding advance_from answer
  advance-Fits starting f h k = next_child-Fits f.waiting f h refl
  advance-Fits gathering f h k = gathering-Fits f.in_flight f h refl k
  advance-Fits draining f h k = draining-Fits f.in_flight f h refl
  advance-Fits (finishing asked none) f h k = record { sound = h; phase = k }
  advance-Fits (finishing asked (some status)) f h k = record {
    sound = h;
    phase =
        if_ind (λ r. PhaseFits f (ended r)) (is_cancelled status && f.cancel_requested) _ _
          (k.0, k.2) k;
  }
  advance-Fits (ended r) f h k = record { sound = h; phase = k }

cancel-Fits :
    (p : Phase) (f : Flow)
    → IsSound f.state
    → PhaseFits f p
    → Fits (cancel_from p (record f { phase = p }))
unfolding cancel_from
cancel-Fits starting f h k = record { sound = h; phase = tt }
cancel-Fits gathering f h k = record { sound = h; phase = tt }
cancel-Fits draining f h k = record { sound = h; phase = tt }
cancel-Fits (finishing asked none) f h k = record { sound = h; phase = (k.0, λ c. cc) }
cancel-Fits (finishing asked (some status)) f h k = record { sound = h; phase = (k.0, k.2) }
cancel-Fits (ended r) f h k = record { sound = h; phase = k }

finish-Fits :
    (now : ℕ) (lost : Bool) (p : Phase) (f : Flow)
    → IsSound f.state
    → PhaseFits f p
    → Fits (finish_from now lost p (record f { phase = p }))
unfolding finish_from
finish-Fits now true (finishing asked none) f h k = record {
  sound = finished-IsSound asked now f.state h;
  phase = k;
}
finish-Fits now false (finishing asked none) f h k = record {
  sound = finished-IsSound asked now f.state h;
  phase = (k.0, k.1, finished-IsClosed asked now f.state h, answered asked now f.state);
}
finish-Fits now lost (finishing asked (some status)) f h k = record { sound = h; phase = k }
finish-Fits now lost starting f h k = record { sound = h; phase = k }
finish-Fits now lost gathering f h k = record { sound = h; phase = k }
finish-Fits now lost draining f h k = record { sound = h; phase = k }
finish-Fits now lost (ended r) f h k = record { sound = h; phase = k }

fail-Fits :
    (p : Phase) (f : Flow)
    → IsSound f.state
    → PhaseFits f p
    → Fits (fail_from p (record f { phase = p }))
unfolding fail_from
fail-Fits (finishing asked none) f h k = record { sound = h; phase = k.0 }
fail-Fits (finishing asked (some status)) f h k = record { sound = h; phase = k }
fail-Fits starting f h k = record { sound = h; phase = k }
fail-Fits gathering f h k = record { sound = h; phase = k }
fail-Fits draining f h k = record { sound = h; phase = k }
fail-Fits (ended r) f h k = record { sound = h; phase = k }

-- What others commit to a closed batch leaves it closed, with its status.
other-Fits :
    (t : Transaction) (p : Phase) (f : Flow)
    → IsOther t
    → IsSound f.state
    → PhaseFits f p
    → Fits (record f { phase = p; state = commit f.state t })
other-Fits t p f o h k = record { sound = other-IsSound f.state t o h; phase = go p k }
  where
    over : IsClosed f.state → IsClosed (commit f.state t)
    over c = commit-IsClosed f.state t c

    go :
        (p : Phase) → PhaseFits f p → PhaseFits (record f { phase = p; state = commit f.state t }) p
    go starting k = tt
    go gathering k = k
    go draining k = tt
    go (finishing asked none) k = k
    go (finishing asked (some status)) k =
        (k.0, k.1, over k.2, k.3 ∙ sym ((commit-Same f.state t k.2).1))
    go (ended (returned status)) k = (k.0, k.1, over k.2, k.3 ∙ sym ((commit-Same f.state t k.2).1))
    go (ended Result.cancelled) k = (k.0, over k.1)
    go (ended failed) k = k

fewer-Fits :
    (run : ℕ) (p : Phase) (f : Flow)
    → IsSound f.state
    → PhaseFits f p
    → Fits (record f { phase = p; in_flight = filter (λ r. not (r == run)) f.in_flight })
fewer-Fits run p f h k = record { sound = h; phase = go p k }
  where
    left : f.in_flight ≡ [] → filter (λ r. not (r == run)) f.in_flight ≡ []
    left e = rw e

    go :
        (p : Phase)
        → PhaseFits f p
        → PhaseFits (record f { phase = p; in_flight = filter (λ r. not (r == run)) f.in_flight }) p
    go starting k = tt
    go gathering k = k
    go draining k = tt
    go (finishing asked none) k = (left k.0, k.1)
    go (finishing asked (some status)) k = (left k.0, k.1, k.2, k.3)
    go (ended (returned status)) k = (left k.0, k.1, k.2, k.3)
    go (ended Result.cancelled) k = (left k.0, k.1)
    go (ended failed) k = left k

step-Fits : (n : ℕ) (f : Flow) (x : Step) → Fits f → Fits (step n f x)
unfolding step
step-Fits n f advance h = advance-Fits n f.phase f h.sound h.phase
step-Fits n f (child_ends run) h = fewer-Fits run f.phase f h.sound h.phase
step-Fits n f cancel_workflow h = cancel-Fits f.phase f h.sound h.phase
step-Fits n f (finish_commits now lost) h = finish-Fits now lost f.phase f h.sound h.phase
step-Fits n f finish_fails h = fail-Fits f.phase f h.sound h.phase
step-Fits n f (mirror_commits run w) h = other-Fits (mirror run w) f.phase f tt h.sound h.phase
step-Fits n f start_commits h = other-Fits start_batch f.phase f tt h.sound h.phase
step-Fits n f cancel_commits h = other-Fits cancel f.phase f tt h.sound h.phase

steps-Fits : (n : ℕ) (f : Flow) (xs : List Step) → Fits f → Fits (steps n f xs)
unfolding steps
steps-Fits n f [] h = h
steps-Fits n f (x ∷ xs) h = steps-Fits n (step n f x) xs (step-Fits n f x h)

-- On a batch whose counters count and that is open, whatever comes in between: when its workflow has
-- ended, no child is in flight; unless finish_batch failed, every run is over and the batch terminal;
-- and where it returns a status, that is the batch's, and each run has had a child, but for a cancel
-- of the workflow.
pub steps-IsFinished :
    (n : ℕ) (runs : List ℕ) (s : State) (xs : List Step) (r : Result)
    → IsCounted s
    → is_closed s.batch.status ≡ false
    → (steps n (begin runs s) xs).phase ≡ ended r
    → PhaseFits (steps n (begin runs s) xs) (ended r)
steps-IsFinished n runs s xs r h o e = rw e at (
    (steps-Fits n (begin runs s) xs
      (record { sound = record { counted = h; settled = λ c. absurd (cc) }; phase = tt })).phase)
