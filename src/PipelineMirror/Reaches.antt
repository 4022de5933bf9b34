-- ===== src/PipelineMirror/Reaches.antt =====
-- One state of the tables leads to another by transactions of the writers.
use scrapeflow.Base.{
  ℕ, ◌≡◌, refl, sym, ap, ◌∙◌, Bool, true, false, some, List, [], ◌∷◌, ◌++◌, All, All-append, arith,
  Bool-cases, inl, inr, not, ◌&&◌, ◌==◌, if◌then◌else◌,
}
use scrapeflow.Quota.{Settings}
use scrapeflow.PipelineMirror.{
  cancel, cancel_run, record_storage, StoredObject, Event, step, steps, mirror_block, mirror_run,
  charge,
}
use scrapeflow.PipelineMirror.Mirrors.{
  State, is_requested, RunStatus, PipelineRun, MirrorBlockInput, MirrorRunInput,
  mirror_block_status, mirror_run_status,
}
use scrapeflow.PipelineMirror.Status.{HasStopped, steps-HasStopped, Quiet, steps-Quiet}

-- Whether a transaction may end a run: only a mirror of the run does.
abbrev pub is_end : Event → Bool
is_end (mirror_run i now) = true
is_end _ = false

-- By transactions, of which none ends the run where `ends` is false.
abbrev pub Reaches : Bool → State → State → Type 0
Reaches ends s t =
    (es : List Event) × All (λ e. (is_end e ≡ true) → (ends ≡ true)) es × (steps s es ≡ t)

pub steps-append : (s : State) (es fs : List Event) → steps s (es ++ fs) ≡ steps (steps s es) fs
unfolding steps
steps-append s [] fs = refl
steps-append s (e ∷ es) fs = steps-append (step s e) es fs

module _ {ends : Bool} where
  pub Reaches-refl : (s : State) → Reaches ends s s
  unfolding steps
  Reaches-refl s = ([], tt, refl)

  pub Reaches-trans : (s t u : State) → Reaches ends s t → Reaches ends t u → Reaches ends s u
  Reaches-trans s t u (es, a, e) (fs, b, f) =
      (es ++ fs, All-append _ es fs a b, steps-append s es fs ∙ (ap (λ v. steps v fs) e ∙ f))

  pub Reaches-stopped : (s t : State) → Reaches ends s t → HasStopped s → HasStopped t
  Reaches-stopped s t (es, a, e) h = rw (sym e) (steps-HasStopped s es h)

  pub Reaches-Quiet : (s t : State) → Reaches ends s t → HasStopped s → Quiet s t
  Reaches-Quiet s t (es, a, e) h = rw (sym e) (steps-Quiet s es h)

module _ {ends : Bool} (s : State) where
  pub Reaches-mirror_block :
      (i : MirrorBlockInput) (now : ℕ) → Reaches ends s (mirror_block_status i now s).0
  unfolding steps step
  Reaches-mirror_block i now = (mirror_block i now ∷ [], ((λ h. absurd (cc)), tt), refl)

  pub Reaches-charge :
      (settings : Settings) (block : ℕ) (os : List StoredObject)
      → Reaches ends s (record_storage settings block os s).0
  unfolding steps step
  Reaches-charge settings block os = (charge settings block os ∷ [], ((λ h. absurd (cc)), tt), refl)

pub Reaches-mirror_run :
    (s : State) (i : MirrorRunInput) (now : ℕ) → Reaches true s (mirror_run_status i now s).0
unfolding steps step
Reaches-mirror_run s i now = (mirror_run i now ∷ [], ((λ h. refl), tt), refl)

pub Reaches-true : (s t : State) → Reaches false s t → Reaches true s t
Reaches-true s t (es, a, e) = (es, all_true es, e)
  where
    all_true : (es : List Event) → All (λ e. (is_end e ≡ true) → (true ≡ true)) es
    all_true [] = tt
    all_true (e ∷ es) = ((λ h. refl), all_true es)

abbrev pub IsRunning : State → Type 0
IsRunning s = (run : PipelineRun) × (s.run ≡ some run) × (run.status ≡ RunStatus.running)

step-IsRunning : (s : State) (e : Event) → is_end e ≡ false → IsRunning s → IsRunning (step s e)
unfolding step mirror_block_status cancel_run record_storage
step-IsRunning s (mirror_block i now) n (run, h, r) = (run, ground arith, r)
step-IsRunning s (mirror_run i now) n (run, h, r) = cc
step-IsRunning s (cancel user now) n (run, h, r) = (
  (if (run.user_id == user) && not (is_requested run.cancel_requested_at)
      then record run { cancel_requested_at = some now }
      else run),
  ground arith,
  ground arith,
)
step-IsRunning s (charge settings b os) n (run, h, r) = (run, ground arith, r)

steps-IsRunning :
    (s : State) (es : List Event)
    → All (λ e. (is_end e ≡ true) → (false ≡ true)) es
    → IsRunning s
    → IsRunning (steps s es)
unfolding steps
steps-IsRunning s [] a h = h
steps-IsRunning s (e ∷ es) a h = elim (Bool-cases (is_end e)) [
  | inl ends ↦ (let none_ends : false ≡ true = a.0 ends in absurd (cc))
  | inr goes_on ↦ steps-IsRunning (step s e) es a.1 (step-IsRunning s e goes_on h)
]

pub Reaches-IsRunning : (s t : State) → Reaches false s t → IsRunning s → IsRunning t
Reaches-IsRunning s t (es, a, e) h = rw (sym e) (steps-IsRunning s es a h)
