-- ===== src/PipelineMirror/Status.antt =====
-- What the interleavings of the mirrors and the cancel keep.
use scrapeflow.Base.{
  ℕ, ◌≤◌, ◌≡◌, ◌≢◌, ◌⊎◌, ◌∙◌, refl, Bool, true, false, Option, some, List, [], ◌∷◌, map, arith,
  ◌==◌, if◌then◌else◌, count, Bool-cases, inl, inr,
}
use scrapeflow.PipelineMirror.{
  cancel_run, record_storage, Event, step, steps, mirror_block, mirror_run, cancel, charge,
}
use scrapeflow.PipelineMirror.Mirrors.{
  RunStatus, BlockStatus, PipelineRun, PipelineRunBlock, State, MirrorStatus, MirrorBlockInput,
  mirror_block_status, mirror_run_status, written, refuses_start, cancel_requested, is_requested,
  skip, is_running, finished,
}

-- Whoever writes next, the row of a run that has left running stays as it is.
step-terminal :
    (s : State) (e : Event) (run : PipelineRun)
    → s.run ≡ some run
    → run.status ≢ RunStatus.running
    → (step s e).run ≡ s.run
unfolding step mirror_block_status mirror_run_status cancel_run record_storage
step-terminal s (mirror_block i now) run h t = ground arith
step-terminal s (mirror_run i now) run h t = ground arith
step-terminal s (cancel user now) run h t = ground arith
step-terminal s (charge settings b os) run h t = ground arith

-- A run that is completed, failed or cancelled keeps its row (status, result, error, times) whatever
-- mirrors, cancels and charges commit after, in any order.
pub steps-terminal :
    (s : State) (es : List Event) (run : PipelineRun)
    → s.run ≡ some run
    → run.status ≢ RunStatus.running
    → (steps s es).run ≡ some run
unfolding steps
steps-terminal s [] run h t = h
steps-terminal s (e ∷ es) run h t =
    steps-terminal (step s e) es run (step-terminal s e run h t ∙ h) t

-- The run must not go on: it has left running, or its cancel was requested.
abbrev pub Stops : PipelineRun → Type 0
Stops run = (run.status ≢ RunStatus.running) ⊎ (is_requested run.cancel_requested_at ≡ true)

abbrev pub HasStopped : State → Type 0
HasStopped s = (run : PipelineRun) × (s.run ≡ some run) × Stops run

abbrev pub starts : List PipelineRunBlock → List (Option ℕ)
starts blocks = map (λ b. b.started_at) blocks

abbrev pub active : PipelineRunBlock → Bool
active b = elim b.status [ BlockStatus.running ↦ true | _ ↦ false ]

module _ (f : PipelineRunBlock → PipelineRunBlock) (p : PipelineRunBlock → Bool) where
  starts-map :
      ((b : PipelineRunBlock) → (f b).started_at ≡ b.started_at)
      → (bs : List PipelineRunBlock) → starts (map (λ b. if p b then f b else b) bs) ≡ starts bs
  starts-map keep [] = refl
  starts-map keep (b ∷ bs) = ground (arith, keep b, starts-map keep bs)

  active-map :
      ((b : PipelineRunBlock) → active (f b) ≡ true → active b ≡ true)
      → (bs : List PipelineRunBlock)
      → count active (map (λ b. if p b then f b else b) bs) ≤ count active bs
  active-map keep [] = omega arith
  active-map keep (b ∷ bs) = ground (arith, keep b, active-map keep bs)

  ids-map :
      ((b : PipelineRunBlock) → (f b).block_id ≡ b.block_id)
      → (bs : List PipelineRunBlock)
      → map (λ b. b.block_id) (map (λ b. if p b then f b else b) bs) ≡ map (λ b. b.block_id) bs
  ids-map keep [] = refl
  ids-map keep (b ∷ bs) = ground (arith, keep b, ids-map keep bs)

starts-skip : (bs : List PipelineRunBlock) → starts (map skip bs) ≡ starts bs
starts-skip [] = refl
starts-skip (b ∷ bs) = ground (arith, starts-skip bs)

active-skip : (bs : List PipelineRunBlock) → count active (map skip bs) ≤ count active bs
active-skip [] = omega arith
active-skip (b ∷ bs) = ground (arith, active-skip bs)

-- What a status other than running writes leaves the start alone and makes no block active.
written_started :
    (m : MirrorStatus) (i : MirrorBlockInput) (now : ℕ) (b : PipelineRunBlock)
    → m ≢ MirrorStatus.running
    → (written m i now b).started_at ≡ b.started_at
unfolding written
written_started m i now b h = ground arith

written_inactive :
    (m : MirrorStatus) (i : MirrorBlockInput) (now : ℕ) (b : PipelineRunBlock)
    → m ≢ MirrorStatus.running
    → active (written m i now b) ≡ true
    → active b ≡ true
unfolding written
written_inactive m i now b h a = ground arith

-- No block starts in one step of a stopped run.
abbrev pub Quiet : State → State → Type 0
Quiet s t = (starts t.blocks ≡ starts s.blocks) × (count active t.blocks ≤ count active s.blocks)

refused :
    (m : MirrorStatus) (run : PipelineRun)
    → Stops run
    → refuses_start m run ≡ false
    → m ≢ MirrorStatus.running
unfolding refuses_start cancel_requested
refused m run h r = ground arith

mirror_block-Quiet :
    (s : State) (i : MirrorBlockInput) (now : ℕ) (run : PipelineRun)
    → s.run ≡ some run
    → Stops run
    → Quiet s (mirror_block_status i now s).0
unfolding mirror_block_status refuses_start
mirror_block-Quiet s i now run e h = elim (Bool-cases (refuses_start i.status run)) [
  | inl r ↦ (ground arith, ground arith)
  | inr r ↦
      let m = refused i.status run h r in
      let p = λ (b : PipelineRunBlock). b.block_id == i.block_id in
      let f = written i.status i now in
      (
        ground (arith, starts-map f p (λ b. written_started i.status i now b m) s.blocks),
        ground (arith, active-map f p (λ b. written_inactive i.status i now b m) s.blocks),
      )
]

step-Quiet :
    (s : State) (e : Event) (run : PipelineRun) → s.run ≡ some run → Stops run → Quiet s (step s e)
unfolding step mirror_run_status cancel_run record_storage
step-Quiet s (mirror_block i now) run h t = mirror_block-Quiet s i now run h t
step-Quiet s (mirror_run i now) run h t =
    (ground (arith, starts-skip s.blocks), ground (arith, active-skip s.blocks))
step-Quiet s (cancel user now) run h t = (ground arith, ground arith)
step-Quiet s (charge settings b os) run h t = (ground arith, ground arith)

pub step-HasStopped : (s : State) (e : Event) → HasStopped s → HasStopped (step s e)
unfolding step mirror_block_status mirror_run_status cancel_run record_storage
step-HasStopped s (mirror_block i now) (run, h, t) = (run, ground arith, t)
step-HasStopped s (mirror_run i now) (run, h, t) = (
  (if is_running run.status then finished i.status i now run else run),
  ground arith,
  ground arith,
)
step-HasStopped s (cancel user now) (run, h, t) = (run, ground arith, t)
step-HasStopped s (charge settings b os) (run, h, t) = (run, ground arith, t)

-- A run whose cancel was requested, or that has left running, starts no block again: through every
-- further sequence of mirrors, cancels and charges no block's start time changes and no further
-- block becomes active.
pub steps-Quiet : (s : State) (es : List Event) → HasStopped s → Quiet s (steps s es)
unfolding steps
steps-Quiet s [] h = (refl, omega arith)
steps-Quiet s (e ∷ es) h =
    let one = step-Quiet s e h.0 h.1 h.2 in
    let more = steps-Quiet (step s e) es (step-HasStopped s e h) in
    (more.0 ∙ one.0, omega (arith, more.1, one.1))

pub steps-HasStopped : (s : State) (es : List Event) → HasStopped s → HasStopped (steps s es)
unfolding steps
steps-HasStopped s [] h = h
steps-HasStopped s (e ∷ es) h = steps-HasStopped (step s e) es (step-HasStopped s e h)
