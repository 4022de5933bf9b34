-- ===== src/PipelineMirror/Consistent.antt =====
-- The row, its blocks and the last notification agree.
use scrapeflow.Base.{
  ℕ, ◌≤◌, ◌≡◌, ◌⊎◌, refl, Bool, true, false, not, none, some, List, [], ◌∷◌, map, arith, ◌==◌,
  if◌then◌else◌, count, Bool-cases, inl, inr,
}
use scrapeflow.PipelineMirror.{
  cancel_run, record_storage, Event, step, steps, mirror_block, mirror_run, cancel, charge,
}
use scrapeflow.PipelineMirror.Mirrors.{
  RunStatus, BlockStatus, PipelineRun, PipelineRunBlock, Notice, State, MirrorStatus,
  MirrorBlockInput, MirrorRunInput, Outcome, mirror_block_status, mirror_run_status, written,
  is_requested, skip, is_running, finished,
}

-- What the row says of the run, by its status.
abbrev pub FitsStatus : PipelineRun → Type 0
FitsStatus run = elim run.status [
  | RunStatus.running ↦ (run.result_path ≡ none) × (run.finished_at ≡ none)
  | RunStatus.completed ↦ (t : ℕ) × (run.finished_at ≡ some t)
  | RunStatus.failed ↦ (run.result_path ≡ none) × ((t : ℕ) × (run.finished_at ≡ some t))
  | RunStatus.cancelled ↦
      (run.result_path ≡ none) × (run.error ≡ none) × ((t : ℕ) × (run.finished_at ≡ some t))
]

abbrev pending : PipelineRunBlock → Bool
pending b = elim b.status [ BlockStatus.pending ↦ true | _ ↦ false ]

-- The last notification carries what the row says.
abbrev Told : PipelineRun → List Notice → Type 0
Told run [] = ⊥
Told run (n ∷ ns) =
    (n.status ≡ run.status) × (n.cancel_requested ≡ is_requested run.cancel_requested_at)

pub record IsConsistent (s : State) : Type 0 where
  pub run : PipelineRun
  pub row : s.run ≡ some run
  pub fits : FitsStatus run
  pub skipped :
      (run.status ≡ RunStatus.failed) ⊎ (run.status ≡ RunStatus.cancelled)
      → count pending s.blocks ≡ 0
  pub told : Told run s.notices

pending-map :
    (f : PipelineRunBlock → PipelineRunBlock) (p : PipelineRunBlock → Bool)
    → ((b : PipelineRunBlock) → pending (f b) ≡ false)
    → (bs : List PipelineRunBlock)
    → count pending (map (λ b. if p b then f b else b) bs) ≤ count pending bs
pending-map f p keep [] = omega arith
pending-map f p keep (b ∷ bs) = ground (arith, keep b, pending-map f p keep bs)

pending-skip : (bs : List PipelineRunBlock) → count pending (map skip bs) ≡ 0
pending-skip [] = refl
pending-skip (b ∷ bs) = ground (arith, pending-skip bs)

written-pending :
    (m : MirrorStatus) (i : MirrorBlockInput) (now : ℕ) (b : PipelineRunBlock)
    → pending (written m i now b) ≡ false
unfolding written
written-pending m i now b = ground arith

mirror_block-pending :
    (s : State) (i : MirrorBlockInput) (now : ℕ)
    → count pending (mirror_block_status i now s).0.blocks ≤ count pending s.blocks
unfolding mirror_block_status
mirror_block-pending s i now = ground (
  arith,
  pending-map (written i.status i now) (λ b. b.block_id == i.block_id)
      (λ b. written-pending i.status i now b) s.blocks,
)

finished-FitsStatus :
    (o : Outcome) (i : MirrorRunInput) (now : ℕ) (run : PipelineRun)
    → FitsStatus (finished o i now run)
unfolding finished
finished-FitsStatus Outcome.completed i now run = (now, refl)
finished-FitsStatus Outcome.failed i now run = (refl, (now, refl))
finished-FitsStatus Outcome.cancelled i now run = (refl, refl, (now, refl))

module _ (s : State) (run : PipelineRun) (row : s.run ≡ some run) (told : Told run s.notices) where
  mirror_block-row :
      (i : MirrorBlockInput) (now : ℕ) → (mirror_block_status i now s).0.run ≡ some run
  unfolding mirror_block_status
  mirror_block-row i now = ground arith

  mirror_block-Told :
      (i : MirrorBlockInput) (now : ℕ) → Told run (mirror_block_status i now s).0.notices
  unfolding mirror_block_status
  mirror_block-Told i now = ground arith

-- A run as `mirror_run_status` leaves it.
abbrev left : MirrorRunInput → ℕ → PipelineRun → PipelineRun
left i now run = if is_running run.status then finished i.status i now run else run

left-FitsStatus :
    (i : MirrorRunInput) (now : ℕ) (run : PipelineRun)
    → FitsStatus run
    → FitsStatus (left i now run)
left-FitsStatus i now run h = elim (Bool-cases (is_running run.status)) [
  | inl e ↦ rw e (finished-FitsStatus i.status i now run)
  | inr e ↦ rw e h
]

mirror_run-pending :
    (s : State) (run : PipelineRun) (i : MirrorRunInput) (now : ℕ)
    → s.run ≡ some run
    → ((left i now run).status ≡ RunStatus.failed) ⊎ ((left i now run).status ≡ RunStatus.cancelled)
    → count pending (mirror_run_status i now s).0.blocks ≡ 0
unfolding mirror_run_status
mirror_run-pending s run i now row h = ground (arith, pending-skip s.blocks)

-- A running run whose cancel is requested at `now`, unless it was before.
abbrev asked : ℕ → PipelineRun → PipelineRun
asked now run = elim run.cancel_requested_at [
  | none ↦ record run { cancel_requested_at = some now }
  | some t ↦ run
]

abbrev cancelled_row : ℕ → ℕ → PipelineRun → PipelineRun
cancelled_row user now run =
    if not (run.user_id == user)
    then run
    else if not (is_running run.status)
    then run
    else asked now run

cancelled_row-FitsStatus :
    (user now : ℕ) (run : PipelineRun) → FitsStatus run → FitsStatus (cancelled_row user now run)
cancelled_row-FitsStatus user now run h = ground arith

-- The invariant survives every transaction.
pub step-IsConsistent : (s : State) (e : Event) → IsConsistent s → IsConsistent (step s e)
unfolding step
step-IsConsistent s (mirror_block i now) c = record {
  run = c.run;
  row = mirror_block-row s c.run c.row c.told i now;
  fits = c.fits;
  skipped = λ h. omega (arith, c.skipped h, mirror_block-pending s i now);
  told = mirror_block-Told s c.run c.row c.told i now;
}
step-IsConsistent s (mirror_run i now) c = record {
  run = left i now c.run;
  row = unfold mirror_run_status in ground (arith, c.row);
  fits = left-FitsStatus i now c.run c.fits;
  skipped = mirror_run-pending s c.run i now c.row;
  told = unfold mirror_run_status in rw (c.row) (refl, refl);
}
step-IsConsistent s (cancel user now) c = record {
  run = cancelled_row user now c.run;
  row = unfold cancel_run in ground (arith, c.row);
  fits = cancelled_row-FitsStatus user now c.run c.fits;
  skipped = unfold cancel_run in λ h. ground (arith, c.row, c.skipped);
  told = unfold cancel_run in ground (arith, c.row, c.told);
}
step-IsConsistent s (charge settings block os) c = record {
  run = c.run;
  row = unfold record_storage in ground (arith, c.row);
  fits = c.fits;
  skipped = unfold record_storage in λ h. ground (arith, c.row, c.skipped h);
  told = unfold record_storage in ground (arith, c.row, c.told);
}

-- After every sequence of mirrors, cancels and charges: a running run has no result and no end; a
-- run that left running has an end time, a result only if it completed, no error if it was
-- cancelled, and no pending block if it failed or was cancelled; and the last notification carries
-- the row's status and whether a cancel is requested.
pub steps-IsConsistent : (s : State) (es : List Event) → IsConsistent s → IsConsistent (steps s es)
unfolding steps
steps-IsConsistent s [] c = c
steps-IsConsistent s (e ∷ es) c = steps-IsConsistent (step s e) es (step-IsConsistent s e c)
