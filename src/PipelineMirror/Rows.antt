-- ===== src/PipelineMirror/Rows.antt =====
-- The block rows of a run: nobody adds, removes or renames one.
use scrapeflow.Base.{
  ℕ, ◌≡◌, refl, sym, ◌∙◌, arith, Bool, ◌==◌, if◌then◌else◌, count, List, [], ◌∷◌, map,
}
use scrapeflow.PipelineMirror.{
  cancel_run, record_storage, Event, step, steps, mirror_block, mirror_run, cancel, charge,
}
use scrapeflow.PipelineMirror.Mirrors.{
  State, MirrorStatus, PipelineRunBlock, MirrorBlockInput, mirror_block_status, mirror_run_status,
  written, skip,
}
use scrapeflow.PipelineMirror.Reaches.{Reaches}

abbrev pub rows : ℕ → State → ℕ
rows id s = count (λ b. b.block_id == id) s.blocks

module _ (id : ℕ) (f : PipelineRunBlock → PipelineRunBlock)
    (keep : (b : PipelineRunBlock) → (f b).block_id ≡ b.block_id) where
  rows-map :
      (bs : List PipelineRunBlock)
      → count (λ b. b.block_id == id) (map f bs) ≡ count (λ b. b.block_id == id) bs
  rows-map [] = refl
  rows-map (b ∷ bs) = ground (arith, keep b, rows-map bs)

written_id :
    (m : MirrorStatus) (i : MirrorBlockInput) (now : ℕ) (b : PipelineRunBlock)
    → (written m i now b).block_id ≡ b.block_id
unfolding written
written_id m i now b = ground arith

skip_id : (b : PipelineRunBlock) → (skip b).block_id ≡ b.block_id
skip_id b = ground arith

step-rows : (id : ℕ) (s : State) (e : Event) → rows id (step s e) ≡ rows id s
unfolding step mirror_block_status mirror_run_status cancel_run record_storage
step-rows id s (mirror_block i now) = ground (
  arith,
  rows-map id (λ b. if b.block_id == i.block_id then written i.status i now b else b)
      (λ b. ground (arith, written_id i.status i now b)) s.blocks,
)
step-rows id s (mirror_run i now) = ground (arith, rows-map id skip skip_id s.blocks)
step-rows id s (cancel user now) = ground arith
step-rows id s (charge settings b os) = ground arith

steps-rows : (id : ℕ) (s : State) (es : List Event) → rows id (steps s es) ≡ rows id s
unfolding steps
steps-rows id s [] = refl
steps-rows id s (e ∷ es) = steps-rows id (step s e) es ∙ step-rows id s e

pub Reaches-rows : {ends : Bool} (id : ℕ) (s t : State) → Reaches ends s t → rows id t ≡ rows id s
Reaches-rows id s t (es, a, e) = rw (sym e) (steps-rows id s es)
