-- ===== src/PipelineRoutes/Answers.antt =====
-- What create_run leaves behind with each of its answers, and the workflow that it starts.
use scrapeflow.Base.{ℕ, suc, ◌≡◌, refl, List, [], ◌∷◌, map, All, inl, String}
use scrapeflow.PipelineMirror.Mirrors.{RunStatus, BlockStatus, PipelineRunBlock}
use scrapeflow.PipelineMirror.Status.{Quiet}
use scrapeflow.PipelineMirror.Consistent.{FitsStatus}
use scrapeflow.PipelineWorkflow.{run}
use scrapeflow.PipelineWorkflow.Calls.{RunBlock, PipelineRunInput}
use scrapeflow.PipelineWorkflow.Transactions.{run-Quiet}
use scrapeflow.PipelineRoutes.{StoredRun, Tables, state_of}
use scrapeflow.PipelineRoutes.CreateRun.{
  Response, refusal, unavailable, started, insert_run, not_started, stored_run, workflow_input,
  create_run, new_blocks, set_skipped,
}
use scrapeflow.PipelineRoutes.CheckRun.{PipelineRunCreate, Env, Startable, check_run}
use scrapeflow.PipelineRoutes.Started.{start_ind}

-- The run is over, its blocks are skipped, and a workflow that was started all the same starts no
-- block of it.
pub record IsRefused (t : Tables) (r : StoredRun) : Type 0 where
  pub status : r.run.status ≡ RunStatus.failed
  pub fits : FitsStatus r.run
  pub skipped : All (λ b. b.status ≡ BlockStatus.skipped) r.blocks
  pub quiet :
      (w : scrapeflow.PipelineWorkflow.Calls.Env) (i : PipelineRunInput)
      → Quiet (state_of t r) (run w i (state_of t r)).0.state

-- The row of a run that is to go, with a pending row for each block.
pub record IsNew (r : StoredRun) (i : PipelineRunInput) : Type 0 where
  pub status : r.run.status ≡ RunStatus.running
  pub fits : FitsStatus r.run
  pub pending : All (λ b. b.status ≡ BlockStatus.pending) r.blocks
  pub blocks : map (λ b. b.block_id) r.blocks ≡ map (λ b. b.id) i.blocks

abbrev pub Leaves : Tables → Tables × Response → Type 0
Leaves t (t', refusal r) = t' ≡ t
Leaves t (t', unavailable r) = (t' ≡ insert_run r t) × IsRefused t' r
Leaves t (t', started r i) = (t' ≡ insert_run r t) × IsNew r i

skipped_all :
    (bs : List PipelineRunBlock) → All (λ b. b.status ≡ BlockStatus.skipped) (map set_skipped bs)
skipped_all [] = tt
skipped_all (b ∷ bs) = (refl, skipped_all bs)

not_started-IsRefused :
    (t : Tables) (error : String) (now : ℕ) (e : Env) (user : ℕ) (s : Startable)
    → IsRefused t (not_started error now (stored_run e user s))
unfolding not_started stored_run
not_started-IsRefused t error now e user s = record {
  status = refl;
  fits = (refl, (now, refl));
  skipped = skipped_all (new_blocks e.block_id 0 s.parsed.blocks);
  quiet = λ w i. run-Quiet w i _ (_, refl, inl (λ h. cc));
}

new_blocks_pending :
    (ids : ℕ → ℕ) (n : ℕ) (bs : List RunBlock)
    → All (λ b. b.status ≡ BlockStatus.pending) (new_blocks ids n bs)
new_blocks_pending ids n [] = tt
new_blocks_pending ids n (b ∷ bs) = (refl, new_blocks_pending ids (suc n) bs)

new_blocks_ids :
    (ids : ℕ → ℕ) (n : ℕ) (bs : List RunBlock)
    → map (λ b. b.block_id) (new_blocks ids n bs) ≡ map (λ b. b.id) bs
new_blocks_ids ids n [] = refl
new_blocks_ids ids n (b ∷ bs) = rw (new_blocks_ids ids (suc n) bs) refl

stored_run-IsNew :
    (e : Env) (user : ℕ) (body : PipelineRunCreate) (s : Startable)
    → IsNew (stored_run e user s) (workflow_input e body s (stored_run e user s))
unfolding stored_run workflow_input
stored_run-IsNew e user body s = record {
  status = refl;
  fits = (refl, refl);
  pending = new_blocks_pending e.block_id 0 s.parsed.blocks;
  blocks = new_blocks_ids e.block_id 0 s.parsed.blocks;
}

-- By its answer, create_run leaves the tables as they were (a refusal); or one more run, failed with
-- its blocks skipped, of which no block starts even when the workflow was started (503); or one more
-- run, running, with a pending row for each block of the workflow's input.
pub create_run-Leaves :
    (e : Env) (t : Tables) (user pipeline : ℕ) (body : PipelineRunCreate)
    → Leaves t (create_run e t user pipeline body)
unfolding create_run
create_run-Leaves e t user pipeline body =
    start_ind e t user body (Leaves t) (check_run e t user pipeline body) e.start_workflow
      (λ r h. refl) (λ s raised h k. (refl, not_started-IsRefused _ raised.0 raised.1 e user s))
      (λ s h k. (refl, stored_run-IsNew e user body s))
