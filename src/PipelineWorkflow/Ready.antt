-- ===== src/PipelineWorkflow/Ready.antt =====
-- Where the mirrors of a run are answered: its blocks have their rows.
use scrapeflow.Base.{
  ◌≢◌, arith, false, ◌∙◌, ℕ, ◌≡◌, refl, if◌then◌else◌, String, Option, none, some, List, [], ◌∷◌,
  All,
}
use scrapeflow.PipelineMirror.Mirrors.{
  RunStatus, State, Answer, MirrorBlockInput, mirror_run_status, Outcome,
}
use scrapeflow.Temporal.{commits, Called, got, answers, db}
use scrapeflow.PipelineWorkflow.{run}
use scrapeflow.PipelineWorkflow.Calls.{
  RunBlock, Waiting, quiet, noted, at_end, Mirroring, Env, Flow, Result, escaped, finish, call_db,
  mirror_block, mirror_run,
}
use scrapeflow.Temporal.Commits.{Reaches-commits}
use scrapeflow.PipelineWorkflow.Calls.{stuck}
use scrapeflow.PipelineWorkflow.Produces.{Each}
use scrapeflow.PipelineMirror.Reaches.{Reaches, Reaches-mirror_block, IsRunning, Reaches-IsRunning}
use scrapeflow.PipelineMirror.Mirrors.{
  mirror_block_status, refuses_start, cancel_requested, run_status,
}
use scrapeflow.PipelineMirror.Rows.{rows, Reaches-rows}
use scrapeflow.PipelineWorkflow.Told.{answer}
use scrapeflow.PipelineWorkflow.Told.{outcome}

-- The call is answered, and no cancel comes as it ends.
abbrev pub IsAnswered : Mirroring → Type 0
IsAnswered m = (m.call.ending ≡ answers) × (m.waiting ≢ at_end)

abbrev pub BlockAnswered : Env → RunBlock → Type 0
BlockAnswered e b =
    IsAnswered (e.at b.id).start × IsAnswered (e.at b.id).complete × IsAnswered (e.at b.id).fail

-- The workflow has told the run's outcome.
abbrev pub HasOutcome : Flow × Result → Type 0
HasOutcome (f, escaped x) = ⊥
HasOutcome (f, stuck) = ⊥
HasOutcome (f, r) = Unit

abbrev HasOutcomeOrRuns : Flow × Option Result → Type 0
HasOutcomeOrRuns (f, none) = Unit
HasOutcomeOrRuns (f, some r) = HasOutcome (f, r)

-- No exception, and the run as it was.
abbrev Answered : {A : Type 0} → (State → Type 0) → Flow × Called A → Type 0
Answered P o = Each (λ g. ⊥) (λ g a. P g.state) o

finish-Answered :
    {A : Type 0} (P : State → Type 0) (w : Waiting) (f : Flow) (a : A)
    → w ≢ at_end
    → P f.state
    → Answered P (finish w (f, got a))
unfolding finish
finish-Answered P quiet f a h p = p
finish-Answered P noted f a h p = p
finish-Answered P at_end f a h p = absurd (h refl)

module _ {A : Type 0} (activity : State → State × Answer A) (P : State → Type 0) where
  call_db-Answered :
      (m : Mirroring) (f : Flow) (a : A)
      → IsAnswered m
      → (activity (commits m.call.meanwhile f.state)).1 ≡ Answer.returned a
      → P (activity (commits m.call.meanwhile f.state)).0
      → Answered P (call_db activity m f)
  unfolding call_db db
  call_db-Answered m f a h eq p =
      rw (h.0, eq)
        (finish-Answered P m.waiting
          (record f { state = (activity (commits m.call.meanwhile f.state)).0 }) a h.1 p)

-- The run is running and has one row for the block.
abbrev HasRow : ℕ → State → Type 0
HasRow id s = IsRunning s × (rows id s ≡ 1)

mirror_block_answer :
    (i : MirrorBlockInput) (now : ℕ) (s : State)
    → HasRow i.block_id s
    → (status : RunStatus) × ((mirror_block_status i now s).1 ≡ Answer.returned status)
unfolding mirror_block_status
mirror_block_answer i now s ((run, h, r), one) = (
  (if refuses_start i.status run
      then (if cancel_requested run then RunStatus.cancelled else run.status)
      else run.status),
  ground (arith, h, one),
)

-- The run is running and has one row for each of these blocks.
abbrev pub IsReady : List RunBlock → State → Type 0
IsReady bs s = IsRunning s × All (λ b. rows b.id s ≡ 1) bs

rows_kept :
    (bs : List RunBlock) (s t : State)
    → Reaches false s t
    → All (λ b. rows b.id s ≡ 1) bs
    → All (λ b. rows b.id t ≡ 1) bs
rows_kept [] s t to h = tt
rows_kept (b ∷ bs) s t to h = (Reaches-rows b.id s t to ∙ h.0, rows_kept bs s t to h.1)

pub IsReady-kept :
    (bs : List RunBlock) (s t : State) → Reaches false s t → IsReady bs s → IsReady bs t
IsReady-kept bs s t to (r, h) = (Reaches-IsRunning s t to r, rows_kept bs s t to h)

module _ (b : RunBlock) (later : List RunBlock) where
  pub mirror_block-Answered :
      (i : MirrorBlockInput) (m : Mirroring) (f : Flow)
      → i.block_id ≡ b.id
      → IsAnswered m
      → IsReady (b ∷ later) f.state
      → Answered (IsReady (b ∷ later)) (mirror_block i m f)
  unfolding mirror_block
  mirror_block-Answered i m f same a h =
      let s = commits m.call.meanwhile f.state in
      let h' = IsReady-kept (b ∷ later) f.state s (Reaches-commits f.state m.call.meanwhile) h in
      let row : rows i.block_id s ≡ 1 = rw same h'.1.0 in
      let (status, eq) = mirror_block_answer i m.call.now s (h'.0, row) in
      call_db-Answered (mirror_block_status i m.call.now) (IsReady (b ∷ later)) m f status a eq
        (IsReady-kept (b ∷ later) s _ (Reaches-mirror_block s i m.call.now) h')

pub mirror_run-Answered :
    (o : Outcome) (path : Option ℕ) (error : Option String) (m : Mirroring) (f : Flow)
    → IsAnswered m
    → IsRunning f.state
    → Answered (λ s. Unit) (mirror_run o path error m f)
unfolding mirror_run
mirror_run-Answered o path error m f a r =
    let s = commits m.call.meanwhile f.state in
    let r' = Reaches-IsRunning f.state s (Reaches-commits f.state m.call.meanwhile) r in
    call_db-Answered (mirror_run_status (outcome o path error) m.call.now) (λ s. Unit) m f
      (run_status o) a (answer o path error m.call.now s r') tt
