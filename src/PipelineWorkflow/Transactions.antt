-- ===== src/PipelineWorkflow/Transactions.antt =====
-- The ends of a block, and the run, as sequences of transactions.
use scrapeflow.Base.{ℕ, true, if_ind, String, Option, none, some, List, [], ◌∷◌}
use scrapeflow.Catalog.{type_of, kind, timing}
use scrapeflow.PipelineMirror.Mirrors.{RunStatus, State, MirrorStatus, Outcome}
use Prim.Native.String.{◌++◌ as ◌<>◌}
use scrapeflow.PipelineMirror.Status.{HasStopped, Quiet}
use scrapeflow.PipelineMirror.Reaches.{Reaches-Quiet, Reaches, Reaches-refl, Reaches-trans}
use scrapeflow.Temporal.{Exc, is_cancellation, failure_message}
use scrapeflow.PipelineWorkflow.{
  cancel, cancelled_block, failed_run, failed_block, block_raised, complete_block, run_started,
  run_block, run_blocks, run, initial, ended, after_status, next_block, input_of, fail_input,
  output_ref, with_output,
}
use scrapeflow.PipelineWorkflow.Perform.{attempt_block}
use scrapeflow.PipelineWorkflow.Calls.{
  RunBlock, PipelineRunInput, Env, Flow, Result, returned, escaped, mirror_block, mirror_run,
  application_failure, block_input,
}
use scrapeflow.PipelineWorkflow.Refines.{
  To, then_To, mirror_block-To, mirror_run-To, attempt_block-To, cancel-To,
}

module _ (e : Env) (i : PipelineRunInput) where
  pub cancelled_block-To : (b : RunBlock) (f : Flow) → To true f (cancelled_block e i b f)
  unfolding cancelled_block
  cancelled_block-To b f =
      let failing = fail_input e i b.id "cancelled before it finished" in
      then_To f (mirror_block failing (e.at b.id).fail f) (λ g x. (g, escaped x))
        (λ g status. cancel e i g) (λ g x. Reaches-refl g.state) (λ g status. cancel-To e i g)
        (mirror_block-To failing (e.at b.id).fail f)

  failed_run-To : (error : String) (f : Flow) → To true f (failed_run e i error f)
  unfolding failed_run
  failed_run-To error f =
      then_To f (mirror_run Outcome.failed none (some error) e.ending f) (λ g x. (g, escaped x))
        (λ g status. (g, application_failure error)) (λ g x. Reaches-refl g.state)
        (λ g status. Reaches-refl g.state)
        (mirror_run-To Outcome.failed none (some error) e.ending f)

  failed_block-To : (b : RunBlock) (x : Exc) (f : Flow) → To true f (failed_block e i b x f)
  unfolding failed_block
  failed_block-To b x f =
      let message = failure_message e.str x (timing b.config).maximum_attempts in
      let error = e.str b.id <> (": " <> message) in
      then_To f (mirror_block (fail_input e i b.id message) (e.at b.id).fail f)
        (λ g x. (g, escaped x)) (λ g status. failed_run e i error g) (λ g x. Reaches-refl g.state)
        (λ g status. failed_run-To error g)
        (mirror_block-To (fail_input e i b.id message) (e.at b.id).fail f)

  pub block_raised-To : (b : RunBlock) (x : Exc) (f : Flow) → To true f (block_raised e i b x f)
  unfolding block_raised
  block_raised-To b x f =
      if_ind (To true f) (is_cancellation x) _ _ (cancelled_block-To b f) (failed_block-To b x f)

  complete_block-To :
      (b : RunBlock) (output : Option ℕ) (usage : Option (ℕ × ℕ)) (f : Flow)
      → To true f (complete_block e i b output usage f)
  unfolding complete_block
  complete_block-To b none usage f = Reaches-refl f.state
  complete_block-To b (some ref) usage f =
      let m = record (block_input b.id MirrorStatus.completed) { output_ref = some ref } in
      let g = with_output e i b ref usage f in
      then_To g (mirror_block m (e.at b.id).complete g) (λ h x. (h, some (escaped x)))
        (λ h status. (h, none)) (λ h x. Reaches-refl h.state) (λ h status. Reaches-refl h.state)
        (mirror_block-To m (e.at b.id).complete g)

  run_started-To :
      (b : RunBlock) (input : Option ℕ) (f : Flow) → To true f (run_started e i b input f)
  unfolding run_started
  run_started-To b input f =
      then_To f (attempt_block e i b input f) (λ g x. ended e i (block_raised e i b x g))
        (λ g done.
          complete_block e i b (output_ref e i (kind (type_of b.config)) done.0 input) done.1 g)
        (λ g x. block_raised-To b x g)
        (λ g done.
          complete_block-To b (output_ref e i (kind (type_of b.config)) done.0 input) done.1 g)
        (attempt_block-To e i b input f)

  started_To :
      (b : RunBlock) (input : Option ℕ) (f : Flow) (status : RunStatus)
      → To true f (after_status e i b input f status)
  started_To b input f RunStatus.running = run_started-To b input f
  started_To b input f RunStatus.completed = cancel-To e i f
  started_To b input f RunStatus.failed = cancel-To e i f
  started_To b input f RunStatus.cancelled = cancel-To e i f

  run_block-To : (b : RunBlock) (f : Flow) → To true f (run_block e i b f)
  unfolding run_block
  run_block-To b f =
      let input = input_of e i b f in
      let m = record (block_input b.id MirrorStatus.running) { input_ref = input } in
      if_ind (To true f) f.cancel_requested _ _ (cancel-To e i f) (
        then_To f (mirror_block m (e.at b.id).start f) (λ g x. (g, some (escaped x)))
          (λ g status. after_status e i b input g status) (λ g x. Reaches-refl g.state)
          (λ g status. started_To b input g status) (mirror_block-To m (e.at b.id).start f))

  next_To :
      (f g : Flow) (end : Option Result) (rest : Flow × Result)
      → Reaches true f.state g.state
      → To true g rest
      → To true f (next_block e i g end rest)
  next_To f g none rest r q = Reaches-trans f.state g.state _ r q
  next_To f g (some result) rest r q = r

  run_blocks-To : (bs : List RunBlock) (f : Flow) → To true f (run_blocks e i bs f)
  unfolding run_blocks
  run_blocks-To [] f =
      then_To f (mirror_run Outcome.completed f.result_path f.wall e.ending f)
        (λ g x. (g, escaped x)) (λ g status. (g, returned f.result_path))
        (λ g x. Reaches-refl g.state) (λ g status. Reaches-refl g.state)
        (mirror_run-To Outcome.completed f.result_path f.wall e.ending f)
  run_blocks-To (b ∷ later) f =
      let (g, end) = run_block e i b f in
      next_To f g end (run_blocks e i later g) (run_block-To b f) (run_blocks-To later g)

  -- Whatever a run of the workflow meets, it changes the tables by a sequence of the transactions
  -- of PipelineMirror: its own mirrors and charges, those of its webhook blocks, and what others
  -- commit meanwhile.
  pub run-Reaches : (s : State) → Reaches true s (run e i s).0.state
  unfolding run
  run-Reaches s = run_blocks-To i.blocks (initial e i s)

  -- A run that is cancelled, or over, before the workflow starts it starts no block.
  pub run-Quiet : (s : State) → HasStopped s → Quiet s (run e i s).0.state
  run-Quiet s h = Reaches-Quiet {ends = true} s _ (run-Reaches s) h
