-- ===== src/PipelineWorkflow/Answers.antt =====
-- A workflow whose mirrors are answered ends with an outcome.
use scrapeflow.Base.{ℕ, refl, if◌then◌else◌, if_ind, String, Option, none, some, List, [], ◌∷◌, All}
use scrapeflow.Catalog.{type_of, kind, timing}
use scrapeflow.PipelineMirror.{StoredObject}
use scrapeflow.PipelineMirror.Mirrors.{RunStatus, State, MirrorStatus, Outcome}
use Prim.Native.String.{◌++◌ as ◌<>◌}
use scrapeflow.Temporal.{Exc, Called, got, threw, is_cancellation, failure_message}
use scrapeflow.PipelineWorkflow.{
  cancel, cancelled_block, failed_run, failed_block, block_raised, complete_block, run_started,
  run_block, run_blocks, run, initial, ended, after_status, next_block, input_of, fail_input,
  output_ref, with_output,
}
use scrapeflow.PipelineWorkflow.Perform.{attempt_block}
use scrapeflow.PipelineWorkflow.Calls.{
  RunBlock, PipelineRunInput, Env, Flow, Result, returned, escaped, mirror_block, mirror_run,
  application_failure, block_input,
}
use scrapeflow.PipelineWorkflow.Refines.{attempt_block-To}
use scrapeflow.PipelineWorkflow.{after_status, next_block}
use scrapeflow.PipelineWorkflow.Produces.{HandsOnDone, attempt_block_Handed, Each, Anything}
use scrapeflow.PipelineMirror.Reaches.{IsRunning}
use scrapeflow.PipelineWorkflow.Told.{then_Each}
use scrapeflow.PipelineWorkflow.Ready.{
  BlockAnswered, HasOutcome, IsAnswered, IsReady, IsReady-kept, mirror_block-Answered,
  mirror_run-Answered,
}

module _ (e : Env) (i : PipelineRunInput) (ending : IsAnswered e.ending) where
  cancel-HasOutcome : (f : Flow) → IsRunning f.state → HasOutcome (cancel e i f)
  unfolding cancel
  cancel-HasOutcome f r =
      then_Each (λ g. ⊥) (λ g status. Unit) HasOutcome
        (mirror_run Outcome.cancelled none none e.ending f) (λ g x. (g, escaped x))
        (λ g status. (g, if g.cancel_requested then Result.cancelled else returned none))
        (λ g x h. absurd h)
        (λ g status h. if_ind (λ result. HasOutcome (g, result)) g.cancel_requested _ _ tt tt)
        (mirror_run-Answered Outcome.cancelled none none e.ending f ending r)

  failed_run-HasOutcome :
      (error : String) (f : Flow) → IsRunning f.state → HasOutcome (failed_run e i error f)
  unfolding failed_run
  failed_run-HasOutcome error f r =
      then_Each (λ g. ⊥) (λ g status. Unit) HasOutcome
        (mirror_run Outcome.failed none (some error) e.ending f) (λ g x. (g, escaped x))
        (λ g status. (g, application_failure error)) (λ g x h. absurd h) (λ g status h. tt)
        (mirror_run-Answered Outcome.failed none (some error) e.ending f ending r)

  module _ (b : RunBlock) (later : List RunBlock) (own : BlockAnswered e b) where
    cancelled_block-HasOutcome :
        (f : Flow) → IsReady (b ∷ later) f.state → HasOutcome (cancelled_block e i b f)
    unfolding cancelled_block
    cancelled_block-HasOutcome f r =
        let failing = fail_input e i b.id "cancelled before it finished" in
        then_Each (λ g. ⊥) (λ g status. IsReady (b ∷ later) g.state) HasOutcome
          (mirror_block failing (e.at b.id).fail f) (λ g x. (g, escaped x))
          (λ g status. cancel e i g) (λ g x h. absurd h) (λ g status h. cancel-HasOutcome g h.0)
          (mirror_block-Answered b later failing (e.at b.id).fail f refl own.2 r)

    failed_block-HasOutcome :
        (x : Exc) (f : Flow) → IsReady (b ∷ later) f.state → HasOutcome (failed_block e i b x f)
    unfolding failed_block
    failed_block-HasOutcome x f r =
        let message = failure_message e.str x (timing b.config).maximum_attempts in
        let error = e.str b.id <> (": " <> message) in
        then_Each (λ g. ⊥) (λ g status. IsReady (b ∷ later) g.state) HasOutcome
          (mirror_block (fail_input e i b.id message) (e.at b.id).fail f) (λ g x. (g, escaped x))
          (λ g status. failed_run e i error g) (λ g x h. absurd h)
          (λ g status h. failed_run-HasOutcome error g h.0)
          (mirror_block-Answered b later (fail_input e i b.id message) (e.at b.id).fail f refl own.2
            r)

    block_raised-HasOutcome :
        (x : Exc) (f : Flow) → IsReady (b ∷ later) f.state → HasOutcome (block_raised e i b x f)
    unfolding block_raised
    block_raised-HasOutcome x f r =
        if_ind HasOutcome (is_cancellation x) _ _ (cancelled_block-HasOutcome f r)
          (failed_block-HasOutcome x f r)

    -- The block goes on with the rows of the later blocks, or the run has its outcome.
    abbrev GoesOn : Flow × Option Result → Type 0
    GoesOn (f, none) = IsReady later f.state
    GoesOn (f, some r) = HasOutcome (f, r)

    ended-GoesOn : (o : Flow × Result) → HasOutcome o → GoesOn (ended e i o)
    ended-GoesOn (f, r) h = h

    complete_block-GoesOn :
        (ref : ℕ) (usage : Option (ℕ × ℕ)) (f : Flow)
        → IsReady (b ∷ later) f.state
        → GoesOn (complete_block e i b (some ref) usage f)
    unfolding complete_block
    complete_block-GoesOn ref usage f r =
        let m = record (block_input b.id MirrorStatus.completed) { output_ref = some ref } in
        let g = with_output e i b ref usage f in
        then_Each (λ g. ⊥) (λ g status. IsReady (b ∷ later) g.state) GoesOn
          (mirror_block m (e.at b.id).complete g) (λ h x. (h, some (escaped x)))
          (λ h status. (h, none)) (λ h x q. absurd q) (λ h status q. (q.0, q.1.1))
          (mirror_block-Answered b later m (e.at b.id).complete g refl own.1 r)

    run_started-GoesOn :
        (input : Option ℕ) (f : Flow)
        → IsReady (b ∷ later) f.state
        → GoesOn (run_started e i b input f)
    unfolding run_started
    run_started-GoesOn input f r =
        then_Each (λ g. IsReady (b ∷ later) g.state)
          (λ g done. IsReady (b ∷ later) g.state × HandsOnDone e i b.config input g done) GoesOn
          (attempt_block e i b input f) (λ g x. ended e i (block_raised e i b x g))
          (λ g done.
            complete_block e i b (output_ref e i (kind (type_of b.config)) done.0 input) done.1 g)
          (λ g x h. ended-GoesOn (block_raised e i b x g) (block_raised-HasOutcome x g h))
          (λ g done h. rw h.1.1 (complete_block-GoesOn h.1.0 done.1 g h.0))
          (both (attempt_block e i b input f) (attempt_block_Handed e i b input f)
            (IsReady-kept (b ∷ later) f.state _ (attempt_block-To e i b input f) r))
      where
        both :
            (o : Flow × Called (List StoredObject × Option (ℕ × ℕ)))
            → Each Anything (HandsOnDone e i b.config input) o
            → IsReady (b ∷ later) o.0.state
            → Each
                (λ g. IsReady (b ∷ later) g.state)
                (λ g done. IsReady (b ∷ later) g.state × HandsOnDone e i b.config input g done)
                o
        both (g, threw x) h q = q
        both (g, got done) h q = (q, h)

    after_status-GoesOn :
        (input : Option ℕ) (f : Flow) (status : RunStatus)
        → IsReady (b ∷ later) f.state
        → GoesOn (after_status e i b input f status)
    after_status-GoesOn input f RunStatus.running r = run_started-GoesOn input f r
    after_status-GoesOn input f RunStatus.completed r =
        ended-GoesOn (cancel e i f) (cancel-HasOutcome f r.0)
    after_status-GoesOn input f RunStatus.failed r =
        ended-GoesOn (cancel e i f) (cancel-HasOutcome f r.0)
    after_status-GoesOn input f RunStatus.cancelled r =
        ended-GoesOn (cancel e i f) (cancel-HasOutcome f r.0)

    run_block-GoesOn : (f : Flow) → IsReady (b ∷ later) f.state → GoesOn (run_block e i b f)
    unfolding run_block
    run_block-GoesOn f r =
        let input = input_of e i b f in
        let m = record (block_input b.id MirrorStatus.running) { input_ref = input } in
        if_ind GoesOn f.cancel_requested _ _ (ended-GoesOn (cancel e i f) (cancel-HasOutcome f r.0))
          (then_Each (λ g. ⊥) (λ g status. IsReady (b ∷ later) g.state) GoesOn
            (mirror_block m (e.at b.id).start f) (λ g x. (g, some (escaped x)))
            (λ g status. after_status e i b input g status) (λ g x h. absurd h)
            (λ g status h. after_status-GoesOn input g status h)
            (mirror_block-Answered b later m (e.at b.id).start f refl own.0 r))

  run_blocks-HasOutcome :
      (bs : List RunBlock) (f : Flow)
      → All (BlockAnswered e) bs
      → IsReady bs f.state
      → HasOutcome (run_blocks e i bs f)
  unfolding run_blocks
  run_blocks-HasOutcome [] f h r =
      then_Each (λ g. ⊥) (λ g status. Unit) HasOutcome
        (mirror_run Outcome.completed f.result_path f.wall e.ending f) (λ g x. (g, escaped x))
        (λ g status. (g, returned f.result_path)) (λ g x h. absurd h) (λ g status h. tt)
        (mirror_run-Answered Outcome.completed f.result_path f.wall e.ending f ending r.0)
  run_blocks-HasOutcome (b ∷ later) f h r =
      go (run_block e i b f) (run_block-GoesOn b later h.0 f r)
        (λ g. run_blocks-HasOutcome later g h.1)
    where
      go :
          (o : Flow × Option Result)
          → GoesOn b later h.0 o
          → ((g : Flow) → IsReady later g.state → HasOutcome (run_blocks e i later g))
          → HasOutcome (next_block e i o.0 o.1 (run_blocks e i later o.0))
      go (g, none) q rest = rest g q
      go (g, some r) q rest = q

-- Where every mirror is answered and no cancel comes at the very end of one, a run with one row for
-- each block ends with an outcome: no exception escapes, whatever its activities do.
pub run-HasOutcome :
    (e : Env) (i : PipelineRunInput) (s : State)
    → All (BlockAnswered e) i.blocks
    → IsAnswered e.ending
    → IsReady i.blocks s
    → HasOutcome (run e i s)
unfolding run
run-HasOutcome e i s h ending r = run_blocks-HasOutcome e i ending i.blocks (initial e i s) h r
