-- ===== src/PipelineWorkflow/Ends.antt =====
-- What the row says when the workflow has ended.
use scrapeflow.Base.{ℕ, if◌then◌else◌, if_ind, String, Option, none, some, List, [], ◌∷◌}
use scrapeflow.Catalog.{type_of, kind, timing}
use scrapeflow.PipelineMirror.{StoredObject}
use scrapeflow.PipelineMirror.Mirrors.{RunStatus, State, MirrorStatus, Outcome}
use Prim.Native.String.{◌++◌ as ◌<>◌}
use scrapeflow.Temporal.{Exc, Called, got, threw, is_cancellation, failure_message}
use scrapeflow.PipelineWorkflow.{
  cancel, cancelled_block, failed_run, failed_block, block_raised, complete_block, run_started,
  run_block, run_blocks, run, initial, ended, after_status, next_block, input_of, fail_input,
  output_ref, with_output,
}
use scrapeflow.PipelineWorkflow.Perform.{attempt_block}
use scrapeflow.PipelineWorkflow.Calls.{
  RunBlock, PipelineRunInput, Env, Flow, Result, returned, escaped, mirror_block, mirror_run,
  application_failure, block_input,
}
use scrapeflow.PipelineWorkflow.Refines.{attempt_block-To}
use scrapeflow.PipelineWorkflow.{after_status, next_block}
use scrapeflow.PipelineWorkflow.Produces.{HandsOnDone, attempt_block_Handed, Each, Anything}
use scrapeflow.PipelineMirror.Reaches.{IsRunning, Reaches-IsRunning}
use scrapeflow.PipelineWorkflow.Told.{
  EndedAs, Runs, TellsOrRuns, Told, completed-Told, mirror_block-Runs, mirror_run-WhenGot,
  then_Each,
}

module _ (e : Env) (i : PipelineRunInput) where
  cancel-Told : (f : Flow) → IsRunning f.state → Told (cancel e i f)
  unfolding cancel
  cancel-Told f r =
      then_Each Anything (λ g status. EndedAs Outcome.cancelled none none g.state) Told
        (mirror_run Outcome.cancelled none none e.ending f) (λ g x. (g, escaped x))
        (λ g status. (g, if g.cancel_requested then Result.cancelled else returned none))
        (λ g x h. tt)
        (λ g status h.
          if_ind (λ result. Told (g, result)) g.cancel_requested _ _ (h.0, h.1, h.2)
            (h.0, h.1, (λ b. cc), h.3))
        (mirror_run-WhenGot Outcome.cancelled none none e.ending f r)

  cancelled_block-Told :
      (b : RunBlock) (f : Flow) → IsRunning f.state → Told (cancelled_block e i b f)
  unfolding cancelled_block
  cancelled_block-Told b f r =
      let failing = fail_input e i b.id "cancelled before it finished" in
      then_Each Runs (λ g status. Runs g) Told (mirror_block failing (e.at b.id).fail f)
        (λ g x. (g, escaped x)) (λ g status. cancel e i g) (λ g x h. tt)
        (λ g status h. cancel-Told g h) (mirror_block-Runs failing (e.at b.id).fail f r)

  failed_run-Told : (error : String) (f : Flow) → IsRunning f.state → Told (failed_run e i error f)
  unfolding failed_run
  failed_run-Told error f r =
      then_Each Anything (λ g status. EndedAs Outcome.failed none (some error) g.state) Told
        (mirror_run Outcome.failed none (some error) e.ending f) (λ g x. (g, escaped x))
        (λ g status. (g, application_failure error)) (λ g x h. tt)
        (λ g status h. (h.0, h.1, h.2, h.4))
        (mirror_run-WhenGot Outcome.failed none (some error) e.ending f r)

  failed_block-Told :
      (b : RunBlock) (x : Exc) (f : Flow) → IsRunning f.state → Told (failed_block e i b x f)
  unfolding failed_block
  failed_block-Told b x f r =
      let message = failure_message e.str x (timing b.config).maximum_attempts in
      let error = e.str b.id <> (": " <> message) in
      then_Each Runs (λ g status. Runs g) Told
        (mirror_block (fail_input e i b.id message) (e.at b.id).fail f) (λ g x. (g, escaped x))
        (λ g status. failed_run e i error g) (λ g x h. tt) (λ g status h. failed_run-Told error g h)
        (mirror_block-Runs (fail_input e i b.id message) (e.at b.id).fail f r)

  block_raised-Told :
      (b : RunBlock) (x : Exc) (f : Flow) → IsRunning f.state → Told (block_raised e i b x f)
  unfolding block_raised
  block_raised-Told b x f r =
      if_ind Told (is_cancellation x) _ _ (cancelled_block-Told b f r) (failed_block-Told b x f r)

  complete_block-Told :
      (b : RunBlock) (ref : ℕ) (usage : Option (ℕ × ℕ)) (f : Flow)
      → IsRunning f.state
      → TellsOrRuns (complete_block e i b (some ref) usage f)
  unfolding complete_block
  complete_block-Told b ref usage f r =
      let m = record (block_input b.id MirrorStatus.completed) { output_ref = some ref } in
      let g = with_output e i b ref usage f in
      then_Each Runs (λ g status. Runs g) TellsOrRuns (mirror_block m (e.at b.id).complete g)
        (λ h x. (h, some (escaped x))) (λ h status. (h, none)) (λ h x q. tt) (λ h status q. q)
        (mirror_block-Runs m (e.at b.id).complete g r)

  ended-Told : (o : Flow × Result) → Told o → TellsOrRuns (ended e i o)
  ended-Told (f, r) h = h

  run_started-Told :
      (b : RunBlock) (input : Option ℕ) (f : Flow)
      → IsRunning f.state
      → TellsOrRuns (run_started e i b input f)
  unfolding run_started
  run_started-Told b input f r =
      then_Each Runs (λ g done. Runs g × HandsOnDone e i b.config input g done) TellsOrRuns
        (attempt_block e i b input f) (λ g x. ended e i (block_raised e i b x g))
        (λ g done.
          complete_block e i b (output_ref e i (kind (type_of b.config)) done.0 input) done.1 g)
        (λ g x h. ended-Told (block_raised e i b x g) (block_raised-Told b x g h))
        (λ g done h. rw h.1.1 (complete_block-Told b h.1.0 done.1 g h.0))
        (both (attempt_block e i b input f) (attempt_block_Handed e i b input f)
          (Reaches-IsRunning f.state _ (attempt_block-To e i b input f) r))
    where
      both :
          (o : Flow × Called (List StoredObject × Option (ℕ × ℕ)))
          → Each Anything (HandsOnDone e i b.config input) o
          → IsRunning o.0.state
          → Each Runs (λ g done. Runs g × HandsOnDone e i b.config input g done) o
      both (g, threw x) h q = q
      both (g, got done) h q = (q, h)

  after_status-Told :
      (b : RunBlock) (input : Option ℕ) (f : Flow) (status : RunStatus)
      → IsRunning f.state
      → TellsOrRuns (after_status e i b input f status)
  after_status-Told b input f RunStatus.running r = run_started-Told b input f r
  after_status-Told b input f RunStatus.completed r = ended-Told (cancel e i f) (cancel-Told f r)
  after_status-Told b input f RunStatus.failed r = ended-Told (cancel e i f) (cancel-Told f r)
  after_status-Told b input f RunStatus.cancelled r = ended-Told (cancel e i f) (cancel-Told f r)

  run_block-Told : (b : RunBlock) (f : Flow) → IsRunning f.state → TellsOrRuns (run_block e i b f)
  unfolding run_block
  run_block-Told b f r =
      let input = input_of e i b f in
      let m = record (block_input b.id MirrorStatus.running) { input_ref = input } in
      if_ind TellsOrRuns f.cancel_requested _ _ (ended-Told (cancel e i f) (cancel-Told f r)) (
        then_Each Runs (λ g status. Runs g) TellsOrRuns (mirror_block m (e.at b.id).start f)
          (λ g x. (g, some (escaped x))) (λ g status. after_status e i b input g status)
          (λ g x h. tt) (λ g status h. after_status-Told b input g status h)
          (mirror_block-Runs m (e.at b.id).start f r))

  run_blocks-Told : (bs : List RunBlock) (f : Flow) → IsRunning f.state → Told (run_blocks e i bs f)
  unfolding run_blocks
  run_blocks-Told [] f r =
      then_Each Anything (λ g status. EndedAs Outcome.completed f.result_path f.wall g.state) Told
        (mirror_run Outcome.completed f.result_path f.wall e.ending f) (λ g x. (g, escaped x))
        (λ g status. (g, returned f.result_path)) (λ g x h. tt)
        (λ g status h. completed-Told f.result_path f.wall g h)
        (mirror_run-WhenGot Outcome.completed f.result_path f.wall e.ending f r)
  run_blocks-Told (b ∷ later) f r =
      go (run_block e i b f) (run_block-Told b f r) (λ g. run_blocks-Told later g)
    where
      go :
          (o : Flow × Option Result)
          → TellsOrRuns o
          → ((g : Flow) → IsRunning g.state → Told (run_blocks e i later g))
          → Told (next_block e i o.0 o.1 (run_blocks e i later o.0))
      go (g, none) h rest = rest g h
      go (g, some r) h rest = h

  -- A run that is running when the workflow starts, and which nobody but the workflow and the API's
  -- cancel writes, ends as the workflow's result says, unless the exception of a mirror escapes:
  -- with a result path, the row is completed and carries it; with a failure, it is failed and carries
  -- the message; cancelled, it is cancelled; and without a result, it is over and carries none. The
  -- workflow never gets stuck on its assertion.
  pub run-Told : (s : State) → IsRunning s → Told (run e i s)
  unfolding run
  run-Told s r = run_blocks-Told i.blocks (initial e i s) r
