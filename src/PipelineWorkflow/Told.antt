-- ===== src/PipelineWorkflow/Told.antt =====
-- What the end of a run tells of its row, and the mirrors that leave it so.
use scrapeflow.Base.{◌≢◌, arith, ℕ, ◌≡◌, refl, String, Option, none, some}
use scrapeflow.PipelineMirror.Mirrors.{
  RunStatus, State, Answer, MirrorBlockInput, mirror_run_status, Outcome,
}
use scrapeflow.Temporal.{
  commits, Exc, Called, got, threw, DbCall, Ending, answers, timed_out, timed_out_after, db,
}
use scrapeflow.PipelineWorkflow.Calls.{
  Waiting, quiet, noted, at_end, Mirroring, Flow, Result, returned, escaped, finish, call_db,
  mirror_block, mirror_run, application_failure,
}
use scrapeflow.PipelineWorkflow.Refines.{mirror_block-To}
use scrapeflow.Temporal.Commits.{Reaches-commits}
use scrapeflow.PipelineWorkflow.Calls.{stuck}
use scrapeflow.PipelineWorkflow.Produces.{Each, Anything}
use scrapeflow.PipelineMirror.Reaches.{IsRunning, Reaches-IsRunning}
use scrapeflow.PipelineMirror.Mirrors.{PipelineRun, MirrorRunInput, finished, run_status}

abbrev kept : Outcome → Option ℕ → Option ℕ
kept o path = elim o [ Outcome.completed ↦ path | _ ↦ none ]

abbrev told_error : Outcome → Option String → Option String
told_error o error = elim o [ Outcome.cancelled ↦ none | _ ↦ error ]

abbrev pub EndedAs : Outcome → Option ℕ → Option String → State → Type 0
EndedAs o path error s =
    (row : PipelineRun) × (s.run ≡ some row)
    × (row.status ≡ run_status o)
    × (row.result_path ≡ kept o path)
    × (row.error ≡ told_error o error)

abbrev pub WhenGot : {A : Type 0} → (State → Type 0) → Flow × Called A → Type 0
WhenGot P o = Each Anything (λ g a. P g.state) o

-- What the row says for each result of the workflow. An exception that escaped tells nothing.
abbrev pub Told : Flow × Result → Type 0
Told (f, returned (some path)) =
    (row : PipelineRun) × (f.state.run ≡ some row)
    × (row.status ≡ RunStatus.completed)
    × (row.result_path ≡ some path)
Told (f, returned none) =
    (row : PipelineRun) × (f.state.run ≡ some row)
    × (row.status ≢ RunStatus.running)
    × (row.result_path ≡ none)
Told (f, application_failure message) =
    (row : PipelineRun) × (f.state.run ≡ some row)
    × (row.status ≡ RunStatus.failed)
    × (row.error ≡ some message)
Told (f, Result.cancelled) =
    (row : PipelineRun) × (f.state.run ≡ some row) × (row.status ≡ RunStatus.cancelled)
Told (f, escaped x) = Unit
Told (f, stuck) = ⊥

pub finish-WhenGot :
    {A : Type 0} (P : State → Type 0) (w : Waiting) (f : Flow) (c : Called A)
    → WhenGot P (f, c)
    → WhenGot P (finish w (f, c))
unfolding finish
finish-WhenGot P quiet f c h = h
finish-WhenGot P noted f (got a) h = h
finish-WhenGot P noted f (threw x) h = tt
finish-WhenGot P at_end f c h = tt

module _ (o : Outcome) (path : Option ℕ) (error : Option String) where
  abbrev pub outcome : MirrorRunInput
  outcome = record { status = o; result_path = path; error = error }

  module _ (now : ℕ) (s : State) (r : IsRunning s) where
    pub answer : (mirror_run_status outcome now s).1 ≡ Answer.returned (run_status o)
    unfolding mirror_run_status finished
    answer = ground (arith, r.1, r.2)

    row : (mirror_run_status outcome now s).0.run ≡ some (finished o outcome now r.0)
    unfolding mirror_run_status
    row = ground (arith, r.1, r.2)

    mirror_run_ended : EndedAs o path error (mirror_run_status outcome now s).0
    unfolding finished
    mirror_run_ended = (finished o outcome now r.0, row, refl, by_outcome o, error_by_outcome o)
      where
        by_outcome : (o : Outcome) → (finished o outcome now r.0).result_path ≡ kept o path
        by_outcome Outcome.completed = refl
        by_outcome Outcome.failed = refl
        by_outcome Outcome.cancelled = refl

        error_by_outcome : (o : Outcome) → (finished o outcome now r.0).error ≡ told_error o error
        error_by_outcome Outcome.completed = refl
        error_by_outcome Outcome.failed = refl
        error_by_outcome Outcome.cancelled = refl

  mirror_ended :
      (c : DbCall) (ending : Ending) (f : Flow)
      → IsRunning f.state
      → let (s, answered) =
          db (mirror_run_status outcome c.now) (record c { ending = ending }) f.state in
        WhenGot (EndedAs o path error) (record f { state = s }, answered)
  unfolding db
  mirror_ended c answers f r =
      let s = commits c.meanwhile f.state in
      let r' = Reaches-IsRunning f.state s (Reaches-commits f.state c.meanwhile) r in
      rw (answer c.now s r') (mirror_run_ended c.now s r')
  mirror_ended c timed_out f r = tt
  mirror_ended c timed_out_after f r = tt

  pub mirror_run-WhenGot :
      (m : Mirroring) (f : Flow)
      → IsRunning f.state
      → WhenGot (EndedAs o path error) (mirror_run o path error m f)
  unfolding mirror_run call_db
  mirror_run-WhenGot m f r =
      let (s, answered) = db (mirror_run_status outcome m.call.now) m.call f.state in
      finish-WhenGot (EndedAs o path error) m.waiting (record f { state = s }) answered
        (mirror_ended m.call m.call.ending f r)

-- A block has ended the run, or the run goes on.
abbrev pub TellsOrRuns : Flow × Option Result → Type 0
TellsOrRuns (f, none) = IsRunning f.state
TellsOrRuns (f, some r) = Told (f, r)

pub then_Each :
    {A B : Type 0} (T : Flow → Type 0) (G : Flow → A → Type 0) (Q : Flow × B → Type 0)
    (o : Flow × Called A) (threw_to : Flow → Exc → Flow × B) (next : Flow → A → Flow × B)
    → ((g : Flow) (x : Exc) → T g → Q (threw_to g x))
    → ((g : Flow) (a : A) → G g a → Q (next g a))
    → Each T G o
    → Q (elim o.1 [ threw x ↦ threw_to o.0 x | got a ↦ next o.0 a ])
then_Each T G Q (g, threw x) t n ht hn h = ht g x h
then_Each T G Q (g, got a) t n ht hn h = hn g a h

abbrev pub Runs : Flow → Type 0
Runs g = IsRunning g.state

pub Each-Runs :
    {A : Type 0} (o : Flow × Called A) → IsRunning o.0.state → Each Runs (λ g a. Runs g) o
Each-Runs (g, threw x) h = h
Each-Runs (g, got a) h = h

pub mirror_block-Runs :
    (m : MirrorBlockInput) (c : Mirroring) (f : Flow)
    → IsRunning f.state
    → Each Runs (λ g status. Runs g) (mirror_block m c f)
mirror_block-Runs m c f r =
    let done = mirror_block m c f in
    Each-Runs done (Reaches-IsRunning f.state done.0.state (mirror_block-To m c f) r)

pub completed-Told :
    (path : Option ℕ) (error : Option String) (g : Flow)
    → EndedAs Outcome.completed path error g.state
    → Told (g, returned path)
completed-Told none error g h = (h.0, h.1, (λ b. cc), h.3)
completed-Told (some path) error g h = (h.0, h.1, h.2, h.3)
