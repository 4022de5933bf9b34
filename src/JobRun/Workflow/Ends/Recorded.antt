-- ===== src/JobRun/Workflow/Ends/Recorded.antt =====
-- What the calls of the activities leave to the stage that follows.
use scrapeflow.Base.{
  ℕ, ◌≡◌, ◌∙◌, refl, sym, true, ◌||◌, Option, List, [], ◌∷◌, arith, contains, update, Option-cases,
  ==_iff, inl, inr,
}
use scrapeflow.Quota.{Settings}
use scrapeflow.Ledger.{Minio}
use scrapeflow.JobRun.Running.{
  State, Status, RunState, StoredObject, paths, RecordJobObjectsInput, job_run_started,
  job_run_processing, record_job_objects, discard_unrecorded, is_active,
}
use scrapeflow.JobRun.Objects.{HoldsOnly, IsClean, record_job_objects-IsClean}
use scrapeflow.JobRun.Workflow.{
  Env, Result, store, recording, Call, answers, raises_before, raises_after,
}
use scrapeflow.JobRun.Workflow.{run}
use scrapeflow.JobRun.Workflow.Ends.{Phase, state_of, Ends, fail-Ends, IsOrderly}

HoldsOnly-weaken : (keys : List ℕ) (s : State) → IsClean s → HoldsOnly keys s
HoldsOnly-weaken keys s h k held = ground (arith, h k)

store_ledger : (objects : List StoredObject) (s : State) → (store objects s).ledger ≡ s.ledger
unfolding store
store_ledger [] s = refl
store_ledger (o ∷ os) s = store_ledger os (record s { bucket = update s.bucket o.path true })

store_run : (objects : List StoredObject) (s : State) → (store objects s).run ≡ s.run
unfolding store
store_run [] s = refl
store_run (o ∷ os) s = store_run os (record s { bucket = update s.bucket o.path true })

store_bucket :
    (objects : List StoredObject) (s : State) (k : ℕ)
    → (store objects s).bucket k ≡ (contains k (paths objects) || s.bucket k)
unfolding store
store_bucket [] s k = refl
store_bucket (o ∷ os) s k = ground (
  arith,
  store_bucket os (record s { bucket = update s.bucket o.path true }) k,
  ==_iff k o.path,
  ==_iff o.path k,
)

-- What the worker stored is all that is not yet charged.
pub store-HoldsOnly :
    (objects : List StoredObject) (s : State)
    → IsClean s
    → HoldsOnly (paths objects) (store objects s)
store-HoldsOnly objects s h k held =
    rw (store_ledger objects s) (ground (arith, h k, store_bucket objects s k))

pub store-Phase :
    (objects : List StoredObject) (s : State) (st : Status)
    → Phase st s
    → Phase st (store objects s)
store-Phase objects s st h run e = h run (sym (store_run objects s) ∙ e)

module _ (settings : Settings) (m : Minio) (i : RecordJobObjectsInput) (now : ℕ) (s : State) where
  record_job_objects-Phase :
      (st : Status) → Phase st s → Phase st (record_job_objects settings m i now s).0
  unfolding record_job_objects discard_unrecorded
  record_job_objects-Phase st h run e = elim (Option-cases s.run) [
    | inl n ↦ ground arith
    | inr (r, n) ↦ ground (arith, h r n)
  ]

  record_job_objects_state :
      (record_job_objects settings m i now s).1
      ≡ state_of (record_job_objects settings m i now s).0.run
  unfolding record_job_objects discard_unrecorded
  record_job_objects_state = ground arith

module _ (now : ℕ) (s : State) where
  pub started_state : (job_run_started now s).1 ≡ state_of (job_run_started now s).0.run
  unfolding job_run_started
  started_state = ground arith

  pub processing_state : (job_run_processing now s).1 ≡ state_of (job_run_processing now s).0.run
  unfolding job_run_processing
  processing_state = ground arith

  pub job_run_started-Phase :
      Phase Status.pending s → Phase Status.running (job_run_started now s).0
  unfolding job_run_started
  job_run_started-Phase h run e = elim (Option-cases s.run) [
    | inl n ↦ ground arith
    | inr (r, n) ↦ ground (arith, h r n)
  ]

  pub job_run_processing-Phase :
      Phase Status.running s → Phase Status.processing (job_run_processing now s).0
  unfolding job_run_processing
  job_run_processing-Phase h run e = elim (Option-cases s.run) [
    | inl n ↦ ground arith
    | inr (r, n) ↦ ground (arith, h r n)
  ]

  pub job_run_started-IsClean : IsClean s → IsClean (job_run_started now s).0
  unfolding job_run_started
  job_run_started-IsClean h k held = ground (arith, h k)

  pub job_run_processing-IsClean : IsClean s → IsClean (job_run_processing now s).0
  unfolding job_run_processing
  job_run_processing-IsClean h k held = ground (arith, h k)

-- What a stage may assume of the state and the answer that it gets.
pub record Reached (st : Status) (o : State × RunState) : Type 0 where
  pub clean : IsClean o.0
  pub phase : Phase st o.0
  pub answer : o.1 ≡ state_of o.0.run

module _ (e : Env) (ok : IsOrderly e) (st : Status) (active : is_active st ≡ true) where
  pub recording-Ends :
      (call : Call) (objects : List StoredObject) (hash : Option ℕ)
      (next : State × RunState → State × Result) (s : State)
      → HoldsOnly (paths objects) s
      → Phase st s
      → ((o : State × RunState) → Reached st o → Ends (next o))
      → Ends (recording e call objects hash next s)
  unfolding recording
  recording-Ends answers objects hash next s h ph go =
      let i : RecordJobObjectsInput = record { objects = objects; content_hash = hash } in
      go (record_job_objects e.settings e.minio i e.now s) (record {
        clean = record_job_objects-IsClean e.settings e.minio i e.now s ok.removes h;
        phase = record_job_objects-Phase e.settings e.minio i e.now s st ph;
        answer = record_job_objects_state e.settings e.minio i e.now s;
      })
  recording-Ends raises_before objects hash next s h ph go = fail-Ends e ok _ (paths objects) s h
  recording-Ends raises_after objects hash next s h ph go =
      let i : RecordJobObjectsInput = record { objects = objects; content_hash = hash } in
      let t = (record_job_objects e.settings e.minio i e.now s).0 in
      fail-Ends e ok _ (paths objects) t (
        HoldsOnly-weaken (paths objects) t
          (record_job_objects-IsClean e.settings e.minio i e.now s ok.removes h))
