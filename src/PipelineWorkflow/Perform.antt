-- ===== src/PipelineWorkflow/Perform.antt =====
-- One block's activity: what it meets, and the charge of what it stored (api/app/workflows/pipeline.py).
use scrapeflow.Base.{ℕ, true, not, Option, none, some, List, [], ◌∷◌, leb, if◌then◌else◌}
use scrapeflow.Catalog.{
  scrape_config, clean_config, llm_extract_config, validate_config, webhook_config, Timing, timing,
}
use scrapeflow.PipelineMirror.{StoredObject, record_storage}
use scrapeflow.PipelineMirror.Mirrors.{State}
use scrapeflow.Temporal.{cancelled_error, application_error, Called, got, threw, commits}
use scrapeflow.WebhookBlock.{WebhookInput, attempts_from}
use scrapeflow.PipelineWorkflow.Calls.{
  Env, Flow, PipelineRunInput, RunBlock, call_db, finish, key_error, no_input, nothing, one,
  scraped,
}

module _ (e : Env) (i : PipelineRunInput) where
  abbrev pub webhook_input : ℕ → ℕ → Timing → WebhookInput
  webhook_input id path t = record {
    block_id = id;
    result_path = path;
    maximum_attempts = t.maximum_attempts;
  }

  -- The block's activity, called with what is left of the budget.
  unfoldable pub activity : RunBlock → Option ℕ → State → State × Called (List StoredObject)
  unfolding attempts_from timing
  activity b input_ref s =
      let env = e.at b.id in
      elim b.config [
        | scrape_config c ↦ (s, if i.has_url b.id then scraped env.scrape else key_error)
        | llm_extract_config c ↦ elim input_ref [
          | none ↦ (s, no_input "llm_extract")
          | some path ↦ (s, if i.has_llm_key c.llm_key_id then one env.extract else key_error)
        ]
        | clean_config ↦ elim input_ref [
          | none ↦ (s, no_input "clean")
          | some path ↦ (s, one env.clean)
        ]
        | validate_config rules ↦ elim input_ref [
          | none ↦ (s, no_input "validate")
          | some path ↦ (s, nothing env.validate)
        ]
        | webhook_config c ↦ elim input_ref [
          | none ↦ (s, no_input "webhook")
          | some path ↦
              let (s', sent, outcome) =
                attempts_from e.str (webhook_input b.id path (timing b.config)) 1 env.attempts s in
              (s', nothing outcome)
        ]
      ]

  -- _execute
  unfoldable pub execute : RunBlock → Option ℕ → Flow → Flow × Called (List StoredObject)
  unfolding activity commits
  execute b input_ref f =
      let env = e.at b.id in
      let f' = record f { state = commits env.meanwhile f.state } in
      if leb e.deadline env.now
      then (f', threw (application_error "the run's time budget is spent"))
      else if not (i.has_artifact b.id)
      then (f', key_error)
      else let (s, c) = activity b input_ref f'.state in (record f' { state = s }, c)

  -- _scrape_in_host_slot; the release itself never raises.
  unfoldable pub scrape_in_host_slot :
      RunBlock → Option ℕ → Flow → Flow × Called (List StoredObject)
  unfolding execute finish
  scrape_in_host_slot b input_ref f =
      let env = e.at b.id in
      let done = finish env.releasing (finish env.waiting (execute b input_ref f)) in
      if not (i.has_url b.id)
      then (f, key_error)
      else if env.host_cancelled
      then (record f { cancel_requested = true }, threw cancelled_error)
      else done

  unfoldable pub perform : RunBlock → Option ℕ → Flow → Flow × Called (List StoredObject)
  unfolding scrape_in_host_slot execute finish
  perform b input_ref f =
      let env = e.at b.id in
      elim b.config [
        | scrape_config c ↦
            if env.host_slot
            then scrape_in_host_slot b input_ref f
            else finish env.waiting (execute b input_ref f)
        | _ ↦ finish env.waiting (execute b input_ref f)
      ]

  abbrev pub charged :
      List StoredObject → Called (ℕ × ℕ) → Called (List StoredObject × Option (ℕ × ℕ))
  charged objects (got usage) = got (objects, some usage)
  charged objects (threw x) = threw x

  unfoldable pub charge_objects :
      RunBlock → Flow → List StoredObject → Flow × Called (List StoredObject × Option (ℕ × ℕ))
  unfolding call_db
  charge_objects b f [] = (f, got ([], none))
  charge_objects b f (o ∷ os) =
      let (f', c) = call_db (record_storage e.settings b.id (o ∷ os)) (e.at b.id).storage f in
      (f', charged (o ∷ os) c)

  -- The body of run's `try`.
  unfoldable pub attempt_block :
      RunBlock → Option ℕ → Flow → Flow × Called (List StoredObject × Option (ℕ × ℕ))
  unfolding perform charge_objects
  attempt_block b input_ref f =
      let (f', c) = perform b input_ref f in
      elim c [ threw x ↦ (f', threw x) | got objects ↦ charge_objects b f' objects ]
