-- ===== src/PipelineWorkflow/Produces.antt =====
-- What a block that ran hands on.
use scrapeflow.Base.{ℕ, ◌≡◌, refl, not, leb, if_ind, Option, none, some, List, [], ◌∷◌}
use scrapeflow.Catalog.{
  Config, scrape_config, clean_config, llm_extract_config, validate_config, webhook_config,
  ScrapeConfig, content, effect, type_of, kind, timing,
}
use scrapeflow.PipelineMirror.{record_storage, StoredObject}
use scrapeflow.Temporal.{commits, Called, got, threw}
use scrapeflow.WebhookBlock.{attempts_from}
use scrapeflow.PipelineWorkflow.{output_ref}
use scrapeflow.PipelineWorkflow.Perform.{
  charged, activity, execute, scrape_in_host_slot, perform, charge_objects, attempt_block,
  webhook_input,
}
use scrapeflow.PipelineWorkflow.Calls.{
  one, nothing, scraped, ScrapeOutput, RunBlock, PipelineRunInput, Waiting, quiet, noted, at_end,
  Env, Flow, finish, call_db,
}

-- How a call ended, with the flow it left: by an exception, or with an answer.
abbrev pub Each : {A : Type 0} → (Flow → Type 0) → (Flow → A → Type 0) → Flow × Called A → Type 0
Each T G (g, threw x) = T g
Each T G (g, got a) = G g a

abbrev pub Anything : Flow → Type 0
Anything g = Unit

-- A content block stored an object; another block has an input to pass on.
abbrev pub HandsOn : Env → PipelineRunInput → Config → Option ℕ → Flow → List StoredObject → Type 0
HandsOn e i c input g os = (ref : ℕ) × (output_ref e i (kind (type_of c)) os input ≡ some ref)

module _ (e : Env) (i : PipelineRunInput) (c : Config) (input : Option ℕ) where
  abbrev pub Handed : Flow × Called (List StoredObject) → Type 0
  Handed o = Each Anything (HandsOn e i c input) o

  finish-Handed :
      (w : Waiting) (o : Flow × Called (List StoredObject)) → Handed o → Handed (finish w o)
  unfolding finish
  finish-Handed quiet o h = h
  finish-Handed noted (g, threw x) h = tt
  finish-Handed noted (g, got os) h = h
  finish-Handed at_end o h = tt

module _ (e : Env) (i : PipelineRunInput) where
  scraped-Handed :
      (c : ScrapeConfig) (input : Option ℕ) (f : Flow) (out : Called ScrapeOutput)
      → Handed e i (scrape_config c) input (f, scraped out)
  scraped-Handed c input f (got o) = (o.result.path, refl)
  scraped-Handed c input f (threw x) = tt

  nothing-Handed :
      (c : Config) (path : ℕ) (f : Flow) (out : Called (Unit {0}))
      → kind (type_of c) ≡ effect
      → Handed e i c (some path) (f, nothing out)
  nothing-Handed c path f (got u) h = (path, rw h refl)
  nothing-Handed c path f (threw x) h = tt

  one-Handed :
      (c : Config) (input : Option ℕ) (f : Flow) (out : Called StoredObject)
      → kind (type_of c) ≡ content
      → Handed e i c input (f, one out)
  one-Handed c input f (got o) h = (o.path, rw h refl)
  one-Handed c input f (threw x) h = tt

  activity-Handed :
      (b : RunBlock) (c : Config) (input : Option ℕ) (f : Flow)
      → let (s, done) = activity e i (record b { config = c }) input f.state in
        Handed e i c input (record f { state = s }, done)
  unfolding activity
  activity-Handed b (scrape_config c) input f =
      if_ind (λ out. Handed e i (scrape_config c) input (f, out)) (i.has_url b.id) _ _
        (scraped-Handed c input f (e.at b.id).scrape) tt
  activity-Handed b (llm_extract_config c) none f = tt
  activity-Handed b (llm_extract_config c) (some path) f =
      if_ind (λ out. Handed e i (llm_extract_config c) (some path) (f, out))
        (i.has_llm_key c.llm_key_id) _ _
        (one-Handed (llm_extract_config c) (some path) f (e.at b.id).extract refl) tt
  activity-Handed b clean_config none f = tt
  activity-Handed b clean_config (some path) f =
      one-Handed clean_config (some path) f (e.at b.id).clean refl
  activity-Handed b (validate_config rules) none f = tt
  activity-Handed b (validate_config rules) (some path) f =
      nothing-Handed (validate_config rules) path f (e.at b.id).validate refl
  activity-Handed b (webhook_config c) none f = tt
  activity-Handed b (webhook_config c) (some path) f =
      let (s, sent, outcome) =
        attempts_from e.str (webhook_input e i b.id path (timing (webhook_config c))) 1
          (e.at b.id).attempts f.state in
      nothing-Handed (webhook_config c) path (record f { state = s }) outcome refl

  execute-Handed :
      (b : RunBlock) (c : Config) (input : Option ℕ) (f : Flow)
      → Handed e i c input (execute e i (record b { config = c }) input f)
  unfolding execute
  execute-Handed b c input f =
      let env = e.at b.id in
      let g : Flow = record f { state = commits env.meanwhile f.state } in
      if_ind (Handed e i c input) (leb e.deadline env.now) _ _ tt (
        if_ind (Handed e i c input) (not (i.has_artifact b.id)) _ _ tt
          (activity-Handed b c input g))

  perform-Handed :
      (b : RunBlock) (c : Config) (input : Option ℕ) (f : Flow)
      → Handed e i c input (perform e i (record b { config = c }) input f)
  unfolding perform scrape_in_host_slot
  perform-Handed b (scrape_config c) input f =
      let env = e.at b.id in
      let done =
        finish-Handed e i (scrape_config c) input env.waiting _
          (execute-Handed b (scrape_config c) input f) in
      if_ind (Handed e i (scrape_config c) input) env.host_slot _ _
        (if_ind (Handed e i (scrape_config c) input) (not (i.has_url b.id)) _ _ tt (
          if_ind (Handed e i (scrape_config c) input) env.host_cancelled _ _ tt
            (finish-Handed e i (scrape_config c) input env.releasing _ done)))
        done
  perform-Handed b clean_config input f =
      finish-Handed e i clean_config input (e.at b.id).waiting _
        (execute-Handed b clean_config input f)
  perform-Handed b (llm_extract_config c) input f =
      finish-Handed e i (llm_extract_config c) input (e.at b.id).waiting _
        (execute-Handed b (llm_extract_config c) input f)
  perform-Handed b (validate_config rules) input f =
      finish-Handed e i (validate_config rules) input (e.at b.id).waiting _
        (execute-Handed b (validate_config rules) input f)
  perform-Handed b (webhook_config c) input f =
      finish-Handed e i (webhook_config c) input (e.at b.id).waiting _
        (execute-Handed b (webhook_config c) input f)

  abbrev pub HandsOnDone : Config → Option ℕ → Flow → List StoredObject × Option (ℕ × ℕ) → Type 0
  HandsOnDone c input g done = HandsOn e i c input g done.0

  charged_Handed :
      (c : Config) (input : Option ℕ) (g : Flow) (os : List StoredObject) (usage : Called (ℕ × ℕ))
      → HandsOn e i c input g os
      → Each Anything (HandsOnDone c input) (g, charged e i os usage)
  charged_Handed c input g os (got u) h = h
  charged_Handed c input g os (threw x) h = tt

  charge_Handed :
      (b : RunBlock) (c : Config) (input : Option ℕ) (g : Flow) (os : List StoredObject)
      → HandsOn e i c input g os
      → Each Anything (HandsOnDone c input) (charge_objects e i b g os)
  unfolding charge_objects
  charge_Handed b c input g [] h = h
  charge_Handed b c input g (o ∷ os) h =
      let (g', usage) = call_db (record_storage e.settings b.id (o ∷ os)) (e.at b.id).storage g in
      charged_Handed c input g' (o ∷ os) usage h

  -- The assertion behind the `try` holds.
  pub attempt_block_Handed :
      (b : RunBlock) (input : Option ℕ) (f : Flow)
      → Each Anything (HandsOnDone b.config input) (attempt_block e i b input f)
  unfolding attempt_block
  attempt_block_Handed b input f = go (perform e i b input f) (perform-Handed b b.config input f)
    where
      go :
          (o : Flow × Called (List StoredObject))
          → Handed e i b.config input o
          → Each Anything
              (HandsOnDone b.config input)
              (elim o.1 [ threw x ↦ (o.0, threw x) | got os ↦ charge_objects e i b o.0 os ])
      go (g, threw x) h = tt
      go (g, got os) h = charge_Handed b b.config input g os h
