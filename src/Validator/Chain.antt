-- ===== src/Validator/Chain.antt =====
-- The rules as a specification: what a definition that may be stored looks like, with no reference
-- to problems or to the order of the checks.
use scrapeflow.Base.{
  ℕ, ◌≤◌, ◌≡◌, true, false, none, some, List, [], ◌∷◌, map, count, length, any, All, same_text,
  get_or, ◌==◌,
}
use scrapeflow.Catalog.{
  Ref, BlockType, type_of, consumes, produces, check_input, timing, run_need_seconds,
}
use scrapeflow.Validator.{
  known, BlockDefinition, PipelineDefinition, FieldName, RawValue, literal, binding, Models, Limits,
  ValidatedBlock, version_of, current_version, model_validate, binds, is_declared, schemas_of,
}
use scrapeflow.Validator.Rules.{is_input_name, used_of, ValidatedPipeline}
use scrapeflow.Validator.ChainRules.{is_scrape, is_webhook, flat_map}

-- A value is a literal, or binds a declared run input to a field that binds.
abbrev pub IsBound : BlockType → List (List ℕ) → FieldName × RawValue → Type 0
IsBound t declared (name, literal v) = Unit {0}
IsBound t declared (name, binding input) =
    (binds t name ≡ true) × (is_declared input declared ≡ true)

-- `v` is the block that `b` defines.
pub record ParsesAs (m : Models) (declared : List (List ℕ)) (b : BlockDefinition)
    (v : ValidatedBlock) : Type 0 where
  pub id : v.id ≡ b.id
  pub type_name : b.type_name ≡ known (type_of v.config)
  pub version : version_of b.config_schema_version ≡ current_version
  pub model : model_validate m (type_of v.config) b.config ≡ some v.config
  pub bound : All (IsBound (type_of v.config) declared) b.config
  pub schemas : All (λ s. m.is_schema s ≡ true) (schemas_of v.config)

-- Each block consumes what the one before it, `previous`, produces: a reference of this type.
pub data Follows (m : Models) (declared : List (List ℕ))
    : ℕ → Ref → List BlockDefinition → List ValidatedBlock → Type 0 where
  ends : {previous : ℕ} {ref : Ref} → Follows m declared previous ref [] []
  feeds :
      {previous : ℕ} {ref ref' : Ref} {b : BlockDefinition} {v : ValidatedBlock}
      {rest : List BlockDefinition} {parsed : List ValidatedBlock}
      → ParsesAs m declared b v
      → is_scrape b.type_name ≡ false
      → b.input ≡ some previous
      → consumes (type_of v.config) ref ≡ true
      → check_input v.config ref ≡ []
      → produces v.config (some ref) ≡ some ref'
      → Follows m declared b.id ref' rest parsed
      → Follows m declared previous ref (b ∷ rest) (v ∷ parsed)

-- A chain starts with a scrape that takes no input, the only scrape.
pub data Chain (m : Models) (declared : List (List ℕ))
    : BlockDefinition → List BlockDefinition → List ValidatedBlock → Type 0 where
  fetches :
      {b : BlockDefinition} {v : ValidatedBlock} {ref : Ref} {rest : List BlockDefinition}
      {parsed : List ValidatedBlock}
      → ParsesAs m declared b v
      → is_scrape b.type_name ≡ true
      → b.input ≡ none
      → produces v.config none ≡ some ref
      → Follows m declared b.id ref rest parsed
      → Chain m declared b rest (v ∷ parsed)

abbrev pub HasUniqueIds : List BlockDefinition → Type 0
HasUniqueIds [] = Unit
HasUniqueIds (b ∷ blocks) = (any (λ c. b.id == c.id) blocks ≡ false) × HasUniqueIds blocks

pub record IsValid (m : Models) (limits : Limits) (d : PipelineDefinition) (p : ValidatedPipeline)
    : Type 0 where
  pub names : All (λ i. is_input_name i ≡ true) d.inputs
  pub size : length (d.first ∷ d.rest) ≤ limits.max_blocks_per_pipeline
  pub ids : HasUniqueIds (d.first ∷ d.rest)
  pub used : All (λ i. any (same_text i) (flat_map used_of (d.first ∷ d.rest)) ≡ true) d.inputs
  pub chain : Chain m d.inputs d.first d.rest p.blocks
  pub webhooks : count (λ b. is_webhook b.type_name) (d.first ∷ d.rest) ≤ 1
  -- The ceiling of a run covers what its blocks need, within the limit.
  pub covered : run_need_seconds (map (λ b. timing b.config) p.blocks) ≤ p.run_budget_seconds
  pub limited : p.run_budget_seconds ≤ limits.pipeline_max_run_seconds
  pub declared :
      p.run_budget_seconds
      ≡ get_or d.time_budget_seconds (run_need_seconds (map (λ b. timing b.config) p.blocks))
