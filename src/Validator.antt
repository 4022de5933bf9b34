-- ===== src/Validator.antt =====
-- Save-time validation of a pipeline definition (api/app/pipelines/validator.py). Pydantic's shape
-- check, its parse of a config, and the check of a JSON Schema are parameters; the models' own
-- validators are those of the catalogue. A definition has a first block, since `blocks` has
-- min_length 1. Block ids are numbers, run input names texts. The texts of the problems are left
-- out: a problem is the block and the rule.
pub mod ChainRules
pub mod Rules
pub mod Chain
pub mod Lists
pub mod Parsed
pub mod Clean
pub mod Accepts
mod Examples
use scrapeflow.Base.{
  ℕ, zero, suc, ◌+◌, Bool, true, false, not, ◌&&◌, ◌||◌, Option, none, some, List, [], ◌∷◌, ◌++◌,
  map, ltb, leb, ◌==◌, if◌then◌else◌, any, all, length, contains, filter, same_text,
}
use scrapeflow.Catalog.{
  Ref, Config, scrape_config, clean_config, llm_extract_config, validate_config, webhook_config,
  ScrapeConfig, LlmExtractConfig, WebhookConfig, Rule, json_schema, BlockType, scrape, clean,
  llm_extract, validate, webhook, type_of, is_source, consumes, produces, check_input, Timing,
  timing, run_need_seconds, config_is_valid,
}

-- The name in a block's `type`: the catalogue's, or another.
pub data TypeName : Type 0 where
  known : BlockType → TypeName
  other : ℕ → TypeName

-- A config field: `url`, the one that binds, or another.
pub data FieldName : Type 0 where
  url : FieldName
  field : ℕ → FieldName

-- A value of a raw config: `{"$input": name}`, of which the name may not be a text, or another.
pub data RawValue : Type 0 where
  binding : Option (List ℕ) → RawValue
  literal : ℕ → RawValue

abbrev pub RawConfig : Type 0
RawConfig = List (FieldName × RawValue)

pub record BlockDefinition : Type 0 where
  pub id : ℕ
  pub type_name : TypeName
  pub input : Option ℕ
  pub config_schema_version : Option ℕ
  pub config : RawConfig

pub record PipelineDefinition : Type 0 where
  pub inputs : List (List ℕ)
  pub first : BlockDefinition
  pub rest : List BlockDefinition
  pub time_budget_seconds : Option ℕ

-- What pydantic and jsonschema do: a config of each type, and back (model_dump); whether a schema's
-- root is an object, and whether it is a JSON Schema.
pub record Models : Type 0 where
  pub scrape_model : RawConfig → Option ScrapeConfig
  pub clean_model : RawConfig → Bool
  pub llm_extract_model : RawConfig → Option LlmExtractConfig
  pub validate_model : RawConfig → Option (List Rule)
  pub webhook_model : RawConfig → Option WebhookConfig
  pub dump : Config → RawConfig
  pub is_object : ℕ → Bool
  pub is_schema : ℕ → Bool

-- settings.max_blocks_per_pipeline and settings.pipeline_max_run_seconds
pub record Limits : Type 0 where
  pub max_blocks_per_pipeline : ℕ
  pub pipeline_max_run_seconds : ℕ

pub data Message : Type 0 where
  bad_input_name too_many_blocks id_used_twice unknown_type no_such_version cannot_bind
        undeclared_input bad_config bad_schema unused_input not_a_scrape_first first_has_input
        second_scrape no_input not_a_block not_before not_previous wrong_reference wrong_rule
        second_webhook budget_too_short over_limit :
      Message

-- `block_id` is none for a problem of the pipeline.
pub record Problem : Type 0 where
  pub block_id : Option ℕ
  pub message : Message

abbrev pub of_block : BlockDefinition → Message → Problem
of_block b m = record { block_id = some b.id; message = m }

abbrev pub of_pipeline : Message → Problem
of_pipeline m = record { block_id = none; message = m }

abbrev pub problem_if : Bool → Problem → List Problem
problem_if true p = p ∷ []
problem_if false p = []

pub record ValidatedBlock : Type 0 where
  pub id : ℕ
  pub config : Config

-- model.model_validate(block.config): the parse, then the model's validators.
abbrev option_map {ℓ κ} : {A : Type ℓ} {B : Type κ} → (A → B) → Option A → Option B
option_map f none = none
option_map f (some a) = some (f a)

abbrev parse_config : Models → BlockType → RawConfig → Option Config
parse_config m scrape raw = option_map scrape_config (m.scrape_model raw)
parse_config m clean raw = if m.clean_model raw then some clean_config else none
parse_config m llm_extract raw = option_map llm_extract_config (m.llm_extract_model raw)
parse_config m validate raw = option_map validate_config (m.validate_model raw)
parse_config m webhook raw = option_map webhook_config (m.webhook_model raw)

unfoldable pub model_validate : Models → BlockType → RawConfig → Option Config
unfolding config_is_valid
model_validate m t raw = elim (parse_config m t raw) [
  | none ↦ none
  | some c ↦ if config_is_valid m.is_object c then some c else none
]

-- The config versions of every type: version 1.
abbrev pub current_version : ℕ
current_version = 1

-- `block.config_schema_version or block_type.current_version`
abbrev pub version_of : Option ℕ → ℕ
version_of none = current_version
version_of (some zero) = current_version
version_of (some (suc n)) = suc n

abbrev pub binds : BlockType → FieldName → Bool
binds scrape url = true
binds t f = false

abbrev pub is_declared : Option (List ℕ) → List (List ℕ) → Bool
is_declared none declared = false
is_declared (some name) declared = any (same_text name) declared

-- What is wrong with a block's bindings.
unfoldable pub binding_problems :
    BlockType → BlockDefinition → List (List ℕ) → RawConfig → List Problem
binding_problems t b declared [] = []
binding_problems t b declared ((name, literal v) ∷ raw) = binding_problems t b declared raw
binding_problems t b declared ((name, binding input) ∷ raw) =
    let rest = binding_problems t b declared raw in
    if not (binds t name)
    then of_block b cannot_bind ∷ rest
    else if is_declared input declared
    then rest
    else of_block b undeclared_input ∷ rest

-- The run inputs that a config uses.
unfoldable pub used_inputs : RawConfig → List (List ℕ)
used_inputs [] = []
used_inputs ((name, binding (some input)) ∷ raw) = input ∷ used_inputs raw
used_inputs ((name, v) ∷ raw) = used_inputs raw

abbrev pub schemas_of : Config → List ℕ
schemas_of (llm_extract_config c) = c.output_schema ∷ []
schemas_of (validate_config rules) =
    map (λ r. r.schema) (filter (λ r. elim r.kind [ json_schema ↦ true | _ ↦ false ]) rules)
schemas_of c = []

unfoldable pub json_schema_problems : Models → BlockDefinition → Config → List Problem
json_schema_problems m b c =
    map (λ s. of_block b bad_schema) (filter (λ s. not (m.is_schema s)) (schemas_of c))

-- A parsed config with its schema problems.
abbrev pub with_config :
    Models → BlockDefinition → Option Config → Option ValidatedBlock × List Problem
with_config m b none = (none, of_block b bad_config ∷ [])
with_config m b (some c) = (some (record { id = b.id; config = c }), json_schema_problems m b c)

abbrev pub when_bound :
    Models → BlockDefinition → BlockType → List Problem → Option ValidatedBlock × List Problem
when_bound m b t [] = with_config m b (model_validate m t b.config)
when_bound m b t (p ∷ ps) = (none, p ∷ ps)

unfoldable pub parse_block :
    Models → BlockDefinition → List (List ℕ) → Option ValidatedBlock × List Problem
unfolding model_validate binding_problems json_schema_problems
parse_block m b declared = elim b.type_name [
  | other n ↦ (none, of_block b unknown_type ∷ [])
  | known t ↦
      if version_of b.config_schema_version == current_version
      then when_bound m b t (binding_problems t b declared b.config)
      else (none, of_block b no_such_version ∷ [])
]
