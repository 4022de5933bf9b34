-- ===== src/Validator/Rules.antt =====
-- The rules over the whole definition, and validate (api/app/pipelines/validator.py).
use scrapeflow.Base.{
  ℕ, zero, suc, Bool, true, false, not, ◌&&◌, ◌||◌, Option, none, some, List, [], ◌∷◌, ◌++◌, map,
  ltb, leb, ◌==◌, if◌then◌else◌, any, length, contains, filter, same_text,
}
use scrapeflow.Validator.{
  TypeName, known, other, BlockDefinition, PipelineDefinition, RawConfig, Models, Limits, Problem,
  of_block, of_pipeline, problem_if, ValidatedBlock, version_of, current_version, parse_block,
  used_inputs, too_many_blocks, id_used_twice, bad_input_name, unused_input,
}
use scrapeflow.Validator.ChainRules.{
  budget_problems, chain_problems, flat_map, starting_block_problems, type_problems,
  webhook_problems,
}

abbrev is_lower : ℕ → Bool
is_lower c = leb 97 c && leb c 122

abbrev is_name_char : ℕ → Bool
is_name_char c = is_lower c || (leb 48 c && leb c 57) || (c == 95)

-- The rest of a match of _NAME, with `n` characters left: `$` also matches before a last newline.
abbrev name_rest : ℕ → List ℕ → Bool
name_rest n [] = true
name_rest zero (c ∷ []) = c == 10
name_rest zero (c ∷ d ∷ cs) = false
name_rest (suc n) (c ∷ []) = is_name_char c || (c == 10)
name_rest (suc n) (c ∷ d ∷ cs) = is_name_char c && name_rest n (d ∷ cs)

abbrev pub is_input_name : List ℕ → Bool
is_input_name [] = false
is_input_name (c ∷ cs) = is_lower c && name_rest 62 cs

unfoldable pub input_name_problems : List (List ℕ) → List Problem
input_name_problems inputs =
    map (λ i. of_pipeline bad_input_name) (filter (λ i. not (is_input_name i)) inputs)

unfoldable pub id_problems : List ℕ → List BlockDefinition → List Problem
id_problems seen [] = []
id_problems seen (b ∷ blocks) =
    problem_if (contains b.id seen) (of_block b id_used_twice) ++ id_problems (b.id ∷ seen) blocks

abbrev pub add_parsed : Option ValidatedBlock → List ValidatedBlock → List ValidatedBlock
add_parsed none parsed = parsed
add_parsed (some v) parsed = v ∷ parsed

-- The loop over the blocks: what was parsed, and the problems.
unfoldable pub parse_blocks :
    Models → List (List ℕ) → List BlockDefinition → List ValidatedBlock × List Problem
unfolding parse_block
parse_blocks m declared [] = ([], [])
parse_blocks m declared (b ∷ blocks) =
    let (validated, problems) = parse_block m b declared in
    let (parsed, later) = parse_blocks m declared blocks in
    (add_parsed validated parsed, problems ++ later)

-- `used` after the loop: a block of an unknown type or version is left before its bindings.
abbrev pub used_of : BlockDefinition → List (List ℕ)
used_of b = elim b.type_name [
  | other n ↦ []
  | known t ↦
      if version_of b.config_schema_version == current_version then used_inputs b.config else []
]

-- In the order of the declarations; the code sorts the names.
unfoldable pub unused_problems : List (List ℕ) → List (List ℕ) → List Problem
unused_problems used declared =
    map (λ i. of_pipeline unused_input) (filter (λ i. not (any (same_text i) used)) declared)

-- A block as pipeline_versions.definition stores it.
pub record StoredBlock : Type 0 where
  pub id : ℕ
  pub type_name : TypeName
  pub input : Option ℕ
  pub config_schema_version : ℕ
  pub config : RawConfig

pub record StoredDefinition : Type 0 where
  pub inputs : List (List ℕ)
  pub time_budget_seconds : Option ℕ
  pub blocks : List StoredBlock

pub record ValidatedPipeline : Type 0 where
  pub definition : StoredDefinition
  pub blocks : List ValidatedBlock
  pub run_budget_seconds : ℕ

pub data Verdict : Type 0 where
  -- PipelineValidationError
  refused : List Problem → Verdict
  accepted : ValidatedPipeline → Verdict

-- zip(blocks, parsed)
unfoldable pub stored_blocks :
    Models → List BlockDefinition → List ValidatedBlock → List StoredBlock
stored_blocks m (b ∷ blocks) (v ∷ parsed) =
    record {
      id = b.id;
      type_name = b.type_name;
      input = b.input;
      config_schema_version = version_of b.config_schema_version;
      config = m.dump v.config;
    }
    ∷ stored_blocks m blocks parsed
stored_blocks m _ _ = []

-- The problems that do not depend on the types and the budget.
unfoldable pub local_problems : Models → Limits → PipelineDefinition → List Problem
unfolding input_name_problems id_problems parse_blocks unused_problems starting_block_problems
    chain_problems webhook_problems used_inputs
local_problems m limits d =
    let blocks = d.first ∷ d.rest in
    input_name_problems d.inputs
    ++ (problem_if (ltb limits.max_blocks_per_pipeline (length blocks))
          (of_pipeline too_many_blocks)
        ++ (id_problems [] blocks
            ++ ((parse_blocks m d.inputs blocks).1
                ++ (unused_problems (flat_map used_of blocks) d.inputs
                    ++ (starting_block_problems d.first d.rest
                        ++ (chain_problems d.first d.rest ++ webhook_problems blocks))))))

abbrev pub is_nil {ℓ} : {A : Type ℓ} → List A → Bool
is_nil [] = true
is_nil (x ∷ xs) = false

abbrev pub verdict : Models → PipelineDefinition → List ValidatedBlock → ℕ → List Problem → Verdict
verdict m d parsed budget [] = accepted (record {
  definition = record {
    inputs = d.inputs;
    time_budget_seconds = d.time_budget_seconds;
    blocks = stored_blocks m (d.first ∷ d.rest) parsed;
  };
  blocks = parsed;
  run_budget_seconds = budget;
})
verdict m d parsed budget (p ∷ ps) = refused (p ∷ ps)

unfoldable pub validate_definition : Models → Limits → PipelineDefinition → Verdict
unfolding local_problems type_problems budget_problems stored_blocks
validate_definition m limits d =
    let blocks = d.first ∷ d.rest in
    let parsed = (parse_blocks m d.inputs blocks).0 in
    let local = local_problems m limits d in
    let (run_budget, over) = budget_problems limits d.time_budget_seconds parsed in
    if (length parsed == length blocks)
      && is_nil (starting_block_problems d.first d.rest)
      && is_nil (chain_problems d.first d.rest)
    then verdict m d parsed run_budget (local ++ (type_problems parsed ++ over))
    else verdict m d parsed 0 local
