-- ===== src/Definition.antt =====
-- The read of a stored definition (api/app/pipelines/definition.py). As in Validator, pydantic is
-- a parameter, and the texts of the problems and the secrets are left out; that the stored value
-- has the shape of a StoredDefinition is taken for granted.
pub mod RoundTrip
mod Examples
use scrapeflow.Base.{
  ℕ, ◌≡◌, Bool, true, false, Option, none, some, List, [], ◌∷◌, ◌++◌, map, get_or, ◌==◌,
  if◌then◌else◌,
}
use scrapeflow.Catalog.{Config, timing, run_need_seconds}
use scrapeflow.Validator.{TypeName, known, other, Models, model_validate, current_version}
use scrapeflow.Validator.Rules.{StoredBlock, StoredDefinition}
use scrapeflow.PipelineWorkflow.Calls.{RunBlock}

pub record ParsedDefinition : Type 0 where
  pub inputs : List (List ℕ)
  pub time_budget_seconds : Option ℕ
  pub blocks : List RunBlock

pub data Unreadable : Type 0 where
  unknown_type cannot_be_run bad_config : Unreadable

pub data Read : Type 0 where
  -- DefinitionUnreadable, with the blocks' problems
  unreadable : List (ℕ × Unreadable) → Read
  readable : ParsedDefinition → Read

unfoldable pub run_budget_seconds : ParsedDefinition → ℕ
run_budget_seconds p =
    get_or p.time_budget_seconds (run_need_seconds (map (λ b. timing b.config) p.blocks))

abbrev pub with_problem :
    ℕ × Unreadable → List RunBlock × List (ℕ × Unreadable) → List RunBlock × List (ℕ × Unreadable)
with_problem p (blocks, problems) = (blocks, p ∷ problems)

abbrev pub with_block :
    RunBlock → List RunBlock × List (ℕ × Unreadable) → List RunBlock × List (ℕ × Unreadable)
with_block b (blocks, problems) = (b ∷ blocks, problems)

-- The loop: the run blocks, and the problems. Each type has one config version, the one that runs.
unfoldable pub read_blocks : Models → List StoredBlock → List RunBlock × List (ℕ × Unreadable)
unfolding model_validate
read_blocks m [] = ([], [])
read_blocks m (b ∷ blocks) =
    let rest = read_blocks m blocks in
    elim b.type_name [
      | other n ↦ with_problem (b.id, unknown_type) rest
      | known t ↦
          if b.config_schema_version == current_version
          then elim (model_validate m t b.config) [
            | none ↦ with_problem (b.id, bad_config) rest
            | some c ↦ with_block (record { id = b.id; input = b.input; config = c }) rest
          ]
          else with_problem (b.id, cannot_be_run) rest
    ]

abbrev pub read_result : StoredDefinition → List RunBlock × List (ℕ × Unreadable) → Read
read_result d (blocks, []) =
    readable
      (record { inputs = d.inputs; time_budget_seconds = d.time_budget_seconds; blocks = blocks })
read_result d (blocks, p ∷ problems) = unreadable (p ∷ problems)

unfoldable pub parse_definition : Models → StoredDefinition → Read
unfolding read_blocks
parse_definition m d = read_result d (read_blocks m d.blocks)
