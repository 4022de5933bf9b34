-- ===== src/Validator/Examples.antt =====
-- A pipeline that scrapes a declared run input, extracts, checks and delivers; and refused ones.
use scrapeflow.Base.{ℕ, ◌≡◌, refl, ◌==◌, if◌then◌else◌, true, Option, none, some, List, [], ◌∷◌}
use scrapeflow.Catalog.{
  html, http, compare_value, op_lt, scrape, llm_extract, validate, webhook, contains_text,
  check_input,
}
use scrapeflow.Validator.{
  known, url, field, literal, binding, BlockDefinition, PipelineDefinition, Models, Limits, Problem,
  of_block, of_pipeline, undeclared_input, not_previous, wrong_rule, second_webhook,
  budget_too_short,
}
use scrapeflow.Validator.Rules.{
  ValidatedPipeline, Verdict, accepted, refused, validate_definition, is_input_name,
}
use scrapeflow.Validator.Chain.{IsValid}
use scrapeflow.Validator.Accepts.{validate-IsValid}

-- A `validate` config with a literal 1 compares with a number, one with 2 searches a text.
abbrev models : Models
models = record {
  scrape_model = λ raw. some (record {
    url = 7;
    output_format = html;
    engine = http;
    playwright_timeout = none;
    actions = [];
  });
  clean_model = λ raw. true;
  llm_extract_model = λ raw. some (record { llm_key_id = 1; model = 2; output_schema = 3 });
  validate_model = λ raw. elim raw [
    | [] ↦ none
    | (name, binding i) ∷ raw' ↦ none
    | (name, literal n) ∷ raw' ↦ some (
        record {
          kind = if n == 1 then compare_value else contains_text;
          op = op_lt;
          value_is_number = true;
          schema = 0;
        }
        ∷ [])
  ];
  webhook_model = λ raw. some (record { url = 9; secret = none });
  dump = λ c. [];
  is_object = λ s. true;
  is_schema = λ s. true;
}

abbrev limits : Limits
limits = record { max_blocks_per_pipeline = 10; pipeline_max_run_seconds = 86400 }

abbrev site : List ℕ
site = 115 ∷ 105 ∷ 116 ∷ 101 ∷ []

abbrev scraped : BlockDefinition
scraped = record {
  id = 1;
  type_name = known scrape;
  input = none;
  config_schema_version = none;
  config = (url, binding (some site)) ∷ [];
}

abbrev extracted : BlockDefinition
extracted = record {
  id = 2;
  type_name = known llm_extract;
  input = some 1;
  config_schema_version = some 1;
  config = [];
}

abbrev checked : ℕ → BlockDefinition
checked rule = record {
  id = 3;
  type_name = known validate;
  input = some 2;
  config_schema_version = none;
  config = (field 1, literal rule) ∷ [];
}

abbrev delivered : ℕ → BlockDefinition
delivered from = record {
  id = 4;
  type_name = known webhook;
  input = some from;
  config_schema_version = none;
  config = [];
}

abbrev definition : ℕ → Option ℕ → PipelineDefinition
definition rule budget = record {
  inputs = site ∷ [];
  first = scraped;
  rest = extracted ∷ checked rule ∷ delivered 3 ∷ [];
  time_budget_seconds = budget;
}

abbrev problems_of : Verdict → List Problem
problems_of (refused ps) = ps
problems_of (accepted p) = []

abbrev pipeline_of : Verdict → Option ValidatedPipeline
pipeline_of (refused ps) = none
pipeline_of (accepted p) = some p

abbrev budget_of : Verdict → Option ℕ
budget_of (refused ps) = none
budget_of (accepted p) = some p.run_budget_seconds

accepts_definition : budget_of (validate_definition models limits (definition 1 none)) ≡ some 14785
unfolding validate_definition check_input
accepts_definition = refl

-- A text search does not fit an extraction.
refuses_rule :
    problems_of (validate_definition models limits (definition 2 none))
    ≡ of_block (checked 2) wrong_rule ∷ []
unfolding validate_definition check_input
refuses_rule = refl

refuses_budget :
    problems_of (validate_definition models limits (definition 1 (some 60)))
    ≡ of_pipeline budget_too_short ∷ []
unfolding validate_definition check_input
refuses_budget = refl

abbrev broken : PipelineDefinition
broken = record (definition 1 none) {
  inputs = [];
  rest = delivered 1 ∷ record (delivered 1) { id = 5 } ∷ [];
}

-- An undeclared input keeps the scrape from being parsed; the chain skips a block, and two deliver.
refuses_broken :
    problems_of (validate_definition models limits broken)
    ≡ of_block scraped undeclared_input
      ∷ of_block (record (delivered 1) { id = 5 }) not_previous
      ∷ of_block (record (delivered 1) { id = 5 }) second_webhook
      ∷ []
unfolding validate_definition check_input
refuses_broken = refl

-- `$` lets a name end in a newline.
accepts_newline : is_input_name (97 ∷ 10 ∷ []) ≡ true
accepts_newline = refl

abbrev pipeline : ValidatedPipeline
pipeline = elim (validate_definition models limits (definition 1 none)) [
  | accepted p ↦ p
  | refused ps ↦ record {
    definition = record { inputs = []; time_budget_seconds = none; blocks = [] };
    blocks = [];
    run_budget_seconds = 0;
  }
]

pipeline_eq : validate_definition models limits (definition 1 none) ≡ accepted pipeline
unfolding validate_definition check_input
pipeline_eq = refl

validate-IsValid_example : IsValid models limits (definition 1 none) pipeline
validate-IsValid_example = validate-IsValid models limits (definition 1 none) pipeline pipeline_eq
