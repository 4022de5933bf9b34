-- ===== src/Definition/Examples.antt =====
-- A stored pipeline of two blocks, read back; and a block of a later version.
use scrapeflow.Base.{◌≡◌, refl, true, none, some, [], ◌∷◌}
use scrapeflow.Catalog.{
  scrape_config, clean_config, llm_extract_config, validate_config, webhook_config, html, http,
  scrape, clean, check_input,
}
use scrapeflow.Validator.{known, PipelineDefinition, Models, Limits, model_validate}
use scrapeflow.Validator.Rules.{ValidatedPipeline, accepted, refused, validate_definition}
use scrapeflow.Definition.{
  readable, unreadable, cannot_be_run, parse_definition, run_budget_seconds,
}
use scrapeflow.Definition.RoundTrip.{DumpsBack, parsed_of, parse-validate}

-- One config of each type.
abbrev models : Models
models = record {
  scrape_model = λ raw. some (record {
    url = 7;
    output_format = html;
    engine = http;
    playwright_timeout = none;
    actions = [];
  });
  clean_model = λ raw. true;
  llm_extract_model = λ raw. none;
  validate_model = λ raw. none;
  webhook_model = λ raw. none;
  dump = λ c. [];
  is_object = λ s. true;
  is_schema = λ s. true;
}

dumps_back : DumpsBack models
unfolding model_validate
dumps_back (scrape_config c) raw h = h
dumps_back clean_config raw h = h
dumps_back (llm_extract_config c) raw h = h
dumps_back (validate_config rules) raw h = h
dumps_back (webhook_config c) raw h = h

abbrev definition : PipelineDefinition
definition = record {
  inputs = [];
  first = record {
    id = 1;
    type_name = known scrape;
    input = none;
    config_schema_version = none;
    config = [];
  };
  rest =
      record {
        id = 2;
        type_name = known clean;
        input = some 1;
        config_schema_version = some 1;
        config = [];
      }
      ∷ [];
  time_budget_seconds = none;
}

abbrev limits : Limits
limits = record { max_blocks_per_pipeline = 10; pipeline_max_run_seconds = 86400 }

abbrev pipeline : ValidatedPipeline
pipeline = elim (validate_definition models limits definition) [
  | accepted p ↦ p
  | refused ps ↦ record {
    definition = record { inputs = []; time_budget_seconds = none; blocks = [] };
    blocks = [];
    run_budget_seconds = 0;
  }
]

pipeline_eq : validate_definition models limits definition ≡ accepted pipeline
unfolding validate_definition check_input
pipeline_eq = refl

later_version :
    parse_definition models (record {
      inputs = [];
      time_budget_seconds = none;
      blocks =
          record {
            id = 1;
            type_name = known scrape;
            input = none;
            config_schema_version = 2;
            config = [];
          }
          ∷ [];
    })
    ≡ unreadable ((1, cannot_be_run) ∷ [])
unfolding parse_definition
later_version = refl

parse-validate_example :
    (parse_definition models pipeline.definition ≡ readable (parsed_of definition pipeline))
    × (run_budget_seconds (parsed_of definition pipeline) ≡ pipeline.run_budget_seconds)
parse-validate_example = parse-validate models limits definition pipeline dumps_back pipeline_eq
