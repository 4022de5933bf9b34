-- ===== src/PipelineRoutes/SavedExamples.antt =====
-- A pipeline that is created, renamed with a new definition from a stale read, and deleted.
use scrapeflow.Base.{◌≡◌, refl, ℕ, true, false, none, some, List, [], ◌∷◌, inl}
use scrapeflow.Catalog.{check_input, html, http, scrape, clean}
use scrapeflow.Validator.{known, Models, PipelineDefinition, field, literal}
use scrapeflow.Validator.Rules.{StoredDefinition, validate_definition}
use scrapeflow.Security.{validate_no_ssrf_core}
use scrapeflow.PipelineMirror.Mirrors.{RunStatus}
use scrapeflow.PipelineRoutes.{PipelineVersion, StoredRun, Tables}
use scrapeflow.PipelineRoutes.Definitions.{SaveEnv}
use scrapeflow.PipelineRoutes.Requests.{Request, create, update, delete, requests}
use scrapeflow.PipelineRoutes.Pinned.{IsPinned, requests-IsPinned}

abbrev models : Models
models = record {
  scrape_model = λ raw. some (record {
    url = 7;
    output_format = html;
    engine = http;
    playwright_timeout = none;
    actions = [];
  });
  clean_model = λ raw. true;
  llm_extract_model = λ raw. none;
  validate_model = λ raw. none;
  webhook_model = λ raw. none;
  dump = λ c. [];
  is_object = λ s. true;
  is_schema = λ s. true;
}

abbrev definition : PipelineDefinition
definition = record {
  inputs = [];
  first = record {
    id = 1;
    type_name = known scrape;
    input = none;
    config_schema_version = none;
    config = [];
  };
  rest =
      record {
        id = 2;
        type_name = known clean;
        input = some 1;
        config_schema_version = some 1;
        config = [];
      }
      ∷ [];
  time_budget_seconds = none;
}

abbrev save : ℕ → SaveEnv
save version = record {
  limits = record { max_blocks_per_pipeline = 10; pipeline_max_run_seconds = 86400 };
  max_pipelines_per_user = 5;
  resolver = record { hostname = λ url. some url; getaddrinfo = λ host. some [] };
  is_bound = λ url. false;
  same = λ c d. false;
  pipeline_id = 20;
  version_id = version;
}

abbrev empty : Tables
empty = record {
  pipelines = [];
  versions = [];
  llm_keys = [];
  quota = record {
    quota_run_units = [];
    quota_active_submissions = [];
    jobs = [];
    quotas = λ n. none;
  };
  ledger = record { objects = []; quotas = λ n. none };
  runs = [];
}

abbrev created : Tables
created = requests models (create (save 30) 7 1 definition ∷ []) empty

abbrev stored : StoredDefinition
stored = record {
  inputs = [];
  time_budget_seconds = none;
  blocks =
      record {
        id = 1;
        type_name = known scrape;
        input = none;
        config_schema_version = 1;
        config = (field 0, literal 0) ∷ (field 1, literal 0) ∷ [];
      }
      ∷ record {
        id = 2;
        type_name = known clean;
        input = some 1;
        config_schema_version = 1;
        config = [];
      }
      ∷ [];
}

abbrev version : PipelineVersion
version = record { id = 30; pipeline_id = 20; version = 1; definition = stored }

created_version : created.versions ≡ version ∷ []
unfolding requests validate_definition validate_no_ssrf_core check_input
created_version = refl

abbrev stale_update : Request
stale_update =
    update (save 31) created 7 20 (record { name = some 2; definition = some definition })

abbrev updated : Tables
updated = requests models (stale_update ∷ stale_update ∷ []) created

-- The second update finds the number 2 taken.
one_update : updated.versions ≡ version ∷ record version { id = 31; version = 2 } ∷ []
unfolding requests validate_definition validate_no_ssrf_core check_input
one_update = refl

deleted : (requests models (delete 7 20 ∷ []) updated).versions ≡ []
unfolding requests validate_definition validate_no_ssrf_core check_input
deleted = refl

abbrev run : StoredRun
run = record {
  id = 50;
  pipeline_id = 20;
  pipeline_version_id = 30;
  run = record {
    user_id = 7;
    status = RunStatus.completed;
    cancel_requested_at = none;
    result_path = none;
    error = none;
    finished_at = some 9;
  };
  blocks = [];
}

abbrev with_run : Tables
with_run = record empty {
  pipelines = record { id = 20; user_id = 7; name = 1; is_deleted = false } ∷ [];
  versions = version ∷ [];
  runs = run ∷ [];
}

kept : (requests models (delete 7 20 ∷ []) with_run).versions ≡ version ∷ []
unfolding requests
kept = refl

abbrev followed : List Request
followed = stale_update ∷ delete 7 20 ∷ []

requests-IsPinned_example : IsPinned run version (requests models followed with_run)
requests-IsPinned_example =
    requests-IsPinned models run version followed with_run
      (record { run = inl refl; version = inl refl; of_pipeline = refl })
