-- ===== src/PipelineRoutes/Examples.antt =====
-- A pipeline of three blocks: its URL is the run input `u`, its key is 9, its webhook is URL 8. URL 6
-- resolves to a loopback address.
use scrapeflow.Base.{
  ◌≡◌, refl, ℕ, true, false, Option, none, some, List, [], ◌∷◌, ◌==◌, if◌then◌else◌, count, All,
  String,
}
use scrapeflow.Calendar.{before, first_of_month}
use scrapeflow.Catalog.{html, http, scrape, llm_extract, webhook}
use scrapeflow.Validator.{known, Models}
use scrapeflow.Validator.Rules.{StoredDefinition}
use scrapeflow.Quota.{admit}
use scrapeflow.PipelineMirror.Mirrors.{RunStatus}
use scrapeflow.PipelineWorkflow.{run}
use scrapeflow.PipelineWorkflow.Calls.{PipelineRunInput}
use scrapeflow.PipelineWorkflow.Ready.{HasOutcome, BlockAnswered}
use scrapeflow.PipelineWorkflow.Examples.{answered, env, is_answered}
use scrapeflow.Security.{Address, private_address, bad_request}
use scrapeflow.PipelineRoutes.{
  Tables, Refusal, StoredRun, missing_input, ssrf, unprocessable, state_of,
}
use scrapeflow.PipelineRoutes.CreateRun.{create_run, Response, refusal, unavailable, started}
use scrapeflow.PipelineRoutes.CheckRun.{Inputs, PipelineRunCreate, Env, Startable}
use scrapeflow.PipelineRoutes.Answers.{Leaves, create_run-Leaves}
use scrapeflow.PipelineRoutes.Workflow.{
  HasWhatItNeeds, create_run-HasWhatItNeeds, create_run-HasOutcome, create_run-IsStartable,
  CameFrom,
}

abbrev models : Models
models = record {
  scrape_model = λ raw. some (record {
    url = 7;
    output_format = html;
    engine = http;
    playwright_timeout = none;
    actions = [];
  });
  clean_model = λ raw. true;
  llm_extract_model = λ raw. some (record { llm_key_id = 9; model = 1; output_schema = 1 });
  validate_model = λ raw. none;
  webhook_model = λ raw. some (record { url = 8; secret = none });
  dump = λ c. [];
  is_object = λ s. true;
  is_schema = λ s. true;
}

abbrev u : List ℕ
u = 117 ∷ []

abbrev address : ℕ → Address
address host = record {
  is_loopback = host == 6;
  is_private = false;
  is_link_local = false;
  is_reserved = false;
}

abbrev env_of : Option (String × ℕ) → Env
env_of start = record {
  settings = record {
    default_quota_monthly_runs = 500;
    default_quota_concurrent_jobs = 5;
    default_quota_storage_bytes = 1000;
    default_quota_scheduled_jobs = 20;
  };
  storage_headroom_bytes = 10;
  models = models;
  resolver = record { hostname = λ url. some url; getaddrinfo = λ host. some (address host ∷ []) };
  binding = λ url. if url == 7 then some u else none;
  run_id = 50;
  block_id = λ n. n;
  now = record {
    year = 2026;
    month = 11;
    day = 26;
    hour = 12;
    minute = 0;
    second = 0;
    microsecond = 0;
  };
  start_workflow = start;
}

abbrev definition : StoredDefinition
definition = record {
  inputs = u ∷ [];
  time_budget_seconds = some 900;
  blocks =
      record {
        id = 1;
        type_name = known scrape;
        input = none;
        config_schema_version = 1;
        config = [];
      }
      ∷ record {
        id = 2;
        type_name = known llm_extract;
        input = some 1;
        config_schema_version = 1;
        config = [];
      }
      ∷ record {
        id = 3;
        type_name = known webhook;
        input = some 2;
        config_schema_version = 1;
        config = [];
      }
      ∷ [];
}

abbrev tables : Tables
tables = record {
  pipelines = record { id = 20; user_id = 7; name = 1; is_deleted = false } ∷ [];
  versions =
      record {
        id = 30;
        pipeline_id = 20;
        version = 1;
        definition = record definition { inputs = [] };
      }
      ∷ record { id = 31; pipeline_id = 20; version = 2; definition = definition }
      ∷ [];
  llm_keys = record { id = 9; user_id = 7; base_url = some 4 } ∷ [];
  quota = record {
    quota_run_units = [];
    quota_active_submissions = [];
    jobs = [];
    quotas = λ n. none;
  };
  ledger = record { objects = []; quotas = λ n. none };
  runs = [];
}

abbrev body : Inputs → PipelineRunCreate
body inputs = record { version = none; inputs = inputs }

abbrev answer : Option (String × ℕ) → ℕ → Inputs → Response
answer start user inputs = (create_run (env_of start) tables user 20 (body inputs)).1

abbrev good : Inputs
good = (u, 5) ∷ []

foreign_pipeline : answer none 8 good ≡ refusal Refusal.not_found
unfolding create_run
foreign_pipeline = refl

loopback_input : answer none 7 ((u, 6) ∷ []) ≡ refusal (ssrf (bad_request private_address))
unfolding create_run
loopback_input = refl

no_input :
    answer none 7 []
    ≡ refusal (unprocessable (record { block_id = none; message = missing_input u } ∷ []))
unfolding create_run
no_input = refl

abbrev row_of : Response → StoredRun
row_of (started r i) = r
row_of (unavailable r) = r
row_of (refusal x) = record {
  id = 0;
  pipeline_id = 0;
  pipeline_version_id = 0;
  run = record {
    user_id = 0;
    status = RunStatus.failed;
    cancel_requested_at = none;
    result_path = none;
    error = none;
    finished_at = none;
  };
  blocks = [];
}

abbrev input_of : Response → PipelineRunInput
input_of (started r i) = i
input_of _ = record {
  blocks = [];
  time_budget_seconds = 0;
  has_url = λ n. true;
  has_artifact = λ n. true;
  has_llm_key = λ n. true;
}

abbrev row : StoredRun
row = row_of (answer none 7 good)

abbrev input : PipelineRunInput
input = input_of (answer none 7 good)

starts : answer none 7 good ≡ started row input
unfolding create_run admit before first_of_month
starts = refl

latest : row.pipeline_version_id ≡ 31
unfolding create_run admit before first_of_month
latest = refl

temporal_down :
    (row_of (answer (some ("down", 3)) 7 good)).run.error ≡ some "could not start workflow: down"
unfolding create_run admit before first_of_month
temporal_down = refl

create_run-Leaves_example :
    Leaves tables (create_run (env_of (some ("down", 3))) tables 7 20 (body good))
create_run-Leaves_example = create_run-Leaves (env_of (some ("down", 3))) tables 7 20 (body good)

create_run-IsStartable_example :
    (s : Startable) × CameFrom (env_of none) tables 7 20 (body good) row input s
create_run-IsStartable_example =
    create_run-IsStartable (env_of none) tables 7 20 (body good) row input starts

distinct : All (λ b. count (λ c. c.id == b.id) input.blocks ≡ 1) input.blocks
unfolding create_run admit before first_of_month
distinct = (refl, (refl, (refl, tt)))

create_run-HasWhatItNeeds_example : All (HasWhatItNeeds input) input.blocks
create_run-HasWhatItNeeds_example =
    create_run-HasWhatItNeeds (env_of none) tables 7 20 (body good) row input starts distinct

blocks_answered : All (BlockAnswered (env answered)) input.blocks
unfolding create_run admit before first_of_month
blocks_answered = (
  (is_answered, is_answered, is_answered),
  ((is_answered, is_answered, is_answered), ((is_answered, is_answered, is_answered), tt)),
)

create_run-HasOutcome_example :
    HasOutcome
      (run (env answered) input (state_of (create_run (env_of none) tables 7 20 (body good)).0 row))
create_run-HasOutcome_example =
    create_run-HasOutcome (env_of none) tables 7 20 (body good) row input (env answered) starts
      distinct blocks_answered is_answered
