-- ===== src/PipelineWorkflow/Examples.antt =====
-- A run that scrapes, cleans and delivers: undisturbed, cancelled, and with a mirror that fails.
use scrapeflow.Base.{ℕ, ◌≡◌, refl, true, false, Option, none, some, [], ◌∷◌, String}
use scrapeflow.Catalog.{scrape_config, clean_config, webhook_config, html, http}
use scrapeflow.PipelineMirror.{StoredObject, record_storage}
use scrapeflow.PipelineMirror.Mirrors.{
  RunStatus, BlockStatus, State, PipelineRunBlock, mirror_block_status, mirror_run_status,
}
use scrapeflow.Temporal.{answers, timed_out, got, threw, cancelled_error, activity_error}
use scrapeflow.WebhookBlock.{Attempt}
use scrapeflow.PipelineWorkflow.{run}
use scrapeflow.PipelineWorkflow.Calls.{PipelineRunInput, Env, returned, escaped, quiet, Mirroring}
use scrapeflow.PipelineWorkflow.Ends.{run-Told}
use scrapeflow.PipelineWorkflow.Told.{Told}
use scrapeflow.PipelineWorkflow.Answers.{run-HasOutcome}
use scrapeflow.PipelineWorkflow.Ready.{HasOutcome, IsAnswered}

abbrev row : ℕ → PipelineRunBlock
row n = record {
  id = 100;
  block_id = n;
  status = BlockStatus.pending;
  input_ref = none;
  output_ref = none;
  error = none;
  started_at = none;
  finished_at = none;
}

abbrev start : Option ℕ → State
start requested = record {
  run = some (record {
    user_id = 7;
    status = RunStatus.running;
    cancel_requested_at = requested;
    result_path = none;
    error = none;
    finished_at = none;
  });
  blocks = row 1 ∷ row 2 ∷ row 3 ∷ [];
  ledger = record { objects = []; quotas = λ u. none };
  notices = [];
}

abbrev pub answered : Mirroring
answered = record { call = record { meanwhile = []; now = 5; ending = answers }; waiting = quiet }

abbrev lost : Mirroring
lost = record { call = record { meanwhile = []; now = 5; ending = timed_out }; waiting = quiet }

-- The second attempt of the webhook is delivered.
abbrev attempt : Option String → Attempt
attempt error = record {
  start = answered.call;
  blocked = none;
  decrypts = true;
  error = error;
  wait = answered.call;
  interrupted = false;
}

abbrev object : ℕ → StoredObject
object path = record { path = path; size = 10 }

abbrev pub env : Mirroring → Env
env complete = record {
  settings = record {
    default_quota_monthly_runs = 1;
    default_quota_concurrent_jobs = 1;
    default_quota_storage_bytes = 15;
    default_quota_scheduled_jobs = 1;
  };
  str = λ n. "7";
  deadline = 100;
  at = λ id. record {
    start = answered;
    host_slot = true;
    host_cancelled = false;
    releasing = quiet;
    meanwhile = [];
    now = 50;
    scrape = got (record { result = object 11; screenshots = [] });
    clean = got (object 12);
    extract = threw cancelled_error;
    validate = got tt;
    attempts = attempt (some "HTTP 500") ∷ attempt none ∷ [];
    waiting = quiet;
    storage = answered;
    complete = complete;
    fail = answered;
  };
  ending = answered;
}

abbrev input : PipelineRunInput
input = record {
  blocks =
      record {
        id = 1;
        input = none;
        config = scrape_config (record {
          url = 1;
          output_format = html;
          engine = http;
          playwright_timeout = none;
          actions = [];
        });
      }
      ∷ record { id = 2; input = some 1; config = clean_config }
      ∷ record {
        id = 3;
        input = some 2;
        config = webhook_config (record { url = 1; secret = none });
      }
      ∷ [];
  time_budget_seconds = 100;
  has_url = λ id. true;
  has_artifact = λ id. true;
  has_llm_key = λ id. true;
}

delivers : (run (env answered) input (start none)).1 ≡ returned (some 12)
unfolding run mirror_block_status record_storage mirror_run_status
delivers = refl

cancels : (run (env answered) input (start (some 3))).1 ≡ returned none
unfolding run mirror_block_status record_storage mirror_run_status
cancels = refl

-- A mirror that is not answered leaves the row running.
leaves_running :
    ((run (env lost) input (start none)).1 ≡ escaped (activity_error "activity timed out" false))
    × ((run (env lost) input (start none)).0.state.run ≡ (start none).run)
unfolding run mirror_block_status record_storage mirror_run_status
leaves_running = (refl, refl)

run-Told_example : Told (run (env answered) input (start none))
run-Told_example = run-Told (env answered) input (start none) (_, refl, refl)

pub is_answered : IsAnswered answered
is_answered = (refl, λ b. cc)

run-HasOutcome_example : HasOutcome (run (env answered) input (start none))
run-HasOutcome_example =
    run-HasOutcome (env answered) input (start none)
      (
        (is_answered, is_answered, is_answered),
        ((is_answered, is_answered, is_answered), ((is_answered, is_answered, is_answered), tt)),
      )
      is_answered ((_, refl, refl), (refl, (refl, (refl, tt))))
