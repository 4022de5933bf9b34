-- ===== src/JobRun/Examples.antt =====
-- A job with an LLM step whose first accounting call is lost after its commit, and one whose
-- settings cannot be read.
use scrapeflow.Base.{◌≡◌, refl, true, false, none, some, List, [], ◌∷◌, ◌==◌, ◌||◌}
use scrapeflow.Quota.{Settings}
use scrapeflow.Ledger.{Minio, record_objects, record_object}
use scrapeflow.JobRun.Unstarted.{failure_of, fail_unstarted_run-final}
use scrapeflow.JobRun.{fail_unstarted_run, failed_start, cancel_active_run, finish_job_run, Outcome}
use scrapeflow.JobRun.Running.{
  State, JobRun, Status, job_run_started, record_job_objects, discard_unrecorded, read_llm_settings,
  job_run_processing,
}
use scrapeflow.JobRun.Objects.{IsSettled, record_job_objects-IsSettled}
use scrapeflow.JobRun.Lifecycle.{
  Transaction, start, charge, finish, api_cancel, commits, IsDelivered, commits-IsDelivered,
}
use scrapeflow.JobRun.Workflow.{
  Env, ScrapeOutput, scraped, extracted, answers, raises_before, raises_after, run, store,
  internal_error, activity_error, recording, complete,
}
use scrapeflow.JobRun.Workflow.Ends.{Ends}

abbrev settings : Settings
settings = record {
  default_quota_monthly_runs = 500;
  default_quota_concurrent_jobs = 5;
  default_quota_storage_bytes = 1000;
  default_quota_scheduled_jobs = 20;
}

abbrev obliging : Minio
obliging = record { removes = λ k. true; stat = λ k. none }

abbrev page : ScrapeOutput
page = record {
  result = record { path = 1; size = 40 };
  content_hash = 99;
  warnings = [];
  screenshots = record { path = 2; size = 60 } ∷ [];
}

abbrev pending_run : JobRun
pending_run = record {
  id = 5;
  status = Status.pending;
  started_at = none;
  completed_at = none;
  result_path = none;
  warnings = none;
  error = none;
  content_hash = none;
}

abbrev begin : State
begin = record {
  run = some pending_run;
  user_id = 7;
  llm_config = some (record { llm_key_id = 3; model = "m" });
  llm_keys = λ k. some (record { provider = 0; encrypted_api_key = 0 });
  job = some (record { has_url = true; events = [] });
  ledger = record { objects = []; quotas = λ u. none };
  bucket = λ k. false;
  notices = [];
  deliveries = [];
}

abbrev calm : Env
calm = record {
  settings = settings;
  minio = obliging;
  now = 10;
  scrape = scraped page;
  extract = extracted (record { path = 3; size = 5 });
  api_at_start = false;
  api_in_scrape = false;
  api_at_record = false;
  api_at_processing = false;
  api_in_extract = false;
  api_at_second_record = false;
  api_at_finish = false;
  cancel_before_scrape = false;
  cancel_after_scrape = false;
  cancel_before_extract = false;
  cancel_after_extract = false;
  cancel_at_end = false;
  start_call = answers;
  read_settings = answers;
  first_record = answers;
  processing = answers;
  second_record = answers;
  finish_call = answers;
  internal_finish = answers;
}

-- When the first call raises, its error ends the workflow, and the run is as the call left it.
unstarted : (run (record calm { start_call = raises_after }) begin).1 ≡ activity_error
unfolding run job_run_started
unstarted = refl

extraction_returned :
    (run calm begin).0.notices ≡ Status.completed ∷ Status.processing ∷ Status.running ∷ []
unfolding run job_run_started store read_llm_settings record_job_objects job_run_processing
    finish_job_run record_objects record_object scrapeflow.Quota.check_storage_quota
    scrapeflow.Quota.increment_storage_bytes recording complete discard_unrecorded
extraction_returned = refl

-- When the settings cannot be read the run fails, and its page stays in the bucket uncharged.
unread_settings_leak :
    ((run (record calm { read_settings = raises_before }) begin).0.bucket 1 ≡ true)
    × ((run (record calm { read_settings = raises_before }) begin).0.ledger.objects ≡ [])
unfolding run job_run_started store internal_error finish_job_run discard_unrecorded
unread_settings_leak = (refl, refl)

abbrev cancelled_late : List Transaction
cancelled_late =
    start 1
    ∷ charge settings obliging (record { objects = page.result ∷ []; content_hash = some 99 }) 2
    ∷ finish obliging
        (record {
          status = Outcome.completed;
          result_path = some 1;
          error = none;
          warnings = none;
          discard = [];
        })
        3
    ∷ api_cancel
    ∷ []

commits-IsDelivered_example : IsDelivered (commits begin cancelled_late)
commits-IsDelivered_example = commits-IsDelivered begin cancelled_late (λ r e. tt)

abbrev failed_run : JobRun
failed_run = record pending_run { status = Status.failed }

-- The page is in the bucket, and so is an object of another run that no row holds yet.
abbrev uploaded : State
uploaded = record begin { bucket = λ k. (k == 1) || (k == 77) }

record_job_objects-IsSettled_example :
    IsSettled
      (1 ∷ [])
      uploaded
      (record_job_objects settings obliging
        (record { objects = page.result ∷ []; content_hash = none })
        4
        uploaded).0
record_job_objects-IsSettled_example =
    record_job_objects-IsSettled settings obliging
      (record { objects = page.result ∷ []; content_hash = none }) 4 uploaded (λ k. refl)

-- A run that was cancelled before its start failed is failed again, with a webhook.
overwrites_cancel :
    let t = fail_unstarted_run "no engine" 9 (cancel_active_run begin) in
    (t.run ≡ some (failed_start "no engine" 9 pending_run))
    × (t.deliveries ≡ failure_of begin (failed_start "no engine" 9 pending_run))
unfolding fail_unstarted_run cancel_active_run
overwrites_cancel = (refl, refl)

fail_unstarted_run-final_example :
    let t = commits (fail_unstarted_run "no engine" 9 begin) cancelled_late in
    (t.run ≡ some (failed_start "no engine" 9 pending_run))
    × (t.deliveries ≡ failure_of begin (failed_start "no engine" 9 pending_run))
    × (t.notices ≡ Status.failed ∷ [])
fail_unstarted_run-final_example =
    fail_unstarted_run-final "no engine" 9 begin pending_run cancelled_late refl refl
