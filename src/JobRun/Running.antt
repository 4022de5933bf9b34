-- ===== src/JobRun/Running.antt =====
-- A job run and its mirrors until its end (api/app/workflows/activities/job_runs.py).
use scrapeflow.Base.{
  ℕ, Bool, true, false, not, ◌&&◌, Option, none, some, List, [], ◌∷◌, String, map, ltb,
  if◌then◌else◌, sum_by, update,
}
use scrapeflow.Quota.{Settings, check_storage_quota}
use scrapeflow.Ledger.{StorageObject, Ledger, Minio, delete_minio_object, has_key, record_objects}

pub data Status : Type 0 where
  pending running processing completed failed cancelled : Status

pub record JobRun : Type 0 where
  pub id : ℕ
  pub status : Status
  pub started_at : Option ℕ
  pub completed_at : Option ℕ
  pub result_path : Option ℕ
  pub warnings : Option (List String)
  pub error : Option String
  pub content_hash : Option ℕ

pub data Event : Type 0 where
  job_completed job_failed : Event

-- The webhook columns of the run's job.
pub record Webhook : Type 0 where
  pub has_url : Bool
  -- webhook_events; NULL and the empty list mean every event
  pub events : List Event

pub record LlmKey : Type 0 where
  pub provider : ℕ
  pub encrypted_api_key : ℕ

pub record LlmConfig : Type 0 where
  pub llm_key_id : ℕ
  pub model : String

-- A row of webhook_deliveries that create_webhook_delivery adds, pending.
pub record Delivery : Type 0 where
  pub event : Event
  pub minio_path : Option ℕ
  pub error : Option String

pub record State : Type 0 where
  pub run : Option JobRun
  pub user_id : ℕ
  pub llm_config : Option LlmConfig
  pub llm_keys : ℕ → Option LlmKey
  -- none on the batch lane: the run has no job
  pub job : Option Webhook
  pub ledger : Ledger
  -- the objects that MinIO holds
  pub bucket : ℕ → Bool
  pub notices : List Status
  pub deliveries : List Delivery

-- What the activities return: the run's status, or "gone".
pub data RunState : Type 0 where
  gone : RunState
  at : Status → RunState

abbrev pub is_active : Status → Bool
is_active Status.pending = true
is_active Status.running = true
is_active Status.processing = true
is_active _ = false

pub record StoredObject : Type 0 where
  pub path : ℕ
  pub size : ℕ

abbrev pub paths : List StoredObject → List ℕ
paths objects = map (λ o. o.path) objects

unfoldable pub notify : JobRun → State → State
notify run s = record s { notices = run.status ∷ s.notices }

-- The loop of discard_unrecorded; the recorded keys were read before it.
unfoldable pub discard_each : Minio → List StorageObject → List ℕ → (ℕ → Bool) → ℕ → Bool
discard_each m recorded [] bucket = bucket
discard_each m recorded (path ∷ rest) bucket = discard_each m recorded rest (
    if has_key path recorded
    then bucket
    else if delete_minio_object m path
    then update bucket path false
    else bucket)

unfoldable pub discard_unrecorded : Minio → List ℕ → State → State
unfolding discard_each
discard_unrecorded m keys s = record s { bucket = discard_each m s.ledger.objects keys s.bucket }

unfoldable pub move : Status → Status → ℕ → JobRun → State → State × RunState
unfolding notify
move Status.pending Status.running now run s = elim run.status [
  | Status.pending ↦
      let run' = record run { status = Status.running; started_at = some now } in
      (notify run' (record s { run = some run' }), at Status.running)
  | other ↦ (s, at run.status)
]
move Status.running Status.processing now run s = elim run.status [
  | Status.running ↦
      let run' = record run { status = Status.processing } in
      (notify run' (record s { run = some run' }), at Status.processing)
  | other ↦ (s, at run.status)
]
move _ _ now run s = (s, at run.status)

unfoldable pub job_run_started : ℕ → State → State × RunState
unfolding move
job_run_started now s = elim s.run [
  | none ↦ (s, gone)
  | some run ↦ move Status.pending Status.running now run s
]

unfoldable pub job_run_processing : ℕ → State → State × RunState
unfolding move
job_run_processing now s = elim s.run [
  | none ↦ (s, gone)
  | some run ↦ move Status.running Status.processing now run s
]

-- JobLlm: no step, a step that cannot run, or its settings.
pub data JobLlm : Type 0 where
  no_llm : JobLlm
  llm_error : String → JobLlm
  llm : LlmKey → LlmConfig → JobLlm

unfoldable pub read_llm_settings : State → JobLlm
read_llm_settings s = elim s.run [
  | none ↦ no_llm
  | some run ↦ elim s.llm_config [
    | none ↦ no_llm
    | some config ↦ elim (s.llm_keys config.llm_key_id) [
      | none ↦ llm_error "LLM key not found or deleted"
      | some key ↦ llm key config
    ]
  ]
]

pub record RecordJobObjectsInput : Type 0 where
  pub objects : List StoredObject
  pub content_hash : Option ℕ

abbrev pub row_of : ℕ → JobRun → StoredObject → StorageObject
row_of user run o = record {
  object_key = o.path;
  user_id = user;
  bytes = o.size;
  job_run_id = some run.id;
  crawl_page_id = none;
  pipeline_run_block_id = none;
}

abbrev pub or_keep : Option ℕ → Option ℕ → Option ℕ
or_keep none old = old
or_keep (some new) old = some new

-- `total > 0 and not await check_storage_quota(...)`
unfoldable pub over_limit : Settings → List StoredObject → State → Bool
over_limit settings objects s =
    let total = sum_by (λ o. o.size) objects in
    ltb 0 total && not (check_storage_quota settings s.user_id s.ledger.quotas total)

unfoldable pub record_job_objects :
    Settings → Minio → RecordJobObjectsInput → ℕ → State → State × RunState
unfolding over_limit notify
record_job_objects settings m i now s = elim s.run [
  | none ↦ (discard_unrecorded m (paths i.objects) s, gone)
  | some run ↦
      if not (is_active run.status)
      then (discard_unrecorded m (paths i.objects) s, at run.status)
      else if over_limit settings i.objects s
      then (let run' = record run {
        status = Status.failed;
        error = some "storage_quota_exceeded";
        completed_at = some now;
      } in
          (
            notify run' (record (discard_unrecorded m (paths i.objects) s) { run = some run' }),
            at Status.failed,
          ))
      else (
        record s {
          run = some (record run { content_hash = or_keep i.content_hash run.content_hash });
          ledger = record_objects (map (row_of s.user_id run) i.objects) s.ledger;
        },
        at run.status,
      )
]
