-- ===== src/PipelineRoutes.antt =====
-- The pipeline routes (api/app/routers/pipelines.py): the tables they read and write, and what a
-- refused request answers. Uuids, URLs and the values of run inputs are numbers, names are texts;
-- a table's rows are a list. Authentication, the rate limit and the pipelines switch come before.
pub mod CheckRun
pub mod CreateRun
pub mod ExternalUrls
pub mod Checks
pub mod Started
pub mod Answers
pub mod Workflow
pub mod Definitions
pub mod Requests
pub mod Pinned
pub mod Saved
pub mod StoredSecrets
mod Examples
mod SavedExamples
use scrapeflow.Base.{
  ℕ, Bool, true, false, not, ◌&&◌, Option, none, some, List, [], ◌∷◌, String, max, ◌==◌,
  if◌then◌else◌,
}
use scrapeflow.Quota.{Detail}
use scrapeflow.Validator
use scrapeflow.Validator.Rules.{StoredDefinition}
use scrapeflow.Definition.{Unreadable}
use scrapeflow.Ledger.{Ledger}
use scrapeflow.PipelineMirror.Mirrors.{PipelineRun, PipelineRunBlock, Notice, State}
use scrapeflow.Security.{SsrfStatus}

pub record Pipeline : Type 0 where
  pub id : ℕ
  pub user_id : ℕ
  pub name : ℕ
  -- deleted_at is set
  pub is_deleted : Bool

pub record PipelineVersion : Type 0 where
  pub id : ℕ
  pub pipeline_id : ℕ
  pub version : ℕ
  pub definition : StoredDefinition

pub record UserLlmKey : Type 0 where
  pub id : ℕ
  pub user_id : ℕ
  -- none where it is NULL or empty
  pub base_url : Option ℕ

-- A row of pipeline_runs with its block rows, in the order of their positions.
pub record StoredRun : Type 0 where
  pub id : ℕ
  pub pipeline_id : ℕ
  pub pipeline_version_id : ℕ
  pub run : PipelineRun
  pub blocks : List PipelineRunBlock

pub record Tables : Type 0 where
  pub pipelines : List Pipeline
  pub versions : List PipelineVersion
  pub llm_keys : List UserLlmKey
  pub quota : scrapeflow.Quota.Db
  pub ledger : Ledger
  pub runs : List StoredRun

-- What the mirrors of this run see.
abbrev pub state_of : Tables → StoredRun → State
state_of t r = record { run = some r.run; blocks = r.blocks; ledger = t.ledger; notices = [] }

pub data Message : Type 0 where
  missing_input unexpected_input : List ℕ → Message
  cannot_be_run : Unreadable → Message
  no_llm_key : Message

pub record Problem : Type 0 where
  pub block_id : Option ℕ
  pub message : Message

-- The HTTPExceptions.
pub data Refusal : Type 0 where
  -- 404
  not_found : Refusal
  -- 422
  unprocessable : List Problem → Refusal
  -- 422 or 400
  ssrf : SsrfStatus → Refusal
  -- the 500 of a KeyError
  key_error : Refusal
  -- 429
  quota_exceeded : Detail → Refusal
  -- 422: what validate refuses
  invalid : List scrapeflow.Validator.Problem → Refusal
  -- 429: the user's pipelines
  pipeline_limit : ℕ → Refusal
  -- 409
  name_in_use updated_meanwhile : Refusal
  -- the 500 of a row that is gone
  row_gone : Refusal

pub data Checked {ℓ} (A : Type ℓ) : Type ℓ where
  refused : Refusal → Checked A
  passed : A → Checked A

infixl 5 ◌>>=◌ ◌>>◌
abbrev pub ◌>>=◌ {ℓ κ} : {A : Type ℓ} {B : Type κ} → Checked A → (A → Checked B) → Checked B
passed a >>= f = f a
refused r >>= f = refused r

abbrev pub ◌>>◌ {ℓ} : {B : Type ℓ} → Checked (Unit {0}) → Checked B → Checked B
m >> k = m >>= λ _. k

-- The row, or the refusal.
abbrev pub or_refuse {ℓ} : {A : Type ℓ} → Refusal → Option A → Checked A
or_refuse r none = refused r
or_refuse r (some a) = passed a

-- one_or_none, on a condition that one row can meet
abbrev pub one {ℓ} : {A : Type ℓ} → (A → Bool) → List A → Option A
one p [] = none
one p (x ∷ xs) = let rest = one p xs in if p x then some x else rest

-- select(func.max(version)) of the pipeline
unfoldable pub latest_version : ℕ → List PipelineVersion → ℕ
latest_version pipeline [] = 0
latest_version pipeline (v ∷ vs) =
    let rest = latest_version pipeline vs in
    if v.pipeline_id == pipeline then max v.version rest else rest

abbrev pub is_owned : ℕ → ℕ → Pipeline → Bool
is_owned user id p = (p.id == id) && (p.user_id == user) && not p.is_deleted

abbrev pub version_row : ℕ → ℕ → Tables → Option PipelineVersion
version_row pipeline version t =
    one (λ v. (v.pipeline_id == pipeline) && (v.version == version)) t.versions

abbrev pub both {ℓ} : {A B : Type ℓ} → Option A → Option B → Option (A × B)
both (some a) (some b) = some (a, b)
both _ _ = none

-- The join of the user's pipeline and its version of this number.
unfoldable pub joined : Tables → ℕ → ℕ → ℕ → Option (Pipeline × PipelineVersion)
joined t user id version = both (one (is_owned user id) t.pipelines) (version_row id version t)

-- _owned_pipeline: the pipeline with its latest version.
unfoldable pub owned_pipeline : Tables → ℕ → ℕ → Option (Pipeline × PipelineVersion)
unfolding joined latest_version
owned_pipeline t user id = joined t user id (latest_version id t.versions)

unfoldable pub version_to_run : Tables → ℕ → ℕ → Option ℕ → Checked (Pipeline × PipelineVersion)
unfolding joined owned_pipeline
version_to_run t user id none = or_refuse not_found (owned_pipeline t user id)
version_to_run t user id (some version) = or_refuse not_found (joined t user id version)
