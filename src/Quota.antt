-- ===== src/Quota.antt =====
-- Per-user quota enforcement (api/app/core/quota.py). A uuid is a number. The two count meters read
-- the rows of the views quota_run_units and quota_active_submissions, which are lists here; NULL is
-- none. Seconds and bytes are natural numbers.
pub mod Usage
pub mod Limits
mod Examples
use scrapeflow.Base.{
  ℕ, ◌+◌, ◌-◌, ◌≡◌, Bool, true, false, not, ◌&&◌, Option, none, some, List, [], ◌∷◌, ◌++◌, ltb, leb,
  ◌==◌, if◌then◌else◌, count, update, get_or,
}
use scrapeflow.Calendar.{Datetime, before, first_of_month, first_of_next_month}

-- The defaults of settings.py that the meters fall back to.
pub record Settings : Type 0 where
  pub default_quota_monthly_runs : ℕ
  pub default_quota_concurrent_jobs : ℕ
  pub default_quota_storage_bytes : ℕ
  pub default_quota_scheduled_jobs : ℕ

-- A row of user_quotas.
pub record UserQuota : Type 0 where
  pub monthly_runs_limit : Option ℕ
  pub concurrent_jobs_limit : Option ℕ
  pub scheduled_jobs_limit : Option ℕ
  pub storage_bytes_limit : Option ℕ
  pub storage_bytes_used : ℕ

-- The table user_quotas, by user.
abbrev pub Quotas : Type 0
Quotas = ℕ → Option UserQuota

-- A row of the view quota_run_units: one attempted fetch.
pub record RunUnit : Type 0 where
  pub user_id : ℕ
  pub created_at : Datetime

-- The columns of jobs that the schedule meter reads.
pub record ScheduledJob : Type 0 where
  pub id : ℕ
  pub user_id : ℕ
  pub schedule_active : Bool

pub record Db : Type 0 where
  pub quota_run_units : List RunUnit
  -- The user of each submission that holds a slot.
  pub quota_active_submissions : List ℕ
  pub jobs : List ScheduledJob
  pub quotas : Quotas

-- The column of the user's row, or the default where there is no row or the column is NULL.
abbrev pub column_or : (UserQuota → Option ℕ) → ℕ → Option UserQuota → ℕ
column_or column default none = default
column_or column default (some q) = get_or (column q) default

unfoldable pub count_monthly_runs : ℕ → Datetime → Db → ℕ
count_monthly_runs user now db =
    count (λ u. u.user_id == user && not (before u.created_at (first_of_month now)))
      db.quota_run_units

unfoldable pub count_concurrent_jobs : ℕ → Db → ℕ
count_concurrent_jobs user db = count (λ u. u == user) db.quota_active_submissions

-- (bytes used, limit)
unfoldable pub storage_usage_row : Settings → Option UserQuota → ℕ × ℕ
storage_usage_row s none = (0, s.default_quota_storage_bytes)
storage_usage_row s (some q) =
    (q.storage_bytes_used, get_or q.storage_bytes_limit s.default_quota_storage_bytes)

unfoldable pub storage_usage : Settings → ℕ → Quotas → ℕ × ℕ
unfolding storage_usage_row
storage_usage s user quotas = storage_usage_row s (quotas user)

pub data QuotaType : Type 0 where
  monthly_runs concurrent_jobs storage_bytes : QuotaType

-- The numbers of a refusal's detail: what is used, the limit, and when the meter resets.
pub record Detail : Type 0 where
  pub quota_type : QuotaType
  pub used : ℕ
  pub limit : ℕ
  pub resets_at : Option Datetime

-- `none` is (False, {}); `some detail` is (True, detail).
unfoldable pub quota_check : Settings → Db → ℕ → Datetime → QuotaType → ℕ → ℕ → Option Detail
unfolding count_monthly_runs count_concurrent_jobs storage_usage
quota_check s db user now monthly_runs batch_count headroom =
    let used = count_monthly_runs user now db in
    let limit =
      column_or (λ q. q.monthly_runs_limit) s.default_quota_monthly_runs (db.quotas user) in
    if ltb limit (used + batch_count)
    then some (record {
      quota_type = monthly_runs;
      used = used;
      limit = limit;
      resets_at = some (first_of_next_month now);
    })
    else none
quota_check s db user now concurrent_jobs batch_count headroom =
    let used = count_concurrent_jobs user db in
    let limit =
      column_or (λ q. q.concurrent_jobs_limit) s.default_quota_concurrent_jobs (db.quotas user) in
    if ltb limit (used + batch_count)
    then some
        (record { quota_type = concurrent_jobs; used = used; limit = limit; resets_at = none })
    else none
quota_check s db user now storage_bytes batch_count headroom =
    let (used, limit) = storage_usage s user db.quotas in
    if leb limit (used + headroom)
    then some (record { quota_type = storage_bytes; used = used; limit = limit; resets_at = none })
    else none

-- True if the quota is exceeded, at the default batch count and headroom.
unfoldable pub is_quota_exceeded : Settings → Db → ℕ → Datetime → QuotaType → Bool
unfolding quota_check
is_quota_exceeded s db user now q = elim (quota_check s db user now q 1 0) [
  | none ↦ false
  | some d ↦ true
]

abbrev or_else : Option Detail → Option Detail → Option Detail
or_else none d = d
or_else (some d) _ = some d

-- admit: the checks in order, the first refusal raised as HTTP 429 (`some`). The lock on the user's
-- row makes each call and its caller's insert one step, which `submit` takes.
unfoldable pub admit : Settings → Db → ℕ → Datetime → ℕ → Bool → ℕ → Option Detail
unfolding quota_check
admit s db user now runs storage headroom =
    or_else (quota_check s db user now monthly_runs runs 0) (
      or_else (quota_check s db user now concurrent_jobs 1 0)
        (if storage then quota_check s db user now storage_bytes 1 headroom else none))

-- (active schedules, limit)
unfoldable pub scheduled_jobs_usage : Settings → Db → ℕ → Option ℕ → ℕ × ℕ
scheduled_jobs_usage s db user exclude = (
  count
      (λ j.
        j.user_id == user
        && j.schedule_active
        && elim exclude [ none ↦ true | some id ↦ not (j.id == id) ])
      db.jobs,
  column_or (λ q. q.scheduled_jobs_limit) s.default_quota_scheduled_jobs (db.quotas user),
)

-- check_scheduled_jobs_quota: `true` is the 429.
unfoldable pub scheduled_jobs_refused : Settings → Db → ℕ → Option ℕ → Bool
unfolding scheduled_jobs_usage
scheduled_jobs_refused s db user exclude =
    let (used, limit) = scheduled_jobs_usage s db user exclude in ltb limit (used + 1)

unfoldable pub check_storage_quota : Settings → ℕ → Quotas → ℕ → Bool
unfolding storage_usage
check_storage_quota s user quotas additional =
    let (used, limit) = storage_usage s user quotas in leb (used + additional) limit

-- The row that the upsert inserts: its limits are NULL.
abbrev fresh_row : ℕ → UserQuota
fresh_row size = record {
  monthly_runs_limit = none;
  concurrent_jobs_limit = none;
  scheduled_jobs_limit = none;
  storage_bytes_limit = none;
  storage_bytes_used = size;
}

abbrev incremented : ℕ → Option UserQuota → UserQuota
incremented size none = fresh_row size
incremented size (some q) = record q { storage_bytes_used = q.storage_bytes_used + size }

-- GREATEST(0, used - size) is the subtraction of natural numbers.
abbrev decremented : ℕ → Option UserQuota → UserQuota
decremented size none = fresh_row 0
decremented size (some q) = record q { storage_bytes_used = q.storage_bytes_used - size }

unfoldable pub increment_storage_bytes : ℕ → ℕ → Quotas → Quotas
increment_storage_bytes user size quotas =
    update quotas user (some (incremented size (quotas user)))

unfoldable pub decrement_storage_bytes : ℕ → ℕ → Quotas → Quotas
decrement_storage_bytes user size quotas =
    update quotas user (some (decremented size (quotas user)))
