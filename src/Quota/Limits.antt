-- ===== src/Quota/Limits.antt =====
-- Admission against the meters, and the limits that serial admission keeps.
use scrapeflow.Base.{
  ℕ, zero, suc, ◌+◌, ◌≤◌, ◌<◌, ◌≡◌, ◌↔◌, Bool, true, false, not, ◌&&◌, none, some, List, [], ◌∷◌,
  ◌++◌, arith, ◌==◌, if◌then◌else◌, count, count-append, Option-cases, inl, inr, All, Bool-cases,
  ==_iff,
}
use scrapeflow.Calendar.{Datetime, before, first_of_month}
use scrapeflow.Calendar.Month.{IsDate}
use scrapeflow.Quota.{
  Settings, Db, RunUnit, column_or, count_monthly_runs, count_concurrent_jobs, storage_usage, admit,
}

abbrev pub monthly_limit : Settings → Db → ℕ → ℕ
monthly_limit s db user =
    column_or (λ q. q.monthly_runs_limit) s.default_quota_monthly_runs (db.quotas user)

abbrev pub concurrent_limit : Settings → Db → ℕ → ℕ
concurrent_limit s db user =
    column_or (λ q. q.concurrent_jobs_limit) s.default_quota_concurrent_jobs (db.quotas user)

-- There is room on every meter that the caller asks for.
pub record HasRoom (s : Settings) (db : Db) (user : ℕ) (now : Datetime) (runs : ℕ) (storage : Bool)
    (headroom : ℕ) : Type 0 where
  pub monthly : count_monthly_runs user now db + runs ≤ monthly_limit s db user
  pub concurrent : count_concurrent_jobs user db < concurrent_limit s db user
  pub stored :
      storage ≡ true
      → (storage_usage s user db.quotas).0 + headroom < (storage_usage s user db.quotas).1

-- `admit` returns without raising exactly when the monthly meter has room for all the runs, a slot
-- is free, and, where storage is asked for, the used bytes and the headroom stay below the limit.
pub admit-HasRoom :
    (s : Settings) (db : Db) (user : ℕ) (now : Datetime) (runs : ℕ) (storage : Bool) (headroom : ℕ)
    → (admit s db user now runs storage headroom ≡ none)
      ↔ HasRoom s db user now runs storage headroom
unfolding admit
admit-HasRoom s db user now runs storage headroom = (
  λ h. record { monthly = ground arith; concurrent = ground arith; stored = λ e. ground arith },
  λ r. ground arith,
)

-- A submission of a job, a batch or a pipeline run: whose it is, when it is admitted, how many
-- fetches it counts for, and what the meters read at that time of the slots, which come and go: a
-- pipeline run takes its slot when a block runs, long after its admission.
pub record Submission : Type 0 where
  pub user : ℕ
  pub at : Datetime
  pub runs : ℕ
  pub storage : Bool
  pub headroom : ℕ
  pub active : List ℕ

abbrev units : ℕ → RunUnit → List RunUnit
units zero u = []
units (suc n) u = u ∷ units n u

-- The rows that the caller inserts before it commits: a run unit for each fetch.
abbrev entered : Db → Submission → Db
entered db r = record db {
  quota_run_units =
      units r.runs (record { user_id = r.user; created_at = r.at }) ++ db.quota_run_units;
}

-- Under the lock, the checks and the insert are one step.
unfoldable pub submit : Settings → Db → Submission → Db
submit s db r =
    let met = record db { quota_active_submissions = r.active } in
    elim (admit s met r.user r.at r.runs r.storage r.headroom) [
      | none ↦ entered met r
      | some d ↦ met
    ]

unfoldable pub serve : Settings → Db → List Submission → Db
serve s db [] = db
serve s db (r ∷ rs) = serve s (submit s db r) rs

-- The user's fetches of one calendar month.
abbrev pub is_of : ℕ → ℕ → ℕ → RunUnit → Bool
is_of user year month u =
    u.user_id == user && (u.created_at.year == year && u.created_at.month == month)

unfoldable pub month_units : ℕ → ℕ → ℕ → Db → ℕ
month_units user year month db = count (is_of user year month) db.quota_run_units

-- Every unit has a date, and no user has more units in a calendar month than the user's limit.
pub record WithinLimits (s : Settings) (db : Db) : Type 0 where
  pub dated : All (λ u. IsDate u.created_at) db.quota_run_units
  pub runs : (user year month : ℕ) → month_units user year month db ≤ monthly_limit s db user

count-units :
    (p : RunUnit → Bool) (n : ℕ) (u : RunUnit) → count p (units n u) ≡ (if p u then n else 0)
count-units p zero u = ground arith
count-units p (suc n) u = ground (arith, count-units p n u)

dated-units :
    (n : ℕ) (u : RunUnit) (us : List RunUnit)
    → IsDate u.created_at
    → All (λ v. IsDate v.created_at) us
    → All (λ v. IsDate v.created_at) (units n u ++ us)
dated-units zero u us d ds = ds
dated-units (suc n) u us d ds = (d, dated-units n u us d ds)

-- A unit of the month of `now` is not before the first of that month.
month_counted :
    (now t : Datetime)
    → IsDate t
    → t.year ≡ now.year
    → t.month ≡ now.month
    → before t (first_of_month now) ≡ false
unfolding before first_of_month
month_counted now t d y m = ground (arith, d.day_pos)

-- So the meter counts at least the units of the calendar month.
count-month :
    (user : ℕ) (now : Datetime) (us : List RunUnit)
    → All (λ u. IsDate u.created_at) us
    → count (is_of user now.year now.month) us
      ≤ count (λ u. u.user_id == user && not (before u.created_at (first_of_month now))) us
count-month user now [] d = omega arith
count-month user now (u ∷ us) d = ground (
  arith,
  count-month user now us d.1,
  month_counted now u.created_at d.0,
  ==_iff u.created_at.year now.year,
  ==_iff u.created_at.month now.month,
)

month_units-entered :
    (db : Db) (r : Submission) (user year month : ℕ)
    → month_units user year month (entered db r)
      ≡ (if is_of user year month (record { user_id = r.user; created_at = r.at })
          then r.runs
          else 0)
        + month_units user year month db
unfolding month_units
month_units-entered db r user year month =
    let u : RunUnit = record { user_id = r.user; created_at = r.at } in
    ground (
      arith,
      count-append (is_of user year month) (units r.runs u) db.quota_run_units,
      count-units (is_of user year month) r.runs u,
    )

-- For the month of the submission, the admission left room.
month_room :
    (s : Settings) (db : Db) (r : Submission)
    → WithinLimits s db
    → HasRoom s db r.user r.at r.runs r.storage r.headroom
    → r.runs + month_units r.user r.at.year r.at.month db ≤ monthly_limit s db r.user
unfolding month_units count_monthly_runs
month_room s db r w room =
    omega (arith, room.monthly, count-month r.user r.at db.quota_run_units w.dated)

entered-WithinLimits :
    (s : Settings) (db : Db) (r : Submission)
    → IsDate r.at
    → HasRoom s db r.user r.at r.runs r.storage r.headroom
    → WithinLimits s db
    → WithinLimits s (entered db r)
entered-WithinLimits s db r d room w = record {
  dated =
      dated-units r.runs (record { user_id = r.user; created_at = r.at }) db.quota_run_units d
        w.dated;
  runs = λ user year month. rw (month_units-entered db r user year month) (bound user year month);
}
  where
    bound :
        (user year month : ℕ)
        → (if is_of user year month (record { user_id = r.user; created_at = r.at })
              then r.runs
              else 0)
            + month_units user year month db
          ≤ monthly_limit s db user
    bound user year month =
        elim (Bool-cases (is_of user year month (record { user_id = r.user; created_at = r.at }))) [
          | inl same ↦ rw same (
              ground (
                arith,
                month_room s db r w room,
                ==_iff r.user user,
                ==_iff r.at.year year,
                ==_iff r.at.month month,
              ))
          | inr other ↦ ground (arith, w.runs user year month)
        ]

submit-WithinLimits :
    (s : Settings) (db : Db) (r : Submission)
    → IsDate r.at
    → WithinLimits s db
    → WithinLimits s (submit s db r)
unfolding submit month_units
submit-WithinLimits s db r d w =
    let met = record db { quota_active_submissions = r.active } in
    let within : WithinLimits s met = record { dated = w.dated; runs = w.runs } in
    elim (Option-cases (admit s met r.user r.at r.runs r.storage r.headroom)) [
      | inl e ↦
          rw (e, submit)
            (entered-WithinLimits s met r d
              ((admit-HasRoom s met r.user r.at r.runs r.storage r.headroom).0 e) within)
      | inr (x, e) ↦ rw (e, submit) within
    ]

-- For submissions of jobs, batches and pipeline runs, whose run units are inserted in one step with
-- the check and dated at its time: no sequence of submissions, at valid dates in any order, refused
-- ones included, whatever slots are taken meanwhile, takes a user past the monthly limit in any
-- calendar month.
pub serve-WithinLimits :
    (s : Settings) (db : Db) (rs : List Submission)
    → All (λ r. IsDate r.at) rs
    → WithinLimits s db
    → WithinLimits s (serve s db rs)
unfolding serve
serve-WithinLimits s db [] d w = w
serve-WithinLimits s db (r ∷ rs) d w =
    serve-WithinLimits s (submit s db r) rs d.1 (submit-WithinLimits s db r d.0 w)
