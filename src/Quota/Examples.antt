-- ===== src/Quota/Examples.antt =====
-- One user with a limit of three runs, and three submissions: the second is refused, the third comes
-- a month later.
use scrapeflow.Base.{◌≡◌, refl, true, none, some, List, [], ◌∷◌, arith, length, if◌then◌else◌, ◌==◌}
use scrapeflow.Calendar.{Datetime, before, first_of_month}
use scrapeflow.Quota.{Settings, Db, UserQuota, admit, scheduled_jobs_refused}
use scrapeflow.Quota.Limits.{
  Submission, serve, submit, month_units, WithinLimits, serve-WithinLimits,
}

abbrev pub settings : Settings
settings = record {
  default_quota_monthly_runs = 500;
  default_quota_concurrent_jobs = 5;
  default_quota_storage_bytes = 1000;
  default_quota_scheduled_jobs = 20;
}

abbrev noon : Datetime
noon = record {
  year = 2026;
  month = 11;
  day = 26;
  hour = 12;
  minute = 0;
  second = 0;
  microsecond = 0;
}

abbrev later : Datetime
later = record noon { hour = 18 }

abbrev december : Datetime
december = record noon { month = 12; day = 1 }

abbrev small_quota : UserQuota
small_quota = record {
  monthly_runs_limit = some 3;
  concurrent_jobs_limit = none;
  scheduled_jobs_limit = some 0;
  storage_bytes_limit = none;
  storage_bytes_used = 10;
}

abbrev db : Db
db = record {
  quota_run_units = [];
  quota_active_submissions = [];
  jobs = [];
  quotas = λ u. if u == 7 then some small_quota else none;
}

abbrev submissions : List Submission
submissions =
    record { user = 7; at = noon; runs = 2; storage = true; headroom = 0; active = [] }
    ∷ record { user = 7; at = later; runs = 2; storage = true; headroom = 0; active = 7 ∷ [] }
    ∷ record { user = 7; at = december; runs = 2; storage = true; headroom = 0; active = [] }
    ∷ []

second_refused : length (serve settings db submissions).quota_run_units ≡ 4
unfolding serve submit admit before first_of_month
second_refused = refl

no_schedules : scheduled_jobs_refused settings db 7 none ≡ true
unfolding scheduled_jobs_refused
no_schedules = refl

db-WithinLimits : WithinLimits settings db
unfolding month_units
db-WithinLimits = record { dated = tt; runs = λ user year month. omega arith }

serve-WithinLimits_example : WithinLimits settings (serve settings db submissions)
serve-WithinLimits_example =
    serve-WithinLimits settings db submissions (omega arith, (omega arith, (omega arith, tt)))
      db-WithinLimits
