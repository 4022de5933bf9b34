-- ===== src/Ledger.antt =====
-- The storage ledger (api/app/core/ledger.py, delete_minio_object and stat_minio_size of
-- api/app/core/storage.py). Object keys and uuids are compared for equality only, and are numbers.
-- What MinIO answers is a parameter: whether it removes an object, and the size that it reports.
pub mod Balance
mod Examples
use scrapeflow.Base.{
  ℕ, ◌+◌, ◌≡◌, Bool, true, false, not, ◌&&◌, Option, none, some, List, [], ◌∷◌, ◌++◌, ltb, ◌==◌,
  if◌then◌else◌, filter, any,
}
use scrapeflow.Quota.{Quotas, increment_storage_bytes, decrement_storage_bytes}

-- A row of storage_objects, and the job run, crawl page or pipeline block that it hangs on.
pub record StorageObject : Type 0 where
  pub object_key : ℕ
  pub user_id : ℕ
  pub bytes : ℕ
  pub job_run_id : Option ℕ
  pub crawl_page_id : Option ℕ
  pub pipeline_run_block_id : Option ℕ

-- The tables storage_objects and user_quotas.
pub record Ledger : Type 0 where
  pub objects : List StorageObject
  pub quotas : Quotas

pub record Minio : Type 0 where
  -- remove_object(key) does not raise
  pub removes : ℕ → Bool
  -- the size that stat_object reports; none when it raises or reports no integer
  pub stat : ℕ → Option ℕ

unfoldable pub delete_minio_object : Minio → ℕ → Bool
delete_minio_object m key = m.removes key

-- 0 on any error.
unfoldable pub stat_minio_size : Minio → ℕ → ℕ
stat_minio_size m key = elim (m.stat key) [ none ↦ 0 | some size ↦ size ]

abbrev pub has_key : ℕ → List StorageObject → Bool
has_key key rows = any (λ o. o.object_key == key) rows

-- INSERT ... ON CONFLICT (object_key) DO NOTHING, and the charge when a row was inserted. The
-- second part is what the call returns.
unfoldable pub record_object : StorageObject → Ledger → Ledger × Bool
record_object row l = if has_key row.object_key l.objects then (l, false) else (
  record {
    objects = row ∷ l.objects;
    quotas =
        if ltb 0 row.bytes
        then increment_storage_bytes row.user_id row.bytes l.quotas
        else l.quotas;
  },
  true,
)

-- for obj in objects: await record_object(...)
unfoldable pub record_objects : List StorageObject → Ledger → Ledger
record_objects [] l = l
record_objects (o ∷ os) l = record_objects os (record_object o l).0

pub record ReleaseOutcome : Type 0 where
  pub released : ℕ
  pub freed_bytes : ℕ
  pub failed : ℕ
  pub failed_run_ids : List ℕ

abbrev pub no_outcome : ReleaseOutcome
no_outcome = record { released = 0; freed_bytes = 0; failed = 0; failed_run_ids = [] }

unfoldable pub merge : ReleaseOutcome → ReleaseOutcome → ReleaseOutcome
merge a b = record {
  released = a.released + b.released;
  freed_bytes = a.freed_bytes + b.freed_bytes;
  failed = a.failed + b.failed;
  failed_run_ids = a.failed_run_ids ++ b.failed_run_ids;
}

-- db.delete(row): object_key is unique, so it names the row.
abbrev delete_row : ℕ → List StorageObject → List StorageObject
delete_row key rows = filter (λ o. not (o.object_key == key)) rows

abbrev add_run : Option ℕ → List ℕ → List ℕ
add_run none ids = ids
add_run (some id) ids = id ∷ ids

-- The body of the loop of release_objects.
unfoldable pub release_row :
    Minio → StorageObject → Ledger × ReleaseOutcome → Ledger × ReleaseOutcome
unfolding delete_minio_object
release_row m row (l, out) =
    if delete_minio_object m row.object_key
    then (
      record {
        objects = delete_row row.object_key l.objects;
        quotas =
            if ltb 0 row.bytes
            then decrement_storage_bytes row.user_id row.bytes l.quotas
            else l.quotas;
      },
      record out { released = out.released + 1; freed_bytes = out.freed_bytes + row.bytes },
    )
    else (
      l,
      record out {
        failed = out.failed + 1;
        failed_run_ids = add_run row.job_run_id out.failed_run_ids;
      },
    )

release_from : Minio → List StorageObject → Ledger × ReleaseOutcome → Ledger × ReleaseOutcome
release_from m [] s = s
release_from m (row ∷ rows) s = release_from m rows (release_row m row s)

unfoldable pub release_objects : Minio → List StorageObject → Ledger → Ledger × ReleaseOutcome
unfolding release_from
release_objects m rows l = release_from m rows (l, no_outcome)

unfoldable pub objects_for_user : ℕ → Ledger → List StorageObject
objects_for_user user l = filter (λ o. o.user_id == user) l.objects

-- objects_for_runs, objects_for_crawl and objects_for_pipeline_run select by the column that names
-- the parent, being one of the given ids.
abbrev in_ids : List ℕ → Option ℕ → Bool
in_ids ids none = false
in_ids ids (some id) = any (λ i. i == id) ids

unfoldable pub objects_for_runs : List ℕ → Ledger → List StorageObject
objects_for_runs run_ids l = filter (λ o. in_ids run_ids o.job_run_id) l.objects

unfoldable pub objects_for_crawl : List ℕ → Ledger → List StorageObject
objects_for_crawl page_ids l = filter (λ o. in_ids page_ids o.crawl_page_id) l.objects

unfoldable pub objects_for_pipeline_run : List ℕ → Ledger → List StorageObject
objects_for_pipeline_run block_ids l =
    filter (λ o. in_ids block_ids o.pipeline_run_block_id) l.objects

-- The columns of job_runs that the pre-ledger fallback reads.
pub record LegacyRun : Type 0 where
  pub id : ℕ
  pub stamped : Bool
  pub result_path : Option ℕ

-- _release_legacy_result: the ledger after, and whether the object was removed.
unfoldable pub release_legacy_result : Minio → ℕ → ℕ → Ledger → Ledger × Bool
unfolding delete_minio_object stat_minio_size
release_legacy_result m path user l =
    let size = stat_minio_size m path in
    if delete_minio_object m path
    then (
      if ltb 0 size then record l { quotas = decrement_storage_bytes user size l.quotas } else l,
      true,
    )
    else (l, false)

-- `_is_legacy_run`, with the path that it found.
unfoldable pub legacy_path : LegacyRun → Option ℕ
legacy_path run = if run.stamped then run.result_path else none

release_legacy_run : Minio → ℕ → LegacyRun → Ledger × ReleaseOutcome → Ledger × ReleaseOutcome
unfolding release_legacy_result legacy_path
release_legacy_run m user run (l, out) = elim (legacy_path run) [
  | none ↦ (l, out)
  | some path ↦
      let (l', removed) = release_legacy_result m path user l in
      if removed then (l', out) else (
        l',
        record out { failed = out.failed + 1; failed_run_ids = run.id ∷ out.failed_run_ids },
      )
]

release_legacy_runs : Minio → ℕ → List LegacyRun → Ledger × ReleaseOutcome → Ledger × ReleaseOutcome
release_legacy_runs m user [] s = s
release_legacy_runs m user (run ∷ runs) s =
    release_legacy_runs m user runs (release_legacy_run m user run s)

unfoldable pub release_run_objects :
    Minio → List LegacyRun → List ℕ → ℕ → Ledger → Ledger × ReleaseOutcome
unfolding release_objects release_legacy_runs release_legacy_run objects_for_runs
release_run_objects m runs run_ids user l =
    release_legacy_runs m user runs (release_objects m (objects_for_runs run_ids l) l)

-- `legacy` is the user's runs that carry the old stamp.
unfoldable pub release_user_objects : Minio → List LegacyRun → ℕ → Ledger → Ledger × ReleaseOutcome
unfolding release_objects release_legacy_runs release_legacy_run objects_for_user
release_user_objects m legacy user l =
    release_legacy_runs m user legacy (release_objects m (objects_for_user user l) l)
