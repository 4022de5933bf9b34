-- ===== src/Ledger/Examples.antt =====
-- A user with two objects, one of which MinIO does not remove.
use scrapeflow.Base.{ℕ, ◌≡◌, refl, not, none, some, List, [], ◌∷◌, filter, ◌==◌}
use scrapeflow.Quota.{increment_storage_bytes}
use scrapeflow.Quota.Usage.{row_used}
use scrapeflow.Ledger.{StorageObject, Ledger, Minio, record_object, record_objects, release_objects}
use scrapeflow.Ledger.Balance.{IsBalanced, record_objects-IsBalanced}
use scrapeflow.Ledger.Balance.Release.{release_objects-IsBalanced}

abbrev page : ℕ → ℕ → StorageObject
page key size = record {
  object_key = key;
  user_id = 7;
  bytes = size;
  job_run_id = some 70;
  crawl_page_id = none;
  pipeline_run_block_id = none;
}

abbrev empty : Ledger
empty = record { objects = []; quotas = λ u. none }

abbrev no_legacy : ℕ → ℕ
no_legacy u = 0

abbrev stuck : Minio
stuck = record { removes = λ k. not (k == 2); stat = λ k. none }

empty-IsBalanced : IsBalanced no_legacy empty
empty-IsBalanced = record { unique = tt; counted = λ u. refl }

abbrev two_pages : List StorageObject
two_pages = page 1 100 ∷ page 2 30 ∷ []

recorded-IsBalanced : IsBalanced no_legacy (record_objects two_pages empty)
recorded-IsBalanced = record_objects-IsBalanced no_legacy two_pages empty empty-IsBalanced

used_after : row_used ((record_objects two_pages empty).quotas 7) ≡ 130
unfolding record_objects record_object increment_storage_bytes
used_after = refl

release_objects-IsBalanced_example :
    let l = record_objects two_pages empty in
    IsBalanced no_legacy (release_objects stuck (filter (λ o. o.user_id == 7) l.objects) l).0
release_objects-IsBalanced_example =
    release_objects-IsBalanced no_legacy stuck (λ o. o.user_id == 7)
      (record_objects two_pages empty) recorded-IsBalanced
