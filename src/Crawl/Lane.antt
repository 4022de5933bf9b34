-- ===== src/Crawl/Lane.antt =====
-- A crawl's activities and its API cancel as transactions, in the order they commit.
pub mod Rows
pub mod Counted
pub mod Capped
pub mod Ended
pub mod Closed
pub mod Unstarted
pub mod Charged
use scrapeflow.Base.{ℕ, List, [], ◌∷◌}
use scrapeflow.Quota.{Settings}
use scrapeflow.Ledger.{Minio}
use scrapeflow.Crawl.{State, crawl_started, cancel_crawl}
use scrapeflow.Crawl.Gate.{UrlLibrary}
use scrapeflow.Crawl.Frontier.{UrlBatch, ClaimInput, admit_urls, vet_urls, claim_crawl_pages}
use scrapeflow.Crawl.Pages.{RecordCrawlPageInput, FinishCrawlInput, record_crawl_page, finish_crawl}

pub data Transaction : Type 0 where
  start : Transaction
  admit : UrlLibrary → UrlBatch → ℕ → Transaction
  vet : UrlLibrary → UrlBatch → Transaction
  claim : Settings → (ℕ → ℕ) → ClaimInput → ℕ → Transaction
  record_page : Settings → Minio → RecordCrawlPageInput → ℕ → Transaction
  finish : FinishCrawlInput → ℕ → Transaction
  api_cancel : Transaction

unfoldable pub commit : State → Transaction → State
commit s start = (crawl_started s).0
commit s (admit u i now) = (admit_urls u i now s).0
commit s (vet u i) = (vet_urls u i s).0
commit s (claim settings ids i now) = (claim_crawl_pages settings ids i now s).0
commit s (record_page settings m i now) = (record_crawl_page settings m i now s).0
commit s (finish i now) = (finish_crawl i now s).0
commit s api_cancel = (cancel_crawl s).0

unfoldable pub commits : State → List Transaction → State
commits s [] = s
commits s (t ∷ ts) = commits (commit s t) ts
