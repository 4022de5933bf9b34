-- ===== src/Crawl/Examples.antt =====
-- A crawl of two pages at most: its seed, then the links it found.
use scrapeflow.Base.{
  ℕ, ◌+◌, ◌≡◌, refl, true, false, none, some, List, [], ◌∷◌, ◌++◌, arith, ◌==◌, if◌then◌else◌,
  get_or, map,
}
use scrapeflow.Quota.{Settings}
use scrapeflow.Ledger.{Minio}
use scrapeflow.Ledger.Balance.{IsBalanced}
use scrapeflow.Crawl.{crawl_started, cancel_crawl, Crawl, CrawlStatus, QueueStatus, State}
use scrapeflow.Crawl.Gate.{normalise, gate_reason, UrlLibrary, UrlParts, Source, Scheme, SsrfCheck}
use scrapeflow.Crawl.Frontier.{UrlBatch, admit_urls, claim_crawl_pages}
use scrapeflow.Crawl.Lane.Unstarted.{inserted, fail_unstarted_crawl-final}
use scrapeflow.Crawl.Pages.{
  fail_unstarted_crawl, FinishCrawlInput, Outcome, finish_crawl, record_crawl_page,
}
use scrapeflow.Crawl.Lane.{
  Transaction, start, admit, claim, record_page, finish, api_cancel, commit, commits,
}
use scrapeflow.Crawl.Lane.Capped.{commits-IsCapped}
use scrapeflow.Crawl.Lane.Counted.{IsCapped}
use scrapeflow.Crawl.Lane.Closed.{finish_crawl-final}
use scrapeflow.Crawl.Lane.Ended.{IsClosed, Same}
use scrapeflow.Crawl.Lane.Charged.{crawl-IsBalanced}

abbrev parts : ℕ → UrlParts
parts url = record {
  scheme = Scheme.https;
  hostname = some url;
  path = 47 ∷ url ∷ [];
  query = some url;
  fragment = none;
}

-- A host for each URL; 9 resolves to an internal address.
abbrev pub urls : UrlLibrary
urls = record {
  strip = λ url. url;
  urlsplit = λ url. some (parts url);
  urlunsplit = λ p. get_or p.query 0;
  registrable_domain = λ url. 1;
  validate_no_ssrf = λ url. if url == 9 then SsrfCheck.refused else SsrfCheck.passes;
}

abbrev pub settings : Settings
settings = record {
  default_quota_monthly_runs = 500;
  default_quota_concurrent_jobs = 5;
  default_quota_storage_bytes = 1000;
  default_quota_scheduled_jobs = 5;
}

abbrev pub minio : Minio
minio = record { removes = λ key. true; stat = λ key. none }

abbrev pub queued_crawl : Crawl
queued_crawl = record {
  user_id = 7;
  seed_url = 1;
  status = CrawlStatus.queued;
  max_pages = 2;
  include_paths = [];
  exclude_paths = [];
  webhook_url = some 80;
  total_queued = 0;
  total_completed = 0;
  total_failed = 0;
  dropped = λ key. 0;
  error = none;
  completed_at = none;
}

abbrev pub begin : State
begin = record {
  crawl = some queued_crawl;
  pages = [];
  queue = [];
  ledger = record { objects = []; quotas = λ user. none };
  bucket = λ key. false;
  notices = [];
  deliveries = [];
}

abbrev batch : List ℕ → Source → ℕ → UrlBatch
batch links source depth = record { urls = links; source = source; depth = depth }

-- The seed is admitted, claimed and recorded; of its links 2 is admitted, 9 refused, 3 over the cap.
abbrev first_page : List Transaction
first_page =
    start
    ∷ admit urls (batch (1 ∷ []) Source.seed 0) 10
    ∷ claim settings (λ n. 100 + n) (record { limit = 5; in_flight = [] }) 11
    ∷ record_page settings minio
        (record {
          page_id = 100;
          status = Outcome.completed;
          objects = record { path = 500; size = 40 } ∷ [];
          error = none;
        })
        12
    ∷ admit urls (batch (1 ∷ 9 ∷ 2 ∷ 3 ∷ []) Source.link 1) 13
    ∷ []

abbrev ending : FinishCrawlInput
ending = record { status = Outcome.completed; error = none }

frontier_of_first_page :
    map (λ i. i.status) (commits begin first_page).queue
    ≡ (QueueStatus.dropped ∷ QueueStatus.pending ∷ QueueStatus.completed ∷ [])
unfolding commits commit admit_urls record_crawl_page claim_crawl_pages crawl_started normalise
    gate_reason
frontier_of_first_page = refl

delivered_once :
    map
      (λ d. d.event)
      (commits begin
        (first_page ++ finish ending 20 ∷ api_cancel ∷ finish ending 21 ∷ [])).deliveries
    ≡ CrawlStatus.completed ∷ []
unfolding commits commit finish_crawl cancel_crawl admit_urls record_crawl_page claim_crawl_pages
    crawl_started normalise gate_reason
delivered_once = refl

commits-IsCapped_example : IsCapped (commits begin first_page)
commits-IsCapped_example =
    commits-IsCapped begin first_page (record { unique = tt; counted = refl; capped = omega arith })

finish_crawl-final_example :
    IsClosed (finish_crawl ending 20 (commits begin first_page)).0
    × Same
        (finish_crawl ending 20 (commits begin first_page)).0
        (commits (finish_crawl ending 20 (commits begin first_page)).0 first_page)
finish_crawl-final_example = finish_crawl-final ending 20 (commits begin first_page) first_page

crawl-IsBalanced_example : IsBalanced (λ user. 0) (commits begin first_page).ledger
crawl-IsBalanced_example =
    crawl-IsBalanced (λ user. 0) begin first_page (record { unique = tt; counted = λ user. refl })

fail_unstarted_crawl-final_example :
    let s' = fail_unstarted_crawl "no engine" 9 (inserted queued_crawl begin) in
    IsClosed s'
    × (s'.deliveries ≡ record { event = CrawlStatus.failed; webhook_url = 80 } ∷ [])
    × Same s' (commits s' first_page)
fail_unstarted_crawl-final_example =
    fail_unstarted_crawl-final "no engine" 9 begin queued_crawl first_page refl refl
