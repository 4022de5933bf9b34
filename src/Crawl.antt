-- ===== src/Crawl.antt =====
-- The crawl lane's activities (api/app/workflows/activities/crawls.py), the counters and notices of
-- api/app/core/crawl_progress.py, and cancel_crawl of api/app/core/dispatch.py. The state is one
-- crawl's row, its crawl_pages and crawl_queue rows, the ledger, the bucket, and what is notified
-- and delivered. Every activity locks the crawl row first, so each is one step. Urls, uuids, paths
-- and times are numbers; the characters of a path are numbers too.
pub mod Gate
pub mod Frontier
pub mod Pages
pub mod Lane
pub mod Examples
use scrapeflow.Base.{
  ℕ, Bool, true, false, Option, none, some, List, [], ◌∷◌, String, map, ◌==◌, if◌then◌else◌, count,
}
use scrapeflow.Ledger.{Ledger}

pub data CrawlStatus : Type 0 where
  queued running completed failed cancelled : CrawlStatus

pub data PageStatus : Type 0 where
  pending running completed failed cancelled : PageStatus

pub data QueueStatus : Type 0 where
  pending dispatched completed failed skipped dropped : QueueStatus

-- Why a URL is refused.
pub data Reason : Type 0 where
  invalid out_of_scope filtered ssrf unresolved : Reason

-- The keys of crawls.dropped: a page's reason, or `sitemap_<reason>`.
pub data DropKey : Type 0 where
  page_drop : Reason → DropKey
  sitemap_drop : Reason → DropKey

-- `include_paths` and `exclude_paths` are empty where the column is NULL: both are falsy.
pub record Crawl : Type 0 where
  pub user_id : ℕ
  pub seed_url : ℕ
  pub status : CrawlStatus
  pub max_pages : ℕ
  pub include_paths : List (List ℕ)
  pub exclude_paths : List (List ℕ)
  pub webhook_url : Option ℕ
  pub total_queued : ℕ
  pub total_completed : ℕ
  pub total_failed : ℕ
  pub dropped : DropKey → ℕ
  pub error : Option String
  pub completed_at : Option ℕ

pub record CrawlPage : Type 0 where
  pub id : ℕ
  pub url : ℕ
  pub depth : ℕ
  pub status : PageStatus
  pub result_path : Option ℕ
  pub error : Option String
  pub created_at : ℕ
  pub completed_at : Option ℕ

pub record CrawlQueueItem : Type 0 where
  pub url : ℕ
  pub depth : ℕ
  pub status : QueueStatus
  pub drop_reason : Option Reason
  pub crawl_page_id : Option ℕ
  pub created_at : ℕ
  pub dispatched_at : Option ℕ
  pub completed_at : Option ℕ

-- The payload of a notify: the row's status and counters, and the page.
pub record Notice : Type 0 where
  pub status : CrawlStatus
  pub total_queued : ℕ
  pub total_completed : ℕ
  pub total_failed : ℕ
  pub page : Option (ℕ × PageStatus)

-- The status in `crawl.<status>` of a webhook_deliveries row, with the receiver.
pub record Delivery : Type 0 where
  pub event : CrawlStatus
  pub webhook_url : ℕ

pub record State : Type 0 where
  pub crawl : Option Crawl
  pub pages : List CrawlPage
  pub queue : List CrawlQueueItem
  pub ledger : Ledger
  pub bucket : ℕ → Bool
  pub notices : List Notice
  pub deliveries : List Delivery

-- What an activity returns as `state`: the crawl's status, or "gone".
pub data CrawlState : Type 0 where
  gone : CrawlState
  at : CrawlStatus → CrawlState

abbrev pub is_running : CrawlStatus → Bool
is_running CrawlStatus.running = true
is_running _ = false

-- crawl_progress.TERMINAL
abbrev pub is_terminal : CrawlStatus → Bool
is_terminal CrawlStatus.queued = false
is_terminal CrawlStatus.running = false
is_terminal _ = true

-- _PAGE_TERMINAL
abbrev pub is_page_terminal : PageStatus → Bool
is_page_terminal PageStatus.pending = false
is_page_terminal PageStatus.running = false
is_page_terminal _ = true

abbrev pub is_pending : QueueStatus → Bool
is_pending QueueStatus.pending = true
is_pending _ = false

abbrev pub is_dispatched : QueueStatus → Bool
is_dispatched QueueStatus.dispatched = true
is_dispatched _ = false

abbrev pub is_completed_page : CrawlPage → Bool
is_completed_page p = elim p.status [ PageStatus.completed ↦ true | _ ↦ false ]

abbrev pub is_failed_page : CrawlPage → Bool
is_failed_page p = elim p.status [ PageStatus.failed ↦ true | _ ↦ false ]

-- The pages are those of the state the caller has written.
unfoldable pub recount : List CrawlPage → Crawl → Crawl
recount pages c = record c {
  total_completed = count is_completed_page pages;
  total_failed = count is_failed_page pages;
}

unfoldable pub notify : Crawl → Option (ℕ × PageStatus) → State → State
notify c page s = record s {
  notices =
      record {
        status = c.status;
        total_queued = c.total_queued;
        total_completed = c.total_completed;
        total_failed = c.total_failed;
        page = page;
      }
      ∷ s.notices;
}

unfoldable pub crawl_started : State → State × CrawlState
unfolding notify
crawl_started s = elim s.crawl [
  | none ↦ (s, gone)
  | some c ↦ elim c.status [
    | CrawlStatus.queued ↦
        let c' = record c { status = CrawlStatus.running } in
        (notify c' none (record s { crawl = some c' }), at CrawlStatus.running)
    | other ↦ (s, at c.status)
  ]
]

abbrev pub skip_pending : CrawlQueueItem → CrawlQueueItem
skip_pending i = if is_pending i.status then record i { status = QueueStatus.skipped } else i

-- `none` is a crawl that closed meanwhile, or is gone.
unfoldable pub cancel_crawl : State → State × Option Crawl
unfolding notify
cancel_crawl s = elim s.crawl [
  | none ↦ (s, none)
  | some c ↦
      if is_terminal c.status
      then (s, none)
      else let c' = record c { status = CrawlStatus.cancelled } in
        (notify c' none (record s { crawl = some c'; queue = map skip_pending s.queue }), some c')
]
