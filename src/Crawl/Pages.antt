-- ===== src/Crawl/Pages.antt =====
-- A page's outcome and the end of a crawl (record_crawl_page and finish_crawl of
-- api/app/workflows/activities/crawls.py; create_crawl_webhook_delivery of api/app/core/webhooks.py).
use Prim.Native.String.{◌++◌ as ◌<>◌}
use scrapeflow.Base.{
  ℕ, Bool, true, false, not, ◌&&◌, ◌||◌, Option, none, some, List, [], ◌∷◌, String, map, leb, ◌==◌,
  if◌then◌else◌,
}
use scrapeflow.Quota.{Settings, storage_usage}
use scrapeflow.Ledger.{StorageObject, Minio, record_objects}
use scrapeflow.JobRun.Running.{StoredObject, paths, discard_each}
use scrapeflow.Crawl.{
  Crawl, CrawlPage, CrawlQueueItem, CrawlStatus, PageStatus, QueueStatus, State, CrawlState, gone,
  at, is_running, is_terminal, is_page_terminal, is_pending, is_dispatched, recount, notify,
}
use scrapeflow.Crawl.Frontier.{is_of_page}

pub data Outcome : Type 0 where
  completed failed cancelled : Outcome

pub record RecordCrawlPageInput : Type 0 where
  pub page_id : ℕ
  pub status : Outcome
  pub objects : List StoredObject
  pub error : Option String

-- `index_error` is `paths[0]` of a completed page without objects: the activity raises.
pub data PageRecorded : Type 0 where
  recorded : CrawlState → Bool → PageRecorded
  index_error : PageRecorded

unfoldable pub find_page : ℕ → List CrawlPage → Option CrawlPage
find_page id [] = none
find_page id (p ∷ pages) = let later = find_page id pages in if p.id == id then some p else later

unfoldable pub put_page : CrawlPage → List CrawlPage → List CrawlPage
put_page p pages = map (λ q. if q.id == p.id then p else q) pages

-- The one item of a page.
abbrev pub close_one : ℕ → QueueStatus → ℕ → CrawlQueueItem → CrawlQueueItem
close_one page status now i =
    if is_of_page page i then record i { status = status; completed_at = some now } else i

unfoldable pub close_item : ℕ → QueueStatus → ℕ → List CrawlQueueItem → List CrawlQueueItem
close_item page status now queue = map (close_one page status now) queue

abbrev pub object_row : ℕ → ℕ → StoredObject → StorageObject
object_row user page obj = record {
  object_key = obj.path;
  user_id = user;
  bytes = obj.size;
  job_run_id = none;
  crawl_page_id = some page;
  pipeline_run_block_id = none;
}

unfoldable pub discard : Minio → List StoredObject → State → State
unfolding discard_each
discard m objects s = record s { bucket = discard_each m s.ledger.objects (paths objects) s.bucket }

abbrev storage_full : Settings → Crawl → State → Bool
storage_full settings c s =
    let (used, limit) = storage_usage settings c.user_id s.ledger.quotas in leb limit used

-- What follows the three outcomes: the rows, the counters, the notice.
unfoldable pub close_page :
    Settings → ℕ → Crawl → CrawlPage → QueueStatus → State → State × PageRecorded
unfolding put_page close_item recount notify storage_usage
close_page settings now c p status s =
    let p' = record p { completed_at = some now } in
    let pages = put_page p' s.pages in
    let c' = recount pages c in
    (
      notify c' (some (p.url, p.status))
          (record s { crawl = some c'; pages = pages; queue = close_item p.id status now s.queue }),
      recorded (at c.status) (storage_full settings c s),
    )

unfoldable pub record_outcome :
    Settings
    → Minio
    → RecordCrawlPageInput
    → ℕ
    → Crawl
    → CrawlPage
    → Outcome
    → State
    → State × PageRecorded
unfolding close_page discard
record_outcome settings m i now c p cancelled s =
    close_page settings now c (record p { status = PageStatus.cancelled }) QueueStatus.skipped
      (discard m i.objects s)
record_outcome settings m i now c p completed s = elim i.objects [
  | [] ↦ (s, index_error)
  | first ∷ rest ↦
      close_page settings now c
        (record p { status = PageStatus.completed; result_path = some first.path })
        QueueStatus.completed
        (record s { ledger = record_objects (map (object_row c.user_id p.id) i.objects) s.ledger })
]
record_outcome settings m i now c p failed s =
    close_page settings now c (record p { status = PageStatus.failed; error = i.error })
      QueueStatus.failed (discard m i.objects s)

abbrev state_of : Option Crawl → CrawlState
state_of none = gone
state_of (some c) = at c.status

unfoldable pub record_crawl_page :
    Settings → Minio → RecordCrawlPageInput → ℕ → State → State × PageRecorded
unfolding record_outcome discard find_page storage_usage
record_crawl_page settings m i now s = elim s.crawl [
  | none ↦ (discard m i.objects s, recorded gone false)
  | some c ↦ elim (find_page i.page_id s.pages) [
    | none ↦ (discard m i.objects s, recorded (at c.status) false)
    | some p ↦
        if is_page_terminal p.status
        then (s, recorded (at c.status) (storage_full settings c s))
        else record_outcome settings m i now c p
            (if is_running c.status then i.status else cancelled) s
  ]
]

pub record FinishCrawlInput : Type 0 where
  pub status : Outcome
  pub error : Option String

abbrev pub crawl_status : Outcome → CrawlStatus
crawl_status completed = CrawlStatus.completed
crawl_status failed = CrawlStatus.failed
crawl_status cancelled = CrawlStatus.cancelled

abbrev pub is_cancelled : CrawlStatus → Bool
is_cancelled CrawlStatus.cancelled = true
is_cancelled _ = false

abbrev no_outcome : String
no_outcome = "internal error: the page was never fetched"

abbrev pub or_now : Option ℕ → ℕ → Option ℕ
or_now none now = some now
or_now (some t) now = some t

-- The crawl's row after its status was written.
unfoldable pub finished : FinishCrawlInput → ℕ → Crawl → Crawl
finished i now c =
    let c' = record c { completed_at = or_now c.completed_at now } in
    if is_terminal c.status
    then c'
    else record c' { status = crawl_status i.status; error = i.error }

unfoldable pub close_left_page : Bool → ℕ → CrawlPage → CrawlPage
close_left_page crawl_cancelled now p = if is_page_terminal p.status then p else record p {
  status = if crawl_cancelled then PageStatus.cancelled else PageStatus.failed;
  error = if crawl_cancelled then none else some no_outcome;
  completed_at = some now;
}

unfoldable pub skip_left_item : ℕ → CrawlQueueItem → CrawlQueueItem
skip_left_item now i =
    if is_pending i.status || is_dispatched i.status
    then record i { status = QueueStatus.skipped; completed_at = some now }
    else i

unfoldable pub deliver : Bool → Crawl → State → State
deliver true c s = elim c.webhook_url [
  | none ↦ s
  | some url ↦ record s {
    deliveries = record { event = c.status; webhook_url = url } ∷ s.deliveries;
  }
]
deliver false c s = s

unfoldable pub finish_crawl : FinishCrawlInput → ℕ → State → State × CrawlState
unfolding finished close_left_page skip_left_item recount deliver notify
finish_crawl i now s = elim s.crawl [
  | none ↦ (s, gone)
  | some c ↦
      let c' = finished i now c in
      let pages = map (close_left_page (is_cancelled c'.status) now) s.pages in
      let c'' = recount pages c' in
      (
        notify c'' none (
            deliver (not (is_terminal c.status) && not (is_cancelled c''.status)) c'' (record s {
              crawl = some c'';
              pages = pages;
              queue = map (skip_left_item now) s.queue;
            })),
        at c''.status,
      )
]

-- fail_unstarted_crawl, in the request that inserted the crawl: the UPDATE has no test of its status.
unfoldable pub fail_unstarted_crawl : String → ℕ → State → State
unfolding deliver notify
fail_unstarted_crawl raised now s = elim s.crawl [
  | none ↦ s
  | some c ↦
      let c' = record c {
        status = CrawlStatus.failed;
        error = some ("could not start workflow: " <> raised);
        completed_at = some now;
      } in
      notify c' none (deliver true c' (record s { crawl = some c' }))
]
