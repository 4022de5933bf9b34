-- ===== src/Crawl/Lane/Ended.antt =====
-- A closed crawl, and the rows that finish_crawl closes.
use scrapeflow.Base.{
  ℕ, ◌≡◌, refl, Bool, true, false, ◌||◌, Option, none, some, List, [], ◌∷◌, map, arith, any, all,
  count, Option-cases, inl, inr,
}
use scrapeflow.Crawl.{
  Crawl, CrawlPage, CrawlQueueItem, CrawlStatus, State, is_running, is_terminal, is_page_terminal,
  is_pending, is_dispatched, is_completed_page, is_failed_page, notify,
}
use scrapeflow.Crawl.Pages.{
  FinishCrawlInput, Outcome, find_page, finished, close_left_page, skip_left_item, deliver,
  crawl_status, or_now,
}

abbrev pub is_left : CrawlQueueItem → Bool
is_left i = is_pending i.status || is_dispatched i.status

abbrev is_set : Option ℕ → Bool
is_set none = false
is_set (some t) = true

-- The crawl is over: no page is open, nothing of the frontier is left, the counters count the pages.
pub record Closed (c : Crawl) (pages : List CrawlPage) (queue : List CrawlQueueItem) : Type 0 where
  pub over : is_terminal c.status ≡ true
  pub dated : is_set c.completed_at ≡ true
  pub ended : all (λ p. is_page_terminal p.status) pages ≡ true
  pub empty : any is_left queue ≡ false
  pub completed : c.total_completed ≡ count is_completed_page pages
  pub failed : c.total_failed ≡ count is_failed_page pages

abbrev pub ClosedIfAny : Option Crawl → List CrawlPage → List CrawlQueueItem → Type 0
ClosedIfAny none pages queue = Unit
ClosedIfAny (some c) pages queue = Closed c pages queue

-- Where there is a crawl, it is closed.
abbrev pub IsClosed : State → Type 0
IsClosed s = ClosedIfAny s.crawl s.pages s.queue

-- The same rows, charges and deliveries: only the bucket and the notices may differ.
pub record Same (s s' : State) : Type 0 where
  pub crawl : s'.crawl ≡ s.crawl
  pub pages : s'.pages ≡ s.pages
  pub queue : s'.queue ≡ s.queue
  pub ledger : s'.ledger ≡ s.ledger
  pub deliveries : s'.deliveries ≡ s.deliveries

abbrev pub same : (s : State) → Same s s
same s = record { crawl = refl; pages = refl; queue = refl; ledger = refl; deliveries = refl }

abbrev pub discarded : (s : State) (bucket : ℕ → Bool) → Same s (record s { bucket = bucket })
discarded s bucket = record {
  crawl = refl;
  pages = refl;
  queue = refl;
  ledger = refl;
  deliveries = refl;
}

pub find_page-terminal :
    (id : ℕ) (pages : List CrawlPage) (p : CrawlPage)
    → all (λ q. is_page_terminal q.status) pages ≡ true
    → find_page id pages ≡ some p
    → is_page_terminal p.status ≡ true
unfolding find_page
find_page-terminal id [] p h e = ground arith
find_page-terminal id (q ∷ pages) p h e = ground (arith, find_page-terminal id pages p)

pub closed_pages :
    (cancelled : Bool) (now : ℕ) (pages : List CrawlPage)
    → all (λ q. is_page_terminal q.status) pages ≡ true
    → map (close_left_page cancelled now) pages ≡ pages
unfolding close_left_page
closed_pages cancelled now [] h = refl
closed_pages cancelled now (q ∷ pages) h = ground (arith, closed_pages cancelled now pages)

pub closed_queue :
    (now : ℕ) (queue : List CrawlQueueItem)
    → any is_left queue ≡ false
    → map (skip_left_item now) queue ≡ queue
unfolding skip_left_item
closed_queue now [] h = refl
closed_queue now (i ∷ queue) h = ground (arith, closed_queue now queue)

pub pages_closed :
    (cancelled : Bool) (now : ℕ) (pages : List CrawlPage)
    → all (λ q. is_page_terminal q.status) (map (close_left_page cancelled now) pages) ≡ true
unfolding close_left_page
pages_closed cancelled now [] = refl
pages_closed cancelled now (q ∷ pages) = ground (arith, pages_closed cancelled now pages)

pub queue_closed :
    (now : ℕ) (queue : List CrawlQueueItem) → any is_left (map (skip_left_item now) queue) ≡ false
unfolding skip_left_item
queue_closed now [] = refl
queue_closed now (i ∷ queue) = ground (arith, queue_closed now queue)

pub terminal_stops : (st : CrawlStatus) → is_terminal st ≡ true → is_running st ≡ false
terminal_stops st h = ground arith

pub deliver-IsClosed : (b : Bool) (c : Crawl) (s : State) → IsClosed s → IsClosed (deliver b c s)
unfolding deliver
deliver-IsClosed false c s h = h
deliver-IsClosed true c s h = elim (Option-cases c.webhook_url) [
  | inl n ↦ rw n h
  | inr (url, e) ↦ rw e h
]

pub notify-IsClosed : (c : Crawl) (s : State) → IsClosed s → IsClosed (notify c none s)
unfolding notify
notify-IsClosed c s h = h

or_now-set : (date : Option ℕ) (now : ℕ) → is_set (or_now date now) ≡ true
or_now-set none now = refl
or_now-set (some t) now = refl

pub or_now-same : (date : Option ℕ) (now : ℕ) → is_set date ≡ true → or_now date now ≡ date
or_now-same none now h = ground arith
or_now-same (some t) now h = refl

crawl_status-terminal : (o : Outcome) → is_terminal (crawl_status o) ≡ true
crawl_status-terminal o = ground arith

pub finished-over :
    (i : FinishCrawlInput) (now : ℕ) (c : Crawl)
    → (is_terminal (finished i now c).status ≡ true)
      × (is_set (finished i now c).completed_at ≡ true)
unfolding finished
finished-over i now c =
    (ground (arith, crawl_status-terminal i.status), ground (arith, or_now-set c.completed_at now))
