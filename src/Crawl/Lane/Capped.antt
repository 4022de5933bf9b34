-- ===== src/Crawl/Lane/Capped.antt =====
-- The frontier holds each URL once and admits at most max_pages.
use scrapeflow.Base.{
  ℕ, refl, not, ◌&&◌, ◌||◌, Option, none, some, List, [], ◌∷◌, map, arith, leb, if◌then◌else◌,
  Bool-cases, Option-cases, inl, inr,
}
use scrapeflow.Quota.{Settings, storage_usage}
use scrapeflow.Ledger.{Minio}
use scrapeflow.Crawl.{
  Crawl, State, crawl_started, cancel_crawl, notify, recount, CrawlStatus, is_running, is_terminal,
  is_page_terminal, skip_pending,
}
use scrapeflow.Crawl.Gate.{UrlLibrary, count_dropped}
use scrapeflow.Crawl.Frontier.{UrlBatch, ClaimInput, admit_urls, vet_urls, claim_crawl_pages}
use scrapeflow.Crawl.Pages.{
  RecordCrawlPageInput, FinishCrawlInput, record_crawl_page, finish_crawl, skip_left_item, finished,
  deliver, discard, close_left_page, is_cancelled, find_page, cancelled,
}
use scrapeflow.Crawl.Lane.Rows.{
  FitsIfAny, map-Fits, same-Fits, skip_left_item-Keeps, skip_pending-Keeps,
}
use scrapeflow.Crawl.Lane.{
  Transaction, start, admit, vet, claim, record_page, finish, api_cancel, commit, commits,
}
use scrapeflow.Crawl.Lane.Counted.{
  IsCapped, admit_running-IsCapped, claim_running-IsCapped, deliver-IsCapped, notify-IsCapped,
  record_outcome-IsCapped,
}

module _ (s : State) where
  admit_urls-IsCapped :
      (u : UrlLibrary) (i : UrlBatch) (now : ℕ) (crawl : Option Crawl)
      → FitsIfAny crawl s.queue
      → IsCapped (admit_urls u i now (record s { crawl = crawl })).0
  unfolding admit_urls
  admit_urls-IsCapped u i now none h = h
  admit_urls-IsCapped u i now (some c) h =
      elim (Bool-cases (not (is_running c.status) || leb c.max_pages c.total_queued)) [
        | inl stops ↦ rw stops h
        | inr runs ↦
            rw runs
              (admit_running-IsCapped u i now c (record s { crawl = some c }) (ground arith) h)
      ]

  vet_urls-IsCapped :
      (u : UrlLibrary) (i : UrlBatch) (crawl : Option Crawl)
      → FitsIfAny crawl s.queue
      → IsCapped (vet_urls u i (record s { crawl = crawl })).0
  unfolding vet_urls count_dropped
  vet_urls-IsCapped u i none h = h
  vet_urls-IsCapped u i (some c) h = elim (Bool-cases (is_running c.status)) [
    | inl runs ↦ rw runs (record { unique = h.unique; counted = h.counted; capped = h.capped })
    | inr stops ↦ rw stops h
  ]

  claim_crawl_pages-IsCapped :
      (settings : Settings) (ids : ℕ → ℕ) (i : ClaimInput) (now : ℕ) (crawl : Option Crawl)
      → FitsIfAny crawl s.queue
      → IsCapped (claim_crawl_pages settings ids i now (record s { crawl = crawl })).0
  unfolding claim_crawl_pages
  claim_crawl_pages-IsCapped settings ids i now none h = h
  claim_crawl_pages-IsCapped settings ids i now (some c) h =
      elim (Bool-cases (is_running c.status)) [
        | inl runs ↦
            elim (Bool-cases (
              let (used, limit) = storage_usage settings c.user_id s.ledger.quotas in
              leb limit used)) [
                | inl full ↦ rw (runs, full) h
                | inr room ↦
                    rw (runs, room)
                      (claim_running-IsCapped ids i now c (record s { crawl = some c }) h)
              ]
        | inr stops ↦ rw stops h
      ]

  finish_crawl-IsCapped :
      (i : FinishCrawlInput) (now : ℕ) (crawl : Option Crawl)
      → FitsIfAny crawl s.queue
      → IsCapped (finish_crawl i now (record s { crawl = crawl })).0
  unfolding finish_crawl
  finish_crawl-IsCapped i now none h = h
  finish_crawl-IsCapped i now (some c) h =
      let c' = finished i now c in
      let pages = map (close_left_page (is_cancelled c'.status) now) s.pages in
      let c'' = recount pages c' in
      let skipped = map-Fits (skip_left_item now) c s.queue (skip_left_item-Keeps now) h in
      let b = not (is_terminal c.status) && not (is_cancelled c''.status) in
      let closed = record s {
        crawl = some c'';
        pages = pages;
        queue = map (skip_left_item now) s.queue;
      } in
      notify-IsCapped c'' none (deliver b c'' closed) (
        deliver-IsCapped b c'' closed (
          same-Fits c c'' (map (skip_left_item now) s.queue) (ground arith) (ground arith) skipped))

  cancel_crawl-IsCapped :
      (crawl : Option Crawl)
      → FitsIfAny crawl s.queue
      → IsCapped (cancel_crawl (record s { crawl = crawl })).0
  unfolding cancel_crawl notify
  cancel_crawl-IsCapped none h = h
  cancel_crawl-IsCapped (some c) h = elim (Bool-cases (is_terminal c.status)) [
    | inl over ↦ rw over h
    | inr active ↦ rw active (
        same-Fits c (record c { status = CrawlStatus.cancelled }) (map skip_pending s.queue) refl
          refl (map-Fits skip_pending c s.queue skip_pending-Keeps h))
  ]

  record_crawl_page-IsCapped :
      (settings : Settings) (m : Minio) (i : RecordCrawlPageInput) (now : ℕ) (crawl : Option Crawl)
      → FitsIfAny crawl s.queue
      → IsCapped (record_crawl_page settings m i now (record s { crawl = crawl })).0
  unfolding record_crawl_page discard
  record_crawl_page-IsCapped settings m i now none h = h
  record_crawl_page-IsCapped settings m i now (some c) h =
      elim (Option-cases (find_page i.page_id s.pages)) [
        | inl n ↦ rw (n, record_crawl_page) h
        | inr (p, e) ↦ elim (Bool-cases (is_page_terminal p.status)) [
          | inl over ↦ rw (e, over, record_crawl_page) h
          | inr active ↦
              rw (e, active, record_crawl_page)
                (record_outcome-IsCapped settings m i now c p
                  (if is_running c.status then i.status else cancelled) s h)
        ]
      ]

  crawl_started-IsCapped :
      (crawl : Option Crawl)
      → FitsIfAny crawl s.queue
      → IsCapped (crawl_started (record s { crawl = crawl })).0
  unfolding crawl_started notify
  crawl_started-IsCapped none h = h
  crawl_started-IsCapped (some c) h = queued_started c.status
    where
      queued_started :
          (st : CrawlStatus)
          → IsCapped (crawl_started (record s { crawl = some (record c { status = st }) })).0
      queued_started CrawlStatus.queued = same-Fits c _ s.queue refl refl h
      queued_started CrawlStatus.running = same-Fits c _ s.queue refl refl h
      queued_started CrawlStatus.completed = same-Fits c _ s.queue refl refl h
      queued_started CrawlStatus.failed = same-Fits c _ s.queue refl refl h
      queued_started CrawlStatus.cancelled = same-Fits c _ s.queue refl refl h

  commit-IsCapped : (t : Transaction) → IsCapped s → IsCapped (commit s t)
  unfolding commit
  commit-IsCapped start h = crawl_started-IsCapped s.crawl h
  commit-IsCapped (admit u i now) h = admit_urls-IsCapped u i now s.crawl h
  commit-IsCapped (vet u i) h = vet_urls-IsCapped u i s.crawl h
  commit-IsCapped (claim settings ids i now) h =
      claim_crawl_pages-IsCapped settings ids i now s.crawl h
  commit-IsCapped (record_page settings m i now) h =
      record_crawl_page-IsCapped settings m i now s.crawl h
  commit-IsCapped (finish i now) h = finish_crawl-IsCapped i now s.crawl h
  commit-IsCapped api_cancel h = cancel_crawl-IsCapped s.crawl h

-- Through every sequence of the crawl's activities and cancels the frontier holds each URL once, and
-- `total_queued` is the number of its rows that were not dropped, at most `max_pages`.
pub commits-IsCapped : (s : State) (ts : List Transaction) → IsCapped s → IsCapped (commits s ts)
unfolding commits
commits-IsCapped s [] h = h
commits-IsCapped s (t ∷ ts) h = commits-IsCapped (commit s t) ts (commit-IsCapped s t h)
