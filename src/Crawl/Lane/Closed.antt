-- ===== src/Crawl/Lane/Closed.antt =====
-- What finish_crawl leaves, and that nothing reopens it.
use scrapeflow.Base.{
  ℕ, ◌∙◌, refl, sym, not, ◌&&◌, Option, none, some, List, [], ◌∷◌, map, arith, Option-cases, inl,
  inr,
}
use scrapeflow.Quota.{Settings}
use scrapeflow.Ledger.{Minio}
use scrapeflow.Crawl.{Crawl, State, is_terminal, crawl_started, cancel_crawl, notify, recount}
use scrapeflow.Crawl.Frontier.{admit_urls, vet_urls, claim_crawl_pages}
use scrapeflow.Crawl.Pages.{
  RecordCrawlPageInput, FinishCrawlInput, record_crawl_page, finish_crawl, find_page, discard,
  finished, close_left_page, skip_left_item, is_cancelled, deliver,
}
use scrapeflow.Crawl.Lane.{
  Transaction, start, admit, vet, claim, record_page, finish, api_cancel, commit, commits,
}
use scrapeflow.Crawl.Lane.Ended.{
  Closed, ClosedIfAny, IsClosed, Same, closed_pages, closed_queue, deliver-IsClosed, discarded,
  find_page-terminal, finished-over, notify-IsClosed, or_now-same, pages_closed, queue_closed, same,
  terminal_stops,
}

module _ (s : State) (c : Crawl) where
  finished-Closed :
      (i : FinishCrawlInput) (now : ℕ)
      → let pages = map (close_left_page (is_cancelled (finished i now c).status) now) s.pages in
        Closed (recount pages (finished i now c)) pages (map (skip_left_item now) s.queue)
  unfolding recount
  finished-Closed i now = record {
    over = (finished-over i now c).0;
    dated = (finished-over i now c).1;
    ended = pages_closed (is_cancelled (finished i now c).status) now s.pages;
    empty = queue_closed now s.queue;
    completed = refl;
    failed = refl;
  }

  finish_crawl-Closed :
      (i : FinishCrawlInput) (now : ℕ)
      → IsClosed (finish_crawl i now (record s { crawl = some c })).0
  unfolding finish_crawl
  finish_crawl-Closed i now =
      let c' = finished i now c in
      let pages = map (close_left_page (is_cancelled c'.status) now) s.pages in
      let c'' = recount pages c' in
      let queue = map (skip_left_item now) s.queue in
      let left = record s { crawl = some c''; pages = pages; queue = queue } in
      let moved = not (is_terminal c.status) && not (is_cancelled c''.status) in
      notify-IsClosed c'' (deliver moved c'' left)
        (deliver-IsClosed moved c'' left (finished-Closed i now))

  module _ (h : Closed c s.pages s.queue) where
    crawl_started-Same :
        Same (record s { crawl = some c }) (crawl_started (record s { crawl = some c })).0
    unfolding crawl_started notify
    crawl_started-Same = record {
      crawl = ground arith;
      pages = ground arith;
      queue = ground arith;
      ledger = ground arith;
      deliveries = ground arith;
    }

    record_crawl_page-Same :
        (settings : Settings) (m : Minio) (i : RecordCrawlPageInput) (now : ℕ)
        → Same
            (record s { crawl = some c })
            (record_crawl_page settings m i now (record s { crawl = some c })).0
    unfolding record_crawl_page discard
    record_crawl_page-Same settings m i now = elim (Option-cases (find_page i.page_id s.pages)) [
      | inl n ↦ rw (n, record_crawl_page) (discarded (record s { crawl = some c }) _)
      | inr (p, e) ↦
          rw (e, find_page-terminal i.page_id s.pages p h.ended e, record_crawl_page)
            (same (record s { crawl = some c }))
    ]

    finish_crawl-Same :
        (i : FinishCrawlInput) (now : ℕ)
        → Same (record s { crawl = some c }) (finish_crawl i now (record s { crawl = some c })).0
    unfolding finish_crawl
    finish_crawl-Same i now =
        rw
          (
            h.over,
            closed_pages (is_cancelled c.status) now s.pages h.ended,
            closed_queue now s.queue h.empty,
            or_now-same c.completed_at now h.dated,
            sym h.completed,
            sym h.failed,
          )
          (record { crawl = refl; pages = refl; queue = refl; ledger = refl; deliveries = refl })

    commit-Same :
        (t : Transaction)
        → Same (record s { crawl = some c }) (commit (record s { crawl = some c }) t)
    unfolding commit admit_urls vet_urls claim_crawl_pages cancel_crawl
    commit-Same start = crawl_started-Same
    commit-Same (admit u i now) =
        rw (terminal_stops c.status h.over, commit) (same (record s { crawl = some c }))
    commit-Same (vet u i) =
        rw (terminal_stops c.status h.over, commit) (same (record s { crawl = some c }))
    commit-Same (claim settings ids i now) =
        rw (terminal_stops c.status h.over, commit) (same (record s { crawl = some c }))
    commit-Same (record_page settings m i now) = record_crawl_page-Same settings m i now
    commit-Same (finish i now) = finish_crawl-Same i now
    commit-Same api_cancel = rw (h.over, commit) (same (record s { crawl = some c }))

absent_commit :
    (s : State) (t : Transaction)
    → Same (record s { crawl = none }) (commit (record s { crawl = none }) t)
unfolding commit crawl_started admit_urls vet_urls claim_crawl_pages record_crawl_page finish_crawl
    cancel_crawl discard
absent_commit s start = same (record s { crawl = none })
absent_commit s (admit u i now) = same (record s { crawl = none })
absent_commit s (vet u i) = same (record s { crawl = none })
absent_commit s (claim settings ids i now) = same (record s { crawl = none })
absent_commit s (record_page settings m i now) =
    discarded (record s { crawl = none }) (discard m i.objects (record s { crawl = none })).bucket
absent_commit s (finish i now) = same (record s { crawl = none })
absent_commit s api_cancel = same (record s { crawl = none })

closed_commit :
    (s : State) (crawl : Option Crawl) (t : Transaction)
    → ClosedIfAny crawl s.pages s.queue
    → Same (record s { crawl = crawl }) (commit (record s { crawl = crawl }) t)
closed_commit s none t h = absent_commit s t
closed_commit s (some c) t h = commit-Same s c h t

Same-IsClosed : (s s' : State) → Same s s' → IsClosed s → IsClosed s'
Same-IsClosed s s' e h = rw (e.crawl, e.pages, e.queue) h

Same-trans : (a b c : State) → Same a b → Same b c → Same a c
Same-trans a b c f g = record {
  crawl = g.crawl ∙ f.crawl;
  pages = g.pages ∙ f.pages;
  queue = g.queue ∙ f.queue;
  ledger = g.ledger ∙ f.ledger;
  deliveries = g.deliveries ∙ f.deliveries;
}

pub closed_commits : (s : State) (ts : List Transaction) → IsClosed s → Same s (commits s ts)
unfolding commits
closed_commits s [] h = same s
closed_commits s (t ∷ ts) h =
    let one = closed_commit s s.crawl t h in
    Same-trans s (commit s t) (commits (commit s t) ts) one
      (closed_commits (commit s t) ts (Same-IsClosed s (commit s t) one h))

finish_crawl-IsClosed :
    (i : FinishCrawlInput) (now : ℕ) (s : State) (crawl : Option Crawl)
    → IsClosed (finish_crawl i now (record s { crawl = crawl })).0
unfolding finish_crawl
finish_crawl-IsClosed i now s none = tt
finish_crawl-IsClosed i now s (some c) = finish_crawl-Closed s c i now

-- After finish_crawl the crawl is in a terminal status and dated, no page is open, no queue row is
-- pending or dispatched, and the counters count the pages; and every later sequence of activities
-- and cancels leaves its row, its pages, its frontier, the ledger and the deliveries as they are.
pub finish_crawl-final :
    (i : FinishCrawlInput) (now : ℕ) (s : State) (ts : List Transaction)
    → let s' = (finish_crawl i now s).0 in IsClosed s' × Same s' (commits s' ts)
finish_crawl-final i now s ts =
    let closed = finish_crawl-IsClosed i now s s.crawl in
    (closed, closed_commits (finish_crawl i now s).0 ts closed)

-- A crawl that is over stays so.
pub commits-IsClosed : (s : State) (ts : List Transaction) → IsClosed s → IsClosed (commits s ts)
commits-IsClosed s ts h = Same-IsClosed s (commits s ts) (closed_commits s ts h) h
