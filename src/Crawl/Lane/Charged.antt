-- ===== src/Crawl/Lane/Charged.antt =====
-- Pages are charged through the ledger.
use scrapeflow.Base.{
  ℕ, suc, ◌≡◌, ◌∙◌, refl, Bool, true, false, not, ◌&&◌, Option, none, some, List, [], ◌∷◌, map,
  arith, ltb, if◌then◌else◌, count, Bool-cases, Option-cases, inl, inr,
}
use scrapeflow.Quota.{Settings}
use scrapeflow.Ledger.{Minio}
use scrapeflow.Ledger.Balance.{IsBalanced, record_objects-IsBalanced}
use scrapeflow.JobRun.Running.{StoredObject}
use scrapeflow.Crawl.{
  Crawl, CrawlPage, CrawlQueueItem, State, is_running, is_terminal, is_page_terminal, crawl_started,
  cancel_crawl, notify, recount,
}
use scrapeflow.Crawl.Gate.{UrlLibrary}
use scrapeflow.Crawl.Frontier.{
  UrlBatch, ClaimInput, admit_urls, admit_running, notify_if, vet_urls, claim_crawl_pages,
  claim_running, dispatch_each, insert_rows, admit_rows, dispatch, new_page, claimed_items,
  is_nonempty, count_inserted, is_admitted,
}
use scrapeflow.Crawl.Pages.{
  RecordCrawlPageInput, FinishCrawlInput, Outcome, record_crawl_page, record_outcome, close_page,
  finish_crawl, find_page, discard, finished, deliver, object_row, close_left_page, skip_left_item,
  is_cancelled, completed, failed, cancelled,
}
use scrapeflow.Crawl.Lane.{
  Transaction, start, admit, vet, claim, record_page, finish, api_cancel, commit, commits,
}

notify_if-ledger : (b : Bool) (c : Crawl) (s : State) → (notify_if b c s).ledger ≡ s.ledger
unfolding notify
notify_if-ledger true c s = refl
notify_if-ledger false c s = refl

deliver-ledger : (b : Bool) (c : Crawl) (s : State) → (deliver b c s).ledger ≡ s.ledger
unfolding deliver
deliver-ledger true c s = ground arith
deliver-ledger false c s = refl

dispatch_each-ledger :
    (ids : ℕ → ℕ) (n now : ℕ) (items : List CrawlQueueItem) (s : State)
    → (dispatch_each ids n now items s).0.ledger ≡ s.ledger
unfolding dispatch_each
dispatch_each-ledger ids n now [] s = refl
dispatch_each-ledger ids n now (item ∷ items) s =
    dispatch_each-ledger ids (suc n) now items (record s {
      pages = new_page (ids n) now item ∷ s.pages;
      queue = map (dispatch item.url (ids n) now) s.queue;
    })

module _ (s : State) where
  crawl_started-ledger : (crawl_started s).0.ledger ≡ s.ledger
  unfolding crawl_started notify
  crawl_started-ledger = ground arith

  cancel_crawl-ledger : (cancel_crawl s).0.ledger ≡ s.ledger
  unfolding cancel_crawl notify
  cancel_crawl-ledger = ground arith

  vet_urls-ledger : (u : UrlLibrary) (i : UrlBatch) → (vet_urls u i s).0.ledger ≡ s.ledger
  unfolding vet_urls
  vet_urls-ledger u i = ground arith

  admit_running-ledger :
      (u : UrlLibrary) (i : UrlBatch) (now : ℕ) (c : Crawl)
      → (admit_running u i now c s).ledger ≡ s.ledger
  unfolding admit_running
  admit_running-ledger u i now c =
      let (queue, inserted) = insert_rows (admit_rows u i now c s.queue) s.queue in
      let c' = count_inserted c inserted in
      notify_if-ledger (ltb 0 (count is_admitted inserted)) c'
        (record s { crawl = some c'; queue = queue })

  admit_urls-ledger :
      (u : UrlLibrary) (i : UrlBatch) (now : ℕ) → (admit_urls u i now s).0.ledger ≡ s.ledger
  unfolding admit_urls
  admit_urls-ledger u i now = elim (Option-cases s.crawl) [
    | inl n ↦ ground arith
    | inr (c, e) ↦ ground (arith, admit_running-ledger u i now c)
  ]

  claim_running-ledger :
      (ids : ℕ → ℕ) (i : ClaimInput) (now : ℕ) (c : Crawl)
      → (claim_running ids i now c s).0.ledger ≡ s.ledger
  unfolding claim_running
  claim_running-ledger ids i now c =
      let items = claimed_items i s in
      notify_if-ledger (is_nonempty items) c (dispatch_each ids 0 now items s).0
      ∙ dispatch_each-ledger ids 0 now items s

  claim_crawl_pages-ledger :
      (settings : Settings) (ids : ℕ → ℕ) (i : ClaimInput) (now : ℕ)
      → (claim_crawl_pages settings ids i now s).0.ledger ≡ s.ledger
  unfolding claim_crawl_pages
  claim_crawl_pages-ledger settings ids i now = elim (Option-cases s.crawl) [
    | inl n ↦ ground arith
    | inr (c, e) ↦ ground (arith, claim_running-ledger ids i now c)
  ]

  finish_crawl-ledger :
      (i : FinishCrawlInput) (now : ℕ) (crawl : Option Crawl)
      → (finish_crawl i now (record s { crawl = crawl })).0.ledger ≡ s.ledger
  unfolding finish_crawl notify
  finish_crawl-ledger i now none = refl
  finish_crawl-ledger i now (some c) =
      let c' = finished i now c in
      let pages = map (close_left_page (is_cancelled c'.status) now) s.pages in
      let c'' = recount pages c' in
      deliver-ledger (not (is_terminal c.status) && not (is_cancelled c''.status)) c''
        (record s { crawl = some c''; pages = pages; queue = map (skip_left_item now) s.queue })

module _ (legacy : ℕ → ℕ) (settings : Settings) (m : Minio) (i : RecordCrawlPageInput)
    (now : ℕ) where
  record_outcome-IsBalanced :
      (c : Crawl) (p : CrawlPage) (o : Outcome) (s : State)
      → IsBalanced legacy s.ledger
      → IsBalanced legacy (record_outcome settings m i now c p o s).0.ledger
  unfolding record_outcome close_page notify discard
  record_outcome-IsBalanced c p cancelled s h = h
  record_outcome-IsBalanced c p failed s h = h
  record_outcome-IsBalanced c p completed s h = charged i.objects
    where
      charged :
          (objects : List StoredObject)
          → IsBalanced legacy
              (record_outcome settings m
                (record i { objects = objects })
                now
                c
                p
                completed
                s).0.ledger
      charged [] = h
      charged (o ∷ os) =
          record_objects-IsBalanced legacy (map (object_row c.user_id p.id) (o ∷ os)) s.ledger h

  record_crawl_page-IsBalanced :
      (s : State) (crawl : Option Crawl)
      → IsBalanced legacy s.ledger
      → IsBalanced legacy (record_crawl_page settings m i now (record s { crawl = crawl })).0.ledger
  unfolding record_crawl_page discard
  record_crawl_page-IsBalanced s none h = h
  record_crawl_page-IsBalanced s (some c) h = elim (Option-cases (find_page i.page_id s.pages)) [
    | inl n ↦ rw (n, record_crawl_page) h
    | inr (p, e) ↦ elim (Bool-cases (is_page_terminal p.status)) [
      | inl over ↦ rw (e, over, record_crawl_page) h
      | inr active ↦
          rw (e, active, record_crawl_page)
            (record_outcome-IsBalanced c p (if is_running c.status then i.status else cancelled)
              (record s { crawl = some c }) h)
    ]
  ]

commit-IsBalanced :
    (legacy : ℕ → ℕ) (s : State) (t : Transaction)
    → IsBalanced legacy s.ledger
    → IsBalanced legacy (commit s t).ledger
unfolding commit
commit-IsBalanced legacy s start h = rw (crawl_started-ledger s) h
commit-IsBalanced legacy s (admit u i now) h = rw (admit_urls-ledger s u i now) h
commit-IsBalanced legacy s (vet u i) h = rw (vet_urls-ledger s u i) h
commit-IsBalanced legacy s (claim settings ids i now) h =
    rw (claim_crawl_pages-ledger s settings ids i now) h
commit-IsBalanced legacy s (record_page settings m i now) h =
    record_crawl_page-IsBalanced legacy settings m i now s s.crawl h
commit-IsBalanced legacy s (finish i now) h = rw (finish_crawl-ledger s i now s.crawl) h
commit-IsBalanced legacy s api_cancel h = rw (cancel_crawl-ledger s) h

-- Through every sequence of the crawl's activities and cancels each user's counter stays equal to
-- the bytes of the user's rows and what was charged before there were rows.
pub crawl-IsBalanced :
    (legacy : ℕ → ℕ) (s : State) (ts : List Transaction)
    → IsBalanced legacy s.ledger
    → IsBalanced legacy (commits s ts).ledger
unfolding commits
crawl-IsBalanced legacy s [] h = h
crawl-IsBalanced legacy s (t ∷ ts) h =
    crawl-IsBalanced legacy (commit s t) ts (commit-IsBalanced legacy s t h)
