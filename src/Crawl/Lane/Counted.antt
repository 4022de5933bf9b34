-- ===== src/Crawl/Lane/Counted.antt =====
-- The frontier counted and within its cap, through the parts of each activity.
use scrapeflow.Base.{
  ℕ, suc, ◌<◌, refl, Bool, true, false, Option, some, List, [], ◌∷◌, map, ltb, count, Option-cases,
  inl, inr,
}
use scrapeflow.Quota.{Settings}
use scrapeflow.Ledger.{Minio, record_objects}
use scrapeflow.JobRun.Running.{StoredObject}
use scrapeflow.Crawl.{
  Crawl, CrawlQueueItem, QueueStatus, State, notify, recount, CrawlPage, PageStatus,
}
use scrapeflow.Crawl.Gate.{UrlLibrary, count_dropped}
use scrapeflow.Crawl.Frontier.{
  UrlBatch, ClaimInput, insert_rows, is_admitted, admit_running, claim_running, dispatch_each,
  notify_if, dispatch, admit_rows, count_inserted, new_page, claimed_items, is_nonempty,
}
use scrapeflow.Crawl.Pages.{
  RecordCrawlPageInput, close_page, close_item, record_outcome, Outcome, deliver, discard,
  close_one, object_row, completed, failed, cancelled,
}
use scrapeflow.Crawl.Lane.Rows.{
  Fits, FitsIfAny, count-admit_rows, map-Fits, map-FitsIfAny, inserted-Fits, dispatch-Keeps,
  close_one-Keeps,
}

abbrev pub IsCapped : State → Type 0
IsCapped s = FitsIfAny s.crawl s.queue

notify_if-IsCapped : (b : Bool) (c : Crawl) (s : State) → IsCapped s → IsCapped (notify_if b c s)
unfolding notify
notify_if-IsCapped true c s h = h
notify_if-IsCapped false c s h = h

pub notify-IsCapped :
    (c : Crawl) (page : Option (ℕ × PageStatus)) (s : State)
    → IsCapped s
    → IsCapped (notify c page s)
unfolding notify
notify-IsCapped c page s h = h

pub admit_running-IsCapped :
    (u : UrlLibrary) (i : UrlBatch) (now : ℕ) (c : Crawl) (s : State)
    → c.total_queued < c.max_pages
    → Fits c s.queue
    → IsCapped (admit_running u i now c s)
unfolding admit_running count_dropped
admit_running-IsCapped u i now c s below h =
    let rows = admit_rows u i now c s.queue in
    let (queue, inserted) = insert_rows rows s.queue in
    let c' = count_inserted c inserted in
    notify_if-IsCapped (ltb 0 (count is_admitted inserted)) c'
      (record s { crawl = some c'; queue = queue })
      (inserted-Fits rows c c' s.queue (count-admit_rows u i now c s.queue) below refl refl h)

dispatch_each-IsCapped :
    (ids : ℕ → ℕ) (n now : ℕ) (items : List CrawlQueueItem) (s : State)
    → IsCapped s
    → IsCapped (dispatch_each ids n now items s).0
unfolding dispatch_each
dispatch_each-IsCapped ids n now [] s h = h
dispatch_each-IsCapped ids n now (item ∷ items) s h =
    dispatch_each-IsCapped ids (suc n) now items
      (record s {
        pages = new_page (ids n) now item ∷ s.pages;
        queue = map (dispatch item.url (ids n) now) s.queue;
      })
      (map-FitsIfAny (dispatch item.url (ids n) now) s.crawl s.queue
        (dispatch-Keeps item.url (ids n) now) h)

pub claim_running-IsCapped :
    (ids : ℕ → ℕ) (i : ClaimInput) (now : ℕ) (c : Crawl) (s : State)
    → IsCapped s
    → IsCapped (claim_running ids i now c s).0
unfolding claim_running
claim_running-IsCapped ids i now c s h =
    let items = claimed_items i s in
    notify_if-IsCapped (is_nonempty items) c (dispatch_each ids 0 now items s).0
      (dispatch_each-IsCapped ids 0 now items s h)

pub deliver-IsCapped : (b : Bool) (c : Crawl) (s : State) → IsCapped s → IsCapped (deliver b c s)
unfolding deliver
deliver-IsCapped false c s h = h
deliver-IsCapped true c s h = elim (Option-cases c.webhook_url) [
  | inl n ↦ rw n h
  | inr (url, e) ↦ rw e h
]

close_page-IsCapped :
    (settings : Settings) (now : ℕ) (c : Crawl) (p : CrawlPage) (status : QueueStatus) (s : State)
    → Fits c s.queue
    → IsCapped (close_page settings now c p status s).0
unfolding close_page close_item recount notify
close_page-IsCapped settings now c p status s h =
    let closed =
      map-Fits (close_one p.id status now) c s.queue (close_one-Keeps p.id status now) h in
    record { unique = closed.unique; counted = closed.counted; capped = closed.capped }

pub record_outcome-IsCapped :
    (settings : Settings) (m : Minio) (i : RecordCrawlPageInput) (now : ℕ) (c : Crawl)
    (p : CrawlPage) (o : Outcome) (s : State)
    → Fits c s.queue
    → IsCapped (record_outcome settings m i now c p o (record s { crawl = some c })).0
unfolding record_outcome discard
record_outcome-IsCapped settings m i now c p cancelled s h =
    close_page-IsCapped settings now c (record p { status = PageStatus.cancelled })
      QueueStatus.skipped (discard m i.objects (record s { crawl = some c })) h
record_outcome-IsCapped settings m i now c p completed s h = kept i.objects
  where
    kept :
        (objects : List StoredObject)
        → IsCapped
            (record_outcome settings m
              (record i { objects = objects })
              now
              c
              p
              completed
              (record s { crawl = some c })).0
    kept [] = h
    kept (o ∷ os) =
        close_page-IsCapped settings now c
          (record p { status = PageStatus.completed; result_path = some o.path })
          QueueStatus.completed
          (record s {
            crawl = some c;
            ledger = record_objects (map (object_row c.user_id p.id) (o ∷ os)) s.ledger;
          })
          h
record_outcome-IsCapped settings m i now c p failed s h =
    close_page-IsCapped settings now c (record p { status = PageStatus.failed; error = i.error })
      QueueStatus.failed (discard m i.objects (record s { crawl = some c })) h
