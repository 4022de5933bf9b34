-- ===== src/Crawl/Lane/Rows.antt =====
-- What the frontier's rows count, and what each change of them keeps.
use scrapeflow.Base.{
  ℕ, suc, ◌+◌, ◌-◌, ◌≤◌, ◌<◌, ◌≡◌, refl, ap, Bool, true, false, Option, none, some, List, [], ◌∷◌,
  ◌++◌, map, arith, count, take, filter, length, length-take, count-append, Bool-cases, inl, inr,
}
use scrapeflow.Crawl.{Crawl, CrawlQueueItem, QueueStatus, Reason, skip_pending}
use scrapeflow.Crawl.Gate.{UrlLibrary}
use scrapeflow.Crawl.Frontier.{
  UrlBatch, has_url, queue_row, insert_rows, is_admitted, dispatch, admit_rows, sort_urls, unsorted,
  key_of,
}
use scrapeflow.Crawl.Pages.{skip_left_item, close_one}

abbrev pub is_admitted_row : CrawlQueueItem → Bool
is_admitted_row i = elim i.drop_reason [ none ↦ true | some r ↦ false ]

-- UNIQUE (crawl_id, url)
abbrev pub HasUniqueUrls : List CrawlQueueItem → Type 0
HasUniqueUrls [] = Unit
HasUniqueUrls (i ∷ queue) = (has_url i.url queue ≡ false) × HasUniqueUrls queue

-- `total_queued` counts the rows that were admitted, within `max_pages`.
pub record Fits (c : Crawl) (queue : List CrawlQueueItem) : Type 0 where
  pub unique : HasUniqueUrls queue
  pub counted : c.total_queued ≡ count is_admitted_row queue
  pub capped : c.total_queued ≤ c.max_pages

abbrev pub FitsIfAny : Option Crawl → List CrawlQueueItem → Type 0
FitsIfAny none queue = Unit
FitsIfAny (some c) queue = Fits c queue

-- A change of a row that leaves its URL and its reason.
abbrev pub Keeps : (CrawlQueueItem → CrawlQueueItem) → Type 0
Keeps f = (i : CrawlQueueItem) → ((f i).url ≡ i.url) × ((f i).drop_reason ≡ i.drop_reason)

module _ (f : CrawlQueueItem → CrawlQueueItem) (keeps : Keeps f) where
  has_url-map :
      (url : ℕ) (queue : List CrawlQueueItem) → has_url url (map f queue) ≡ has_url url queue
  has_url-map url [] = refl
  has_url-map url (i ∷ queue) = rw ((keeps i).0, has_url-map url queue) refl

  map-HasUniqueUrls :
      (queue : List CrawlQueueItem) → HasUniqueUrls queue → HasUniqueUrls (map f queue)
  map-HasUniqueUrls [] h = h
  map-HasUniqueUrls (i ∷ queue) h =
      (rw ((keeps i).0, has_url-map i.url queue) h.0, map-HasUniqueUrls queue h.1)

  count-map :
      (queue : List CrawlQueueItem)
      → count is_admitted_row (map f queue) ≡ count is_admitted_row queue
  count-map [] = refl
  count-map (i ∷ queue) = rw ((keeps i).1, count-map queue) refl

pub insert_rows-HasUniqueUrls :
    (rows queue : List CrawlQueueItem)
    → HasUniqueUrls queue
    → HasUniqueUrls (insert_rows rows queue).0
unfolding insert_rows
insert_rows-HasUniqueUrls [] queue h = h
insert_rows-HasUniqueUrls (row ∷ rows) queue h = elim (Bool-cases (has_url row.url queue)) [
  | inl old ↦ rw old (insert_rows-HasUniqueUrls rows queue h)
  | inr new ↦ rw new (insert_rows-HasUniqueUrls rows (row ∷ queue) (new, h))
]

pub count-insert_rows :
    (rows queue : List CrawlQueueItem)
    → count is_admitted_row (insert_rows rows queue).0
      ≡ count is_admitted_row queue + count is_admitted (insert_rows rows queue).1
unfolding insert_rows
count-insert_rows [] queue = omega arith
count-insert_rows (row ∷ rows) queue =
    ground (arith, count-insert_rows rows queue, count-insert_rows rows (row ∷ queue))

pub inserted-le-rows :
    (rows queue : List CrawlQueueItem)
    → count is_admitted (insert_rows rows queue).1 ≤ count is_admitted_row rows
unfolding insert_rows
inserted-le-rows [] queue = omega arith
inserted-le-rows (row ∷ rows) queue =
    ground (arith, inserted-le-rows rows queue, inserted-le-rows rows (row ∷ queue))

pub count_fresh :
    (depth now : ℕ) (urls : List ℕ)
    → count is_admitted_row (map (queue_row depth now QueueStatus.pending none) urls) ≡ length urls
count_fresh depth now [] = refl
count_fresh depth now (url ∷ urls) = ap suc (count_fresh depth now urls)

pub count_refused :
    (depth now : ℕ) (refused : List (ℕ × Reason))
    → count is_admitted_row
        (map (λ d. queue_row depth now QueueStatus.dropped (some d.1) d.0) refused)
      ≡ 0
count_refused depth now [] = refl
count_refused depth now (d ∷ refused) = count_refused depth now refused

pub count_rows :
    (depth now room : ℕ) (fresh : List ℕ) (refused : List (ℕ × Reason))
    → count is_admitted_row (
        map (queue_row depth now QueueStatus.pending none) (take room fresh)
        ++ map (λ d. queue_row depth now QueueStatus.dropped (some d.1) d.0) refused)
      ≤ room
count_rows depth now room fresh refused = omega (
  arith,
  count-append is_admitted_row
      (map (queue_row depth now QueueStatus.pending none) (take room fresh))
      (map (λ d. queue_row depth now QueueStatus.dropped (some d.1) d.0) refused),
  count_fresh depth now (take room fresh),
  count_refused depth now refused,
  length-take room fresh,
)

pub count-admit_rows :
    (u : UrlLibrary) (i : UrlBatch) (now : ℕ) (c : Crawl) (queue : List CrawlQueueItem)
    → count is_admitted_row (admit_rows u i now c queue) ≤ c.max_pages - c.total_queued
unfolding admit_rows
count-admit_rows u i now c queue =
    let sorted =
      sort_urls u c i.source i.urls
        (unsorted (filter (λ k. has_url k queue) (map (key_of u) i.urls))) in
    count_rows i.depth now (c.max_pages - c.total_queued) sorted.fresh sorted.refused

pub map-Fits :
    (f : CrawlQueueItem → CrawlQueueItem) (c : Crawl) (queue : List CrawlQueueItem)
    → Keeps f
    → Fits c queue
    → Fits c (map f queue)
map-Fits f c queue keeps h = record {
  unique = map-HasUniqueUrls f keeps queue h.unique;
  counted = omega (arith, h.counted, count-map f keeps queue);
  capped = h.capped;
}

pub map-FitsIfAny :
    (f : CrawlQueueItem → CrawlQueueItem) (crawl : Option Crawl) (queue : List CrawlQueueItem)
    → Keeps f
    → FitsIfAny crawl queue
    → FitsIfAny crawl (map f queue)
map-FitsIfAny f none queue keeps h = h
map-FitsIfAny f (some c) queue keeps h = map-Fits f c queue keeps h

-- Only the counter and the bound of the row matter.
pub same-Fits :
    (c c' : Crawl) (queue : List CrawlQueueItem)
    → c'.total_queued ≡ c.total_queued
    → c'.max_pages ≡ c.max_pages
    → Fits c queue
    → Fits c' queue
same-Fits c c' queue e m h = record {
  unique = h.unique;
  counted = omega (arith, e, h.counted);
  capped = omega (arith, e, m, h.capped);
}

pub inserted-Fits :
    (rows : List CrawlQueueItem) (c c' : Crawl) (queue : List CrawlQueueItem)
    → count is_admitted_row rows ≤ c.max_pages - c.total_queued
    → c.total_queued < c.max_pages
    → c'.total_queued ≡ c.total_queued + count is_admitted (insert_rows rows queue).1
    → c'.max_pages ≡ c.max_pages
    → Fits c queue
    → Fits c' (insert_rows rows queue).0
inserted-Fits rows c c' queue room below e m h = record {
  unique = insert_rows-HasUniqueUrls rows queue h.unique;
  counted = omega (arith, e, h.counted, count-insert_rows rows queue);
  capped = omega (arith, e, m, room, below, inserted-le-rows rows queue);
}

pub dispatch-Keeps : (url id now : ℕ) → Keeps (dispatch url id now)
dispatch-Keeps url id now i = (ground arith, ground arith)

pub close_one-Keeps :
    (page : ℕ) (status : QueueStatus) (now : ℕ) → Keeps (close_one page status now)
close_one-Keeps page status now i = (ground arith, ground arith)

pub skip_left_item-Keeps : (now : ℕ) → Keeps (skip_left_item now)
unfolding skip_left_item
skip_left_item-Keeps now i = (ground arith, ground arith)

pub skip_pending-Keeps : Keeps skip_pending
skip_pending-Keeps i = (ground arith, ground arith)
