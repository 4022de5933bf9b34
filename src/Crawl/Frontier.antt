-- ===== src/Crawl/Frontier.antt =====
-- The frontier (admit_urls, vet_urls and claim_crawl_pages of
-- api/app/workflows/activities/crawls.py). A table is a list; ORDER BY leaves ties in its order.
use scrapeflow.Base.{
  ℕ, suc, ◌+◌, ◌-◌, Bool, true, false, not, ◌&&◌, ◌||◌, Option, none, some, List, [], ◌∷◌, ◌++◌,
  map, leb, ltb, ◌==◌, if◌then◌else◌, any, count, filter, take, contains, get_or, length, sort_by,
}
use scrapeflow.Quota.{Settings, storage_usage}
use scrapeflow.Crawl.{
  Crawl, CrawlPage, CrawlQueueItem, PageStatus, QueueStatus, Reason, invalid, DropKey, page_drop,
  sitemap_drop, State, CrawlState, gone, at, is_running, is_pending, is_dispatched, notify,
}
use scrapeflow.Crawl.Gate.{Source, UrlLibrary, Hosts, normalise, gate_reason, count_dropped}

pub record UrlBatch : Type 0 where
  pub urls : List ℕ
  pub source : Source
  pub depth : ℕ

abbrev pub has_url : ℕ → List CrawlQueueItem → Bool
has_url url queue = any (λ i. i.url == url) queue

-- The variables of admit_urls' loop.
pub record Sorting : Type 0 where
  pub seen : List ℕ
  pub hosts : Hosts
  pub fresh : List ℕ
  pub refused : List (ℕ × Reason)

abbrev pub unsorted : List ℕ → Sorting
unsorted seen = record { seen = seen; hosts = []; fresh = []; refused = [] }

-- `_normalise(u) or u.strip()`
abbrev pub key_of : UrlLibrary → ℕ → ℕ
key_of u raw = get_or (normalise u raw) (u.strip raw)

abbrev reason_for : UrlLibrary → Crawl → Source → ℕ → Hosts → Hosts × Option Reason
reason_for u c source raw hosts = elim (normalise u raw) [
  | none ↦ (hosts, some invalid)
  | some key ↦ gate_reason u c key source hosts
]

abbrev sort_url : UrlLibrary → Crawl → Source → ℕ → Sorting → Sorting
sort_url u c source raw w =
    let key = key_of u raw in
    let (hosts, reason) = reason_for u c source raw w.hosts in
    if contains key w.seen then w else elim reason [
      | none ↦ record w { seen = key ∷ w.seen; hosts = hosts; fresh = w.fresh ++ key ∷ [] }
      | some r ↦ record w {
        seen = key ∷ w.seen;
        hosts = hosts;
        refused = w.refused ++ (key, r) ∷ [];
      }
    ]

unfoldable pub sort_urls : UrlLibrary → Crawl → Source → List ℕ → Sorting → Sorting
sort_urls u c source [] w = w
sort_urls u c source (raw ∷ rest) w = sort_urls u c source rest (sort_url u c source raw w)

abbrev pub queue_row : ℕ → ℕ → QueueStatus → Option Reason → ℕ → CrawlQueueItem
queue_row depth now status reason url = record {
  url = url;
  depth = depth;
  status = status;
  drop_reason = reason;
  crawl_page_id = none;
  created_at = now;
  dispatched_at = none;
  completed_at = none;
}

-- INSERT ... ON CONFLICT (crawl_id, url) DO NOTHING RETURNING url, drop_reason
unfoldable pub insert_rows :
    List CrawlQueueItem → List CrawlQueueItem → List CrawlQueueItem × List (ℕ × Option Reason)
insert_rows [] queue = (queue, [])
insert_rows (row ∷ rows) queue =
    let old = has_url row.url queue in
    let (queue', inserted) = insert_rows rows (if old then queue else row ∷ queue) in
    (queue', if old then inserted else (row.url, row.drop_reason) ∷ inserted)

abbrev pub is_admitted : ℕ × Option Reason → Bool
is_admitted (url, none) = true
is_admitted (url, some r) = false

abbrev pub drop_keys : List (ℕ × Option Reason) → List DropKey
drop_keys [] = []
drop_keys ((url, none) ∷ rest) = drop_keys rest
drop_keys ((url, some r) ∷ rest) = page_drop r ∷ drop_keys rest

abbrev pub notify_if : Bool → Crawl → State → State
notify_if true c s = notify c none s
notify_if false c s = s

-- The rows to insert, from the batch and what the frontier has seen of it.
unfoldable pub admit_rows :
    UrlLibrary → UrlBatch → ℕ → Crawl → List CrawlQueueItem → List CrawlQueueItem
unfolding sort_urls
admit_rows u i now c queue =
    let room = c.max_pages - c.total_queued in
    let keys = map (key_of u) i.urls in
    let sorted = sort_urls u c i.source i.urls (unsorted (filter (λ k. has_url k queue) keys)) in
    map (queue_row i.depth now QueueStatus.pending none) (take room sorted.fresh)
    ++ map (λ d. queue_row i.depth now QueueStatus.dropped (some d.1) d.0) sorted.refused

abbrev pub count_inserted : Crawl → List (ℕ × Option Reason) → Crawl
count_inserted c inserted = record (count_dropped c (drop_keys inserted)) {
  total_queued = c.total_queued + count is_admitted inserted;
}

unfoldable pub admit_running : UrlLibrary → UrlBatch → ℕ → Crawl → State → State
unfolding admit_rows insert_rows count_dropped notify
admit_running u i now c s =
    let (queue, inserted) = insert_rows (admit_rows u i now c s.queue) s.queue in
    let c' = count_inserted c inserted in
    notify_if (ltb 0 (count is_admitted inserted)) c' (record s { crawl = some c'; queue = queue })

unfoldable pub admit_urls : UrlLibrary → UrlBatch → ℕ → State → State × CrawlState
unfolding admit_running
admit_urls u i now s = elim s.crawl [
  | none ↦ (s, gone)
  | some c ↦
      if not (is_running c.status) || leb c.max_pages c.total_queued
      then (s, at c.status)
      else (admit_running u i now c s, at c.status)
]

-- The loop of vet_urls, over each URL once.
abbrev vet_each : UrlLibrary → Crawl → Source → List ℕ → List ℕ → Hosts → List ℕ × List DropKey
vet_each u c source done [] hosts = ([], [])
vet_each u c source done (raw ∷ rest) hosts =
    let (hosts', reason) = reason_for u c source raw hosts in
    let again = contains raw done in
    let (allowed, drops) =
      vet_each u c source (raw ∷ done) rest (if again then hosts else hosts') in
    if again then (allowed, drops) else elim reason [
      | none ↦ (key_of u raw ∷ allowed, drops)
      | some r ↦ (allowed, sitemap_drop r ∷ drops)
    ]

-- The second part is the URLs that may be fetched.
unfoldable pub vet_urls : UrlLibrary → UrlBatch → State → State × List ℕ
unfolding count_dropped
vet_urls u i s = elim s.crawl [
  | none ↦ (s, [])
  | some c ↦
      if not (is_running c.status)
      then (s, [])
      else let (allowed, drops) = vet_each u c i.source [] i.urls [] in
        (record s { crawl = some (count_dropped c drops) }, allowed)
]

pub record ClaimInput : Type 0 where
  pub limit : ℕ
  pub in_flight : List ℕ

pub record Claim : Type 0 where
  pub state : CrawlState
  pub pages : List CrawlPage
  pub storage_full : Bool

abbrev claim_nothing : CrawlState → Bool → Claim
claim_nothing state full = record { state = state; pages = []; storage_full = full }

abbrev is_page : ℕ → Option ℕ → Bool
is_page page none = false
is_page page (some p) = p == page

abbrev pub is_of_page : ℕ → CrawlQueueItem → Bool
is_of_page page i = is_page page i.crawl_page_id

-- Claimed earlier and not among the pages in flight.
abbrev is_orphan : List ℕ → List CrawlQueueItem → CrawlPage → Bool
is_orphan in_flight queue p =
    any (λ i. is_dispatched i.status && is_of_page p.id i) queue && not (contains p.id in_flight)

abbrev sooner : CrawlQueueItem → CrawlQueueItem → Bool
sooner a b = ltb a.depth b.depth || ((a.depth == b.depth) && leb a.created_at b.created_at)

abbrev pub new_page : ℕ → ℕ → CrawlQueueItem → CrawlPage
new_page id now item = record {
  id = id;
  url = item.url;
  depth = item.depth;
  status = PageStatus.running;
  result_path = none;
  error = none;
  created_at = now;
  completed_at = none;
}

-- An item of the crawl is found by its URL, which is unique.
abbrev pub dispatch : ℕ → ℕ → ℕ → CrawlQueueItem → CrawlQueueItem
dispatch url id now i =
    if i.url == url
    then record i {
      status = QueueStatus.dispatched;
      crawl_page_id = some id;
      dispatched_at = some now;
    }
    else i

-- The loop over the items: `ids n` is the uuid of its n-th page. The second part is its pages.
unfoldable pub dispatch_each :
    (ℕ → ℕ) → ℕ → ℕ → List CrawlQueueItem → State → State × List CrawlPage
dispatch_each ids n now [] s = (s, [])
dispatch_each ids n now (item ∷ items) s =
    let page = new_page (ids n) now item in
    let (s', pages) =
      dispatch_each ids (suc n) now items (record s {
        pages = page ∷ s.pages;
        queue = map (dispatch item.url (ids n) now) s.queue;
      }) in
    (s', page ∷ pages)

abbrev pub is_nonempty : List CrawlQueueItem → Bool
is_nonempty [] = false
is_nonempty (i ∷ items) = true

abbrev pub orphans : ClaimInput → State → List CrawlPage
orphans i s = take i.limit (
    sort_by (λ a b. leb a.created_at b.created_at) (filter (is_orphan i.in_flight s.queue) s.pages))

abbrev pub claimed_items : ClaimInput → State → List CrawlQueueItem
claimed_items i s =
    take (i.limit - length (orphans i s))
      (sort_by sooner (filter (λ q. is_pending q.status) s.queue))

unfoldable pub claim_running : (ℕ → ℕ) → ClaimInput → ℕ → Crawl → State → State × Claim
unfolding dispatch_each notify
claim_running ids i now c s =
    let items = claimed_items i s in
    let (s', pages) = dispatch_each ids 0 now items s in
    (
      notify_if (is_nonempty items) c s',
      record { state = at c.status; pages = orphans i s ++ pages; storage_full = false },
    )

unfoldable pub claim_crawl_pages : Settings → (ℕ → ℕ) → ClaimInput → ℕ → State → State × Claim
unfolding claim_running storage_usage
claim_crawl_pages settings ids i now s = elim s.crawl [
  | none ↦ (s, claim_nothing gone false)
  | some c ↦
      if not (is_running c.status)
      then (s, claim_nothing (at c.status) false)
      else let (used, limit) = storage_usage settings c.user_id s.ledger.quotas in
        if leb limit used
        then (s, claim_nothing (at c.status) true)
        else claim_running ids i now c s
]
