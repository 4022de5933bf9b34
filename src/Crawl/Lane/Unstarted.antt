-- ===== src/Crawl/Lane/Unstarted.antt =====
-- A crawl whose workflow did not start.
use scrapeflow.Base.{ℕ, ◌≡◌, refl, none, some, Option, List, [], ◌∷◌, String}
use scrapeflow.Crawl.{State, Crawl, CrawlStatus, Delivery, notify}
use scrapeflow.Crawl.Pages.{fail_unstarted_crawl, deliver}
use scrapeflow.Crawl.Lane.{Transaction, commits}
use scrapeflow.Crawl.Lane.Ended.{IsClosed, Same}
use scrapeflow.Crawl.Lane.Closed.{closed_commits}

-- The crawl as its request inserts it: no page, no frontier.
abbrev pub inserted : Crawl → State → State
inserted c s = record s { crawl = some c; pages = []; queue = [] }

abbrev pub failure_of : Option ℕ → List Delivery → List Delivery
failure_of none deliveries = deliveries
failure_of (some url) deliveries =
    record { event = CrawlStatus.failed; webhook_url = url } ∷ deliveries

module _ (raised : String) (now : ℕ) (s : State) where
  unstarted-IsClosed :
      (c : Crawl) (url : Option ℕ)
      → c.total_completed ≡ 0
      → c.total_failed ≡ 0
      → let s' = fail_unstarted_crawl raised now (inserted (record c { webhook_url = url }) s) in
        IsClosed s' × (s'.deliveries ≡ failure_of url s.deliveries)
  unfolding fail_unstarted_crawl notify deliver
  unstarted-IsClosed c none h k = (
    record { over = refl; dated = refl; ended = refl; empty = refl; completed = h; failed = k },
    refl,
  )
  unstarted-IsClosed c (some url) h k = (
    record { over = refl; dated = refl; ended = refl; empty = refl; completed = h; failed = k },
    refl,
  )

-- A crawl that was just inserted and whose workflow did not start is closed, and delivers one
-- crawl.failed if it has a receiver; whatever activities and cancels commit after, as of a workflow
-- that was started all the same, its row, its pages, its frontier, the ledger and the webhooks stay.
pub fail_unstarted_crawl-final :
    (raised : String) (now : ℕ) (s : State) (c : Crawl) (ts : List Transaction)
    → c.total_completed ≡ 0
    → c.total_failed ≡ 0
    → let s' = fail_unstarted_crawl raised now (inserted c s) in
      IsClosed s'
      × (s'.deliveries ≡ failure_of c.webhook_url s.deliveries)
      × Same s' (commits s' ts)
fail_unstarted_crawl-final raised now s c ts h k =
    let (closed, delivered) = unstarted-IsClosed raised now s c c.webhook_url h k in
    (closed, delivered, closed_commits (fail_unstarted_crawl raised now (inserted c s)) ts closed)
