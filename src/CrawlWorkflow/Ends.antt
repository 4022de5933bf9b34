-- ===== src/CrawlWorkflow/Ends.antt =====
-- What is left of a crawl whose workflow has ended.
use scrapeflow.Base.{◌≡◌, true}
use scrapeflow.Crawl.{State}
use scrapeflow.Crawl.Lane.Ended.{IsClosed}
use scrapeflow.CrawlWorkflow.{Ended, Main, Flow}
use scrapeflow.CrawlWorkflow.Refines.{Reaches, is_over}

-- Where the workflow is over, the crawl is closed.
abbrev pub Closing : State → Main → Type 0
Closing s m = is_over m ≡ true → IsClosed s

-- The tables change by transactions, and the crawl is closed where the workflow is over.
pub record Goes (f g : Flow) : Type 0 where
  pub state : Reaches f.state g.state
  pub ends : Closing g.state g.main
