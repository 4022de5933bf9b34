-- ===== src/CrawlWorkflow.antt =====
-- CrawlWorkflow (api/app/workflows/crawl.py): its main loop and the tasks of the pages in flight,
-- which Temporal interleaves at every await. A step is one event of the history: an activity of the
-- app DB commits, an answer arrives and its coroutine goes on to the next await, a cancel arrives.
-- An answer waits in the coroutine that made the call, so what others do between an activity's
-- commit and its answer is an order of steps. Times, uuids and URLs are numbers.
pub mod Pages
pub mod Loop
pub mod Steps
pub mod Claims
pub mod Refines
pub mod Tasks
pub mod Fits
pub mod Bounded
pub mod Ends
pub mod Sitemaps
mod Examples
use scrapeflow.Base.{
  ℕ, Bool, true, false, not, ◌&&◌, ◌||◌, Option, none, some, List, [], ◌∷◌, ◌++◌, String, map, leb,
  ltb, ◌-◌, length, contains, filter, if◌then◌else◌,
}
use scrapeflow.JobRun.Running.{StoredObject}
use scrapeflow.Temporal.{
  Exc, cancelled_error, activity_error, application_error, other_error, run_cancelled,
}
use scrapeflow.Crawl.{CrawlPage, CrawlStatus, CrawlState, gone, at, State, DropKey}
use scrapeflow.Crawl.Frontier.{UrlBatch, Claim, ClaimInput}
use scrapeflow.Crawl.Pages.{Outcome, RecordCrawlPageInput, FinishCrawlInput}

pub record CrawlInput : Type 0 where
  pub seed_url : ℕ
  pub max_depth : ℕ
  pub max_pages : ℕ
  pub ignore_sitemap : Bool
  pub max_in_flight : ℕ
  pub pages_per_run : ℕ
  pub continued : Bool

-- Why no more pages are claimed: STORAGE_LIMIT_NOTE, or "stopped".
pub data Stop : Type 0 where
  storage_limit stopped : Stop

-- A sitemap file in the queue.
pub record File : Type 0 where
  pub url : ℕ
  pub depth : ℕ
  pub hops : ℕ

-- The variables of _follow_sitemaps.
pub record Expansion : Type 0 where
  pub queue : List File
  pub fetched : ℕ
  pub entries : ℕ

-- The await that a page's task is at. `record_page` goes on to the page's links only after a
-- completed page, whose path it keeps.
pub data Stage : Type 0 where
  host_slot : Stage
  scrape : Stage
  record_page : RecordCrawlPageInput → Option ℕ → Stage
  extract_links : ℕ → Stage
  admit_links : List ℕ → Stage
  discover : Stage
  vet_found : List ℕ → Stage
  fetch_sitemap : File → Expansion → Stage
  -- the depth and the hops that the vetted files get
  vet_files : List ℕ → ℕ → ℕ → Expansion → Stage
  admit_entries : List ℕ → Expansion → Stage

-- A FetchSitemapOutput, by its kind.
pub data SitemapFile : Type 0 where
  urlset index : List ℕ → SitemapFile
  redirect : Option ℕ → SitemapFile
  unavailable : SitemapFile

pub data Answer : Type 0 where
  held : Answer
  scraped : StoredObject → List StoredObject → Answer
  -- state and storage_full
  recorded : CrawlState → Bool → Answer
  links : List ℕ → Answer
  admitted : CrawlState → Answer
  found : List ℕ → Answer
  vetted : List ℕ → Answer
  file : SitemapFile → Answer
  raised : Exc → Answer

pub record Task : Type 0 where
  pub page : CrawlPage
  pub stage : Stage
  -- what came back of its call and has not reached it
  pub answer : Option Answer

-- What finish_crawl is told.
abbrev pub Ended : Type 0
Ended = FinishCrawlInput

pub data Call : Type 0 where
  start : Call
  admit_seed : Call
  claim : ClaimInput → Call
  finish : Ended → Call

pub data MainAnswer : Type 0 where
  -- of crawl_started and finish_crawl
  status : CrawlState → MainAnswer
  -- Admitted: state, admitted and the keys of dropped
  seeded : CrawlState → ℕ → List DropKey → MainAnswer
  claimed : Claim → MainAnswer
  threw : Exc → MainAnswer

pub data Result : Type 0 where
  returned : CrawlState → Result
  cancelled : Result
  failed : String → Result
  -- what the call of finish_crawl raised, or the cancel that came before that was heard
  escaped : Exc → Result
  continued_as_new : Result
  -- the CancelledError of a cancel that came while _drain waited
  abandoned : Result

pub data Main : Type 0 where
  calling : Call → Option MainAnswer → Main
  -- wait_condition: more than `done` pages have finished
  waiting : ℕ → Main
  -- _drain, with what comes after
  draining : Ended → Main
  ended : Result → Main

-- The app DB, and the workflow's own variables. The tasks are those of _in_flight, in its order.
pub record Flow : Type 0 where
  pub state : State
  pub tasks : List Task
  pub finished : ℕ
  pub cancel_requested : Bool
  pub stop : Option Stop
  pub failure : Option Exc
  pub main : Main

-- Text that the workflow makes of what it reads.
pub record Texts : Type 0 where
  -- ", ".join(sorted(dropped))
  pub reasons : List DropKey → String
  -- "internal error: {type}: {exc}" of an Exception that is no ApplicationError
  pub internal : Exc → String

abbrev pub max_sitemap_files : ℕ
max_sitemap_files = 20

abbrev pub max_sitemap_index_depth : ℕ
max_sitemap_index_depth = 2

abbrev pub max_sitemap_redirects : ℕ
max_sitemap_redirects = 3

abbrev pub in_flight : List Task → List ℕ
in_flight tasks = map (λ t. t.page.id) tasks

abbrev pub is_at_running : CrawlState → Bool
is_at_running (at CrawlStatus.running) = true
is_at_running _ = false

abbrev pub is_stopped : Option Stop → Bool
is_stopped none = false
is_stopped (some s) = true

-- `suggested` is is_continue_as_new_suggested().
unfoldable pub run_full : CrawlInput → Bool → Flow → Bool
run_full i suggested f = leb i.pages_per_run f.finished || suggested

abbrev pub stop_unless : CrawlState → Flow → Flow
stop_unless s f = if is_at_running s then f else record f { stop = some stopped }
