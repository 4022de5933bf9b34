-- ===== src/CrawlWorkflow/Examples.antt =====
-- A crawl of the seed 1, which links to 2 and 3; and 3 links to 4.
use scrapeflow.Base.{ℕ, ◌+◌, ◌≡◌, refl, true, false, none, some, List, [], ◌∷◌, ◌++◌, map, length}
use scrapeflow.Quota.{increment_storage_bytes}
use scrapeflow.Ledger.{record_objects, record_object}
use scrapeflow.Crawl.{CrawlStatus, QueueStatus, State, at, crawl_started}
use scrapeflow.Crawl.Gate.{normalise, gate_reason}
use scrapeflow.Crawl.Frontier.{admit_urls, claim_crawl_pages}
use scrapeflow.Crawl.Pages.{record_crawl_page, finish_crawl}
use scrapeflow.Crawl.Examples.{urls, settings, minio, queued_crawl}
use scrapeflow.CrawlWorkflow.{CrawlInput, Texts, Answer, Result, Flow, ended}
use scrapeflow.CrawlWorkflow.Steps.{
  World, Step, main_commit, main_advance, page_commit, page_answer, page_advance, steps, begin,
}
use scrapeflow.CrawlWorkflow.Bounded.{steps-max_in_flight}
use scrapeflow.CrawlWorkflow.Fits.{IsBounded}

abbrev world : World
world = record { settings = settings; library = urls; minio = minio }

abbrev texts : Texts
texts = record { reasons = λ ks. "refused"; internal = λ x. "internal error" }

abbrev input : CrawlInput
input = record {
  seed_url = 1;
  max_depth = 3;
  max_pages = 9;
  ignore_sitemap = true;
  max_in_flight = 2;
  pages_per_run = 100;
  continued = false;
}

abbrev queued : State
queued = record {
  crawl = some (record queued_crawl { max_pages = 9 });
  pages = [];
  queue = [];
  ledger = record { objects = []; quotas = λ user. none };
  bucket = λ key. false;
  notices = [];
  deliveries = [];
}

-- The loop's call commits and is answered.
abbrev answered : ℕ → List Step
answered n = main_commit (λ k. n + k) n false ∷ main_advance false ∷ []

-- A page up to its record, and to its links.
abbrev fetched : ℕ → List Step
fetched page =
    page_answer page Answer.held
    ∷ page_advance page
    ∷ page_answer page (Answer.scraped (record { path = page; size = 10 }) [])
    ∷ page_advance page
    ∷ page_commit page 30 false
    ∷ page_advance page
    ∷ []

abbrev linked : ℕ → List ℕ → List Step
linked page links = page_answer page (Answer.links links) ∷ page_advance page ∷ []

abbrev admitted : ℕ → List Step
admitted page = page_commit page 40 false ∷ page_advance page ∷ []

-- The seed and its links, then page 200 (URL 3 or 2) to its end, which wakes the loop.
abbrev two_pages : List Step
two_pages =
    answered 10
    ++ (answered 20
        ++ (answered 100
            ++ (fetched 100
                ++ (linked 100 (2 ∷ 3 ∷ [])
                    ++ (admitted 100
                        ++ (main_advance false ∷ answered 200
                            ++ (fetched 200 ++ (linked 200 [] ++ main_advance false ∷ []))))))))

-- The claim commits before page 201's link is admitted, and is answered after: URL 4 is skipped.
abbrev late_claim : List Step
late_claim =
    two_pages
    ++ (main_commit (λ k. 300 + k) 50 false ∷ fetched 201
        ++ (linked 201 (4 ∷ []) ++ (admitted 201 ++ (main_advance false ∷ answered 400))))

abbrev flow : List Step → Flow
flow ss = steps world texts input (begin texts input false queued) ss

in_flight_of_two : length (flow (two_pages)).tasks ≡ 1
unfolding steps begin normalise gate_reason crawl_started admit_urls claim_crawl_pages
    record_crawl_page record_objects record_object increment_storage_bytes
in_flight_of_two = refl

late_claim_completes : (flow late_claim).main ≡ ended (Result.returned (at CrawlStatus.completed))
unfolding steps begin normalise gate_reason crawl_started admit_urls claim_crawl_pages
    record_crawl_page finish_crawl record_objects record_object increment_storage_bytes
late_claim_completes = refl

late_claim_skips : map (λ i. i.status) (flow late_claim).state.queue ≡ (
    QueueStatus.skipped ∷ QueueStatus.completed ∷ QueueStatus.completed ∷ QueueStatus.completed
    ∷ [])
unfolding steps begin normalise gate_reason crawl_started admit_urls claim_crawl_pages
    record_crawl_page finish_crawl record_objects record_object increment_storage_bytes
late_claim_skips = refl

steps-max_in_flight_example : IsBounded input (flow late_claim)
steps-max_in_flight_example = steps-max_in_flight input world texts false queued late_claim
