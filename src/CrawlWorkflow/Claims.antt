-- ===== src/CrawlWorkflow/Claims.antt =====
-- How many pages a claim hands out.
use scrapeflow.Base.{
  ℕ, suc, ap, ◌-◌, ◌≤◌, ◌≡◌, refl, arith, not, Option, none, some, List, [], ◌∷◌, leb, length,
  if_ind, length-take, length-append,
}
use scrapeflow.Quota.{Settings, storage_usage}
use scrapeflow.Crawl.{Crawl, State, CrawlQueueItem, is_running}
use scrapeflow.Crawl.Frontier.{
  Claim, ClaimInput, claim_crawl_pages, claim_running, dispatch_each, orphans, claimed_items,
}

length-dispatch_each :
    (ids : ℕ → ℕ) (n now : ℕ) (items : List CrawlQueueItem) (s : State)
    → length (dispatch_each ids n now items s).1 ≡ length items
unfolding dispatch_each
length-dispatch_each ids n now [] s = refl
length-dispatch_each ids n now (item ∷ items) s =
    ap suc (length-dispatch_each ids (suc n) now items _)

length-orphans : (i : ClaimInput) (s : State) → length (orphans i s) ≤ i.limit
length-orphans i s = length-take i.limit _

length_items :
    (i : ClaimInput) (s : State) → length (claimed_items i s) ≤ i.limit - length (orphans i s)
length_items i s = length-take (i.limit - length (orphans i s)) _

claim_running_limit :
    (ids : ℕ → ℕ) (i : ClaimInput) (now : ℕ) (c : Crawl) (s : State)
    → length (claim_running ids i now c s).1.pages ≤ i.limit
unfolding claim_running
claim_running_limit ids i now c s = omega (
  arith,
  length-append (orphans i s) (dispatch_each ids 0 now (claimed_items i s) s).1,
  length-dispatch_each ids 0 now (claimed_items i s) s,
  length-orphans i s,
  length_items i s,
)

module _ (w : Settings) (ids : ℕ → ℕ) (i : ClaimInput) (now : ℕ) (s : State) where
  abbrev Limited : State × Claim → Type 0
  Limited o = length o.1.pages ≤ i.limit

  lim_nothing : 0 ≤ i.limit
  lim_nothing = omega arith

  limited : (c : Option Crawl) → Limited (claim_crawl_pages w ids i now (record s { crawl = c }))
  unfolding claim_crawl_pages
  limited none = omega arith
  limited (some c) = if_ind Limited (not (is_running c.status)) _ _ lim_nothing (
      if_ind Limited
        (let (used, limit) = storage_usage w c.user_id s.ledger.quotas in leb limit used) _ _
        lim_nothing (claim_running_limit ids i now c (record s { crawl = some c })))

  -- No more pages than were asked for.
  pub claim_limit : Limited (claim_crawl_pages w ids i now s)
  claim_limit = limited s.crawl
