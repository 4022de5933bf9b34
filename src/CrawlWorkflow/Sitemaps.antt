-- ===== src/CrawlWorkflow/Sitemaps.antt =====
-- The bounds on the expansion of the seed's sitemaps.
use scrapeflow.Base.{
  ℕ, suc, ◌≤◌, arith, not, ◌&&◌, ◌||◌, Option, none, some, List, [], ◌∷◌, ◌++◌, ltb, ◌==◌, All,
  All-append, if_ind, Bool-cases, inl, inr,
}
use scrapeflow.Temporal.{Exc, cancelled_error, activity_error}
use scrapeflow.Crawl.{CrawlPage, CrawlState}
use scrapeflow.CrawlWorkflow.{
  CrawlInput, Stage, host_slot, scrape, record_page, extract_links, admit_links, discover,
  vet_found, fetch_sitemap, vet_files, admit_entries, File, Expansion, SitemapFile, urlset, index,
  redirect, unavailable, Answer, held, scraped, recorded, links, admitted, found, vetted, file,
  raised, Flow, max_sitemap_files, max_sitemap_index_depth, max_sitemap_redirects, is_stopped,
  is_at_running,
}
use scrapeflow.CrawlWorkflow.Pages.{
  Next, await, next_file, read_file, vet_next, files, sitemaps_next, follow_next, after_record,
  vet_found_next, on_raised, resume,
}

-- A file in the queue: within the depth of indexes and the redirects.
abbrev pub FileFits : File → Type 0
FileFits c = (c.depth ≤ max_sitemap_index_depth) × (c.hops ≤ max_sitemap_redirects)

abbrev pub ExpansionFits : Expansion → Type 0
ExpansionFits x = (x.fetched ≤ max_sitemap_files) × All FileFits x.queue

-- What a task's stage says of the files fetched so far, the one being fetched included.
abbrev pub StageFits : Stage → Type 0
StageFits (fetch_sitemap c x) = FileFits c × ExpansionFits x
StageFits (vet_files urls depth hops x) =
    (depth ≤ max_sitemap_index_depth) × (hops ≤ max_sitemap_redirects) × ExpansionFits x
StageFits (admit_entries urls x) = ExpansionFits x
StageFits stage = Unit

abbrev pub NextFits : Next → Type 0
NextFits (await stage) = StageFits stage
NextFits n = Unit

files_fit :
    (depth hops : ℕ) (urls : List ℕ)
    → depth ≤ max_sitemap_index_depth
    → hops ≤ max_sitemap_redirects
    → All FileFits (files depth hops urls)
files_fit depth hops [] d h = tt
files_fit depth hops (u ∷ urls) d h = ((d, h), files_fit depth hops urls d h)

module _ (i : CrawlInput) (f : Flow) where
  next_file-Fits : (x : Expansion) → ExpansionFits x → NextFits (next_file i f x)
  unfolding next_file
  next_file-Fits x (n, q) = go x.queue q
    where
      go :
          (queue : List File)
          → All FileFits queue
          → NextFits (next_file i f (record x { queue = queue }))
      go [] q = tt
      go (c ∷ rest) q =
          elim (Bool-cases (ltb x.fetched max_sitemap_files && ltb x.entries i.max_pages)) [
            | inr e ↦ rw e tt
            | inl e ↦ rw e (
                if_ind NextFits (is_stopped f.stop || f.cancel_requested) _ _ tt
                  (q.0, (ground arith, q.1)))
          ]

  vet_next-Fits :
      (urls : List ℕ) (depth hops : ℕ) (x : Expansion)
      → depth ≤ max_sitemap_index_depth
      → hops ≤ max_sitemap_redirects
      → ExpansionFits x
      → NextFits (vet_next i f urls depth hops x)
  vet_next-Fits [] depth hops x d h e = next_file-Fits x e
  vet_next-Fits (u ∷ urls) depth hops x d h e = (d, h, e)

  read_file-Fits :
      (c : File) (x : Expansion) (a : SitemapFile)
      → FileFits c
      → ExpansionFits x
      → NextFits (read_file i f c x a)
  unfolding read_file
  read_file-Fits c x (urlset []) h e = next_file-Fits x e
  read_file-Fits c x (urlset (u ∷ urls)) h e = e
  read_file-Fits c x (index locs) h e = elim (Bool-cases (ltb c.depth max_sitemap_index_depth)) [
    | inl l ↦ rw l (vet_next-Fits locs (suc c.depth) 0 x (ground arith) (omega arith) e)
    | inr l ↦ rw l (next_file-Fits x e)
  ]
  read_file-Fits c x (redirect none) h e = next_file-Fits x e
  read_file-Fits c x (redirect (some location)) h e =
      elim (Bool-cases (ltb c.hops max_sitemap_redirects)) [
        | inl l ↦ rw l (vet_next-Fits (location ∷ []) c.depth (suc c.hops) x h.0 (ground arith) e)
        | inr l ↦ rw l (next_file-Fits x e)
      ]
  read_file-Fits c x unavailable h e = next_file-Fits x e

  sitemaps-Fits : (p : CrawlPage) → NextFits (sitemaps_next i p)
  sitemaps-Fits p = if_ind NextFits ((p.depth == 0) && not i.ignore_sitemap) _ _ tt tt

  follow-Fits : (p : CrawlPage) (path : ℕ) → NextFits (follow_next i p path)
  follow-Fits p path = if_ind NextFits (ltb p.depth i.max_depth) _ _ tt (sitemaps-Fits p)

  on_raised-Fits :
      (p : CrawlPage) (stage : Stage) (x : Exc)
      → StageFits stage
      → NextFits (on_raised i f p stage x)
  unfolding on_raised
  on_raised-Fits p (extract_links path) (activity_error m reached) h = sitemaps-Fits p
  on_raised-Fits p (fetch_sitemap c x) (activity_error m reached) h = next_file-Fits x h.1
  on_raised-Fits p host_slot cancelled_error h = tt
  on_raised-Fits p scrape (activity_error m reached) h = tt
  on_raised-Fits p (record_page r path) (activity_error m reached) h = tt
  on_raised-Fits p discover (activity_error m reached) h = tt
  on_raised-Fits p stage x h = tt

  vet_found-Fits : (urls : List ℕ) → NextFits (vet_found_next i f urls)
  vet_found-Fits [] = tt
  vet_found-Fits (u ∷ urls) = tt

  after_record-Fits :
      (p : CrawlPage) (path : Option ℕ) (s : CrawlState) → NextFits (after_record i p path s f)
  after_record-Fits p none s = tt
  after_record-Fits p (some path) s =
      if_ind NextFits (not (is_at_running s) || f.cancel_requested) _ _ tt (follow-Fits p path)

  -- Whatever comes back to a task whose expansion is within the bounds, it goes on within them: at most
  -- 20 sitemap files fetched, indexes at most 2 deep, at most 3 redirects in a row.
  pub resume-Fits :
      (p : CrawlPage) (stage : Stage) (a : Answer)
      → StageFits stage
      → NextFits (resume i f p stage a)
  unfolding resume
  resume-Fits p stage (raised x) h = on_raised-Fits p stage x h
  resume-Fits p (record_page r path) (recorded s full) h = after_record-Fits p path s
  resume-Fits p (extract_links path) (links []) h = sitemaps-Fits p
  resume-Fits p (admit_links urls) (admitted s) h = sitemaps-Fits p
  resume-Fits p discover (found ls) h = vet_found-Fits ls
  resume-Fits p (vet_found urls) (vetted ls) h =
      next_file-Fits (record { queue = files 0 0 ls; fetched = 0; entries = 0 })
        (omega arith, files_fit 0 0 ls (omega arith) (omega arith))
  resume-Fits p (fetch_sitemap c x) (file a) h = read_file-Fits c x a h.0 h.1
  resume-Fits p (vet_files urls d k x) (vetted ls) h =
      next_file-Fits (record x { queue = x.queue ++ files d k ls })
        (h.2.0, All-append FileFits x.queue (files d k ls) h.2.1 (files_fit d k ls h.0 h.1))
  resume-Fits p (admit_entries urls x) (admitted s) h = next_file-Fits x h
  resume-Fits p (extract_links path) (links (u ∷ ls)) h = tt
  resume-Fits p host_slot held h = tt
  resume-Fits p scrape (scraped o os) h = tt
  resume-Fits p stage a h = h
