-- ===== src/CrawlWorkflow/Pages.antt =====
-- One page's task: _page, _fetch, _record, _follow_links and _follow_sitemaps of
-- api/app/workflows/crawl.py. The releases of a host's slot are left out: they never raise.
use scrapeflow.Base.{
  ℕ, suc, ◌+◌, Bool, not, ◌&&◌, ◌||◌, Option, none, some, List, [], ◌∷◌, ◌++◌, String, map, ltb,
  ◌==◌, length, if◌then◌else◌,
}
use scrapeflow.JobRun.Running.{StoredObject}
use scrapeflow.Temporal.{Exc, cancelled_error, activity_error, application_error}
use scrapeflow.Crawl.{CrawlPage, CrawlState}
use scrapeflow.Crawl.Pages.{Outcome, RecordCrawlPageInput}
use scrapeflow.CrawlWorkflow.{
  CrawlInput, storage_limit, stopped, File, Expansion, Stage, host_slot, scrape, record_page,
  extract_links, admit_links, discover, vet_found, fetch_sitemap, vet_files, admit_entries,
  SitemapFile, urlset, index, redirect, unavailable, Answer, held, scraped, recorded, links,
  admitted, found, vetted, file, raised, Flow, max_sitemap_files, max_sitemap_index_depth,
  max_sitemap_redirects, is_at_running, is_stopped, stop_unless,
}

-- How a task goes on: to its next await, or it ends, with an exception or without.
pub data Next : Type 0 where
  await : Stage → Next
  over : Next
  fails : Exc → Next

abbrev pub record_of :
    CrawlPage → Outcome → List StoredObject → Option String → RecordCrawlPageInput
record_of p status objects error = record {
  page_id = p.id;
  status = status;
  objects = objects;
  error = error;
}

-- The loop of _follow_sitemaps, from its condition to its next await.
unfoldable pub next_file : CrawlInput → Flow → Expansion → Next
next_file i f x = elim x.queue [
  | [] ↦ over
  | first ∷ rest ↦
      if not (ltb x.fetched max_sitemap_files && ltb x.entries i.max_pages)
      then over
      else if is_stopped f.stop || f.cancel_requested
      then over
      else await (
          fetch_sitemap first
            (record { queue = rest; fetched = suc x.fetched; entries = x.entries }))
]

abbrev pub files : ℕ → ℕ → List ℕ → List File
files depth hops urls = map (λ u. record { url = u; depth = depth; hops = hops }) urls

-- _vet makes no call for no URLs.
abbrev pub vet_next : CrawlInput → Flow → List ℕ → ℕ → ℕ → Expansion → Next
vet_next i f [] depth hops x = next_file i f x
vet_next i f (u ∷ urls) depth hops x = await (vet_files (u ∷ urls) depth hops x)

unfoldable pub read_file : CrawlInput → Flow → File → Expansion → SitemapFile → Next
unfolding next_file
read_file i f current x (urlset []) = next_file i f x
read_file i f current x (urlset (u ∷ urls)) =
    await (admit_entries (u ∷ urls) (record x { entries = x.entries + length (u ∷ urls) }))
read_file i f current x (index locs) =
    if ltb current.depth max_sitemap_index_depth
    then vet_next i f locs (suc current.depth) 0 x
    else next_file i f x
read_file i f current x (redirect none) = next_file i f x
read_file i f current x (redirect (some location)) =
    if ltb current.hops max_sitemap_redirects
    then vet_next i f (location ∷ []) current.depth (suc current.hops) x
    else next_file i f x
read_file i f current x unavailable = next_file i f x

-- From _fetch's test of the depth: the links, then the sitemaps, then the end.
abbrev pub sitemaps_next : CrawlInput → CrawlPage → Next
sitemaps_next i p = if (p.depth == 0) && not i.ignore_sitemap then await discover else over

abbrev pub follow_next : CrawlInput → CrawlPage → ℕ → Next
follow_next i p path =
    if ltb p.depth i.max_depth then await (extract_links path) else sitemaps_next i p

-- _record, once answered: why no more pages are claimed.
unfoldable pub note_record : CrawlState → Bool → Flow → Flow
note_record s full f =
    if not (is_at_running s)
    then record f { stop = some stopped }
    else if full && not (is_stopped f.stop)
    then record f { stop = some storage_limit }
    else f

abbrev pub after_record : CrawlInput → CrawlPage → Option ℕ → CrawlState → Flow → Next
after_record i p none s f = over
after_record i p (some path) s f =
    if not (is_at_running s) || f.cancel_requested then over else follow_next i p path

abbrev accounting_failed : Exc
accounting_failed = application_error "storage_accounting_failed"

abbrev pub vet_found_next : CrawlInput → Flow → List ℕ → Next
vet_found_next i f [] = over
vet_found_next i f (u ∷ urls) = await (vet_found (u ∷ urls))

-- An exception, at each await.
unfoldable pub on_raised : CrawlInput → Flow → CrawlPage → Stage → Exc → Next
unfolding next_file
on_raised i f p host_slot cancelled_error =
    await (record_page (record_of p Outcome.cancelled [] none) none)
on_raised i f p scrape (activity_error error reached) =
    await (record_page (record_of p Outcome.failed [] (some error)) none)
on_raised i f p (record_page r path) (activity_error error reached) = fails accounting_failed
on_raised i f p (extract_links path) (activity_error error reached) = sitemaps_next i p
on_raised i f p discover (activity_error error reached) = over
on_raised i f p (fetch_sitemap current x) (activity_error error reached) = next_file i f x
on_raised i f p stage x = fails x

-- What an answer makes of the workflow's variables.
unfoldable pub hears : Answer → Flow → Flow
unfolding note_record
hears (recorded s full) f = note_record s full f
hears (admitted s) f = stop_unless s f
hears other f = f

-- An answer, at the await that it answers, with the variables as it left them. An answer of another
-- kind cannot come.
unfoldable pub resume : CrawlInput → Flow → CrawlPage → Stage → Answer → Next
unfolding next_file read_file on_raised
resume i f p stage (raised x) = on_raised i f p stage x
resume i f p host_slot held = await scrape
resume i f p scrape (scraped result screenshots) =
    await
      (record_page (record_of p Outcome.completed (result ∷ screenshots) none) (some result.path))
resume i f p (record_page r path) (recorded s full) = after_record i p path s f
resume i f p (extract_links path) (links []) = sitemaps_next i p
resume i f p (extract_links path) (links (u ∷ urls)) = await (admit_links (u ∷ urls))
resume i f p (admit_links urls) (admitted s) = sitemaps_next i p
resume i f p discover (found urls) = vet_found_next i f urls
resume i f p (vet_found urls) (vetted allowed) =
    next_file i f (record { queue = files 0 0 allowed; fetched = 0; entries = 0 })
resume i f p (fetch_sitemap current x) (file answer) = read_file i f current x answer
resume i f p (vet_files urls depth hops x) (vetted allowed) =
    next_file i f (record x { queue = x.queue ++ files depth hops allowed })
resume i f p (admit_entries urls x) (admitted s) = next_file i f x
resume i f p stage other = await stage
