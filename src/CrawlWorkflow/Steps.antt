-- ===== src/CrawlWorkflow/Steps.antt =====
-- The steps of a crawl's workflow: the activities' commits, the answers, the tasks and the loop going on
-- (_db, _page and the tasks of api/app/workflows/crawl.py).
use scrapeflow.Base.{
  ℕ, suc, Bool, true, false, not, ◌||◌, Option, none, some, List, [], ◌∷◌, map, leb, ◌==◌, count,
  filter, if◌then◌else◌,
}
use scrapeflow.Temporal.{Exc, cancelled_error, activity_error}
use scrapeflow.Quota.{Settings}
use scrapeflow.Ledger.{Minio}
use scrapeflow.Crawl.{CrawlPage, State, DropKey, crawl_started, cancel_crawl, is_running}
use scrapeflow.Crawl.Gate.{UrlLibrary, Source, seed, link, sitemap, sitemap_file}
use scrapeflow.Crawl.Frontier.{
  UrlBatch, admit_urls, admit_rows, insert_rows, is_admitted, drop_keys, vet_urls,
  claim_crawl_pages,
}
use scrapeflow.Crawl.Pages.{PageRecorded, record_crawl_page, finish_crawl}
use scrapeflow.CrawlWorkflow.{
  CrawlInput, Stage, record_page, admit_links, vet_found, vet_files, admit_entries, Answer,
  recorded, admitted, vetted, raised, Task, Call, MainAnswer, status, seeded, claimed, threw,
  calling, Flow, Texts,
}
use scrapeflow.CrawlWorkflow.Pages.{Next, await, over, fails, hears, resume}
use scrapeflow.CrawlWorkflow.Loop.{advance, cancel_arrives, turn}

-- What the activities of the app DB run with.
pub record World : Type 0 where
  pub settings : Settings
  pub library : UrlLibrary
  pub minio : Minio

-- What admit_urls counts: `admitted`, and the keys of `dropped`.
unfoldable pub admit_counts : UrlLibrary → UrlBatch → ℕ → State → ℕ × List DropKey
unfolding admit_rows insert_rows
admit_counts u b now s = elim s.crawl [
  | none ↦ (0, [])
  | some c ↦
      if not (is_running c.status) || leb c.max_pages c.total_queued
      then (0, [])
      else let inserted = (insert_rows (admit_rows u b now c s.queue) s.queue).1 in
        (count is_admitted inserted, drop_keys inserted)
]

abbrev pub seed_batch : CrawlInput → UrlBatch
seed_batch i = record { urls = i.seed_url ∷ []; source = seed; depth = 0 }

abbrev pub batch : List ℕ → Source → ℕ → UrlBatch
batch urls source depth = record { urls = urls; source = source; depth = depth }

-- The activity that the main loop called, at `now`; `ids` are the new pages' uuids.
unfoldable pub run_call : World → CrawlInput → (ℕ → ℕ) → ℕ → Call → State → State × MainAnswer
unfolding admit_counts
run_call w i ids now Call.start s = let (s', state) = crawl_started s in (s', status state)
run_call w i ids now Call.admit_seed s =
    let (n, dropped) = admit_counts w.library (seed_batch i) now s in
    let (s', state) = admit_urls w.library (seed_batch i) now s in (s', seeded state n dropped)
run_call w i ids now (Call.claim c) s =
    let (s', claim) = claim_crawl_pages w.settings ids c now s in (s', claimed claim)
run_call w i ids now (Call.finish e) s =
    let (s', state) = finish_crawl e now s in (s', status state)

abbrev of_recorded : PageRecorded → Answer
of_recorded (PageRecorded.recorded s full) = recorded s full
of_recorded PageRecorded.index_error = raised (activity_error "list index out of range" true)

-- The activity of the app DB that the page's task waits for, if it is one.
unfoldable pub run_stage : World → ℕ → CrawlPage → Stage → State → Option (State × Answer)
run_stage w now p (record_page r path) s =
    let (s', answer) = record_crawl_page w.settings w.minio r now s in some (s', of_recorded answer)
run_stage w now p (admit_links urls) s =
    let (s', state) = admit_urls w.library (batch urls link (suc p.depth)) now s in
    some (s', admitted state)
run_stage w now p (vet_found urls) s =
    let (s', allowed) = vet_urls w.library (batch urls sitemap_file 0) s in
    some (s', vetted allowed)
run_stage w now p (vet_files urls depth hops x) s =
    let (s', allowed) = vet_urls w.library (batch urls sitemap_file 0) s in
    some (s', vetted allowed)
run_stage w now p (admit_entries urls x) s =
    let (s', state) = admit_urls w.library (batch urls sitemap 1) now s in some (s', admitted state)
run_stage w now p stage s = none

abbrev pub is_task : ℕ → Task → Bool
is_task page t = t.page.id == page

-- The task of a page that is in flight.
abbrev pub find_task : ℕ → List Task → Option Task
find_task page [] = none
find_task page (t ∷ tasks) =
    let rest = find_task page tasks in if is_task page t then some t else rest

abbrev pub put_task : Task → List Task → List Task
put_task t tasks = map (λ u. if is_task t.page.id u then t else u) tasks

abbrev pub keep_lost : {A : Type 0} → Bool → A → Option A
keep_lost true a = none
keep_lost false a = some a

-- The call commits; its answer comes to the loop, or is lost and the call is tried again.
unfoldable pub main_commits : World → CrawlInput → (ℕ → ℕ) → ℕ → Bool → Flow → Flow
unfolding run_call
main_commits w i ids now lost f = elim f.main [
  | calling call none ↦
      let (s, answer) = run_call w i ids now call f.state in
      record f { state = s; main = calling call (keep_lost lost answer) }
  | other ↦ f
]

abbrev pub with_answer : Bool → Answer → Task → Flow → Flow
with_answer lost a t f = record f {
  tasks = put_task (record t { answer = keep_lost lost a }) f.tasks;
}

unfoldable pub commit_task : World → ℕ → Bool → Task → Flow → Flow
unfolding run_stage
commit_task w now lost t f = elim t.answer [
  | some a ↦ f
  | none ↦ elim (run_stage w now t.page t.stage f.state) [
    | none ↦ f
    | some done ↦ with_answer lost done.1 t (record f { state = done.0 })
  ]
]

-- An answer that is no transaction's: it comes from a worker or the engine.
abbrev pub is_from_outside : Answer → Bool
is_from_outside (recorded s full) = false
is_from_outside (admitted s) = false
is_from_outside (vetted urls) = false
is_from_outside a = true

unfoldable pub answer_task : Answer → Task → Flow → Flow
answer_task a t f = elim t.answer [
  | some b ↦ f
  | none ↦ if is_from_outside a then with_answer false a t f else f
]

-- `self._failure or exc`, of an Exception; CancelledError is none.
abbrev pub noted : Exc → Option Exc → Option Exc
noted cancelled_error failure = failure
noted x (some y) = some y
noted x none = some x

-- _page's `finally`
abbrev pub leaves : Task → Flow → Flow
leaves t f = record f {
  tasks = filter (λ u. not (is_task t.page.id u)) f.tasks;
  finished = suc f.finished;
}

unfoldable pub goes_on : Task → Flow → Next → Flow
goes_on t f (await stage) = record f {
  tasks = put_task (record t { stage = stage; answer = none }) f.tasks;
}
goes_on t f over = leaves t f
goes_on t f (fails x) = leaves t (record f { failure = noted x f.failure })

unfoldable pub advance_task : CrawlInput → Task → Flow → Flow
unfolding hears resume goes_on
advance_task i t f = elim t.answer [
  | none ↦ f
  | some a ↦ let f' = hears a f in goes_on t f' (resume i f' t.page t.stage a)
]

abbrev pub on_task : ℕ → (Task → Flow → Flow) → Flow → Flow
on_task page act f = elim (find_task page f.tasks) [ none ↦ f | some t ↦ act t f ]

pub data Step : Type 0 where
  main_commit : (ℕ → ℕ) → ℕ → Bool → Step
  -- its call is given up
  main_fail : Exc → Step
  main_advance : Bool → Step
  page_commit : ℕ → ℕ → Bool → Step
  page_answer : ℕ → Answer → Step
  page_advance : ℕ → Step
  cancel : Step
  -- cancel_crawl of the API
  api_cancel : Step

unfoldable pub main_fails : Exc → Flow → Flow
main_fails x f = elim f.main [
  | calling call none ↦ record f { main = calling call (some (threw x)) }
  | other ↦ f
]

module _ (w : World) (t : Texts) (i : CrawlInput) where
  unfoldable pub step : Flow → Step → Flow
  unfolding main_commits main_fails advance commit_task answer_task advance_task cancel_arrives
  step f (main_commit ids now lost) = main_commits w i ids now lost f
  step f (main_fail x) = main_fails x f
  step f (main_advance suggested) = advance t i suggested f
  step f (page_commit page now lost) = on_task page (commit_task w now lost) f
  step f (page_answer page a) = on_task page (answer_task a) f
  step f (page_advance page) = on_task page (advance_task i) f
  step f cancel = cancel_arrives t f
  step f api_cancel = record f { state = (cancel_crawl f.state).0 }

  unfoldable pub steps : Flow → List Step → Flow
  unfolding step
  steps f [] = f
  steps f (s ∷ ss) = steps (step f s) ss

abbrev pub initial : State → Flow
initial s = record {
  state = s;
  tasks = [];
  finished = 0;
  cancel_requested = false;
  stop = none;
  failure = none;
  main = calling Call.start none;
}

-- A run of the workflow, up to its first await.
unfoldable pub begin : Texts → CrawlInput → Bool → State → Flow
unfolding turn
begin t i suggested s = if i.continued then turn t i suggested (initial s) else initial s
