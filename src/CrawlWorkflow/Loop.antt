-- ===== src/CrawlWorkflow/Loop.antt =====
-- The main loop of the crawl's workflow (run, _crawl, _drain and _admit of api/app/workflows/crawl.py).
use Prim.Native.String.{◌++◌ as ◌<>◌}
use scrapeflow.Base.{
  ℕ, ◌-◌, Bool, true, false, not, ◌&&◌, Option, none, some, List, [], ◌∷◌, ◌++◌, String, ltb, ◌==◌,
  length, contains, if◌then◌else◌,
}
use scrapeflow.Temporal.{Exc, cancelled_error, application_error}
use scrapeflow.Crawl.{CrawlPage, CrawlStatus, CrawlState, at, DropKey}
use scrapeflow.Crawl.Frontier.{Claim}
use scrapeflow.Crawl.Pages.{Outcome}
use scrapeflow.CrawlWorkflow.{
  CrawlInput, Stop, storage_limit, stopped, host_slot, Task, Ended, Call, MainAnswer, status,
  seeded, claimed, threw, Result, calling, waiting, draining, ended, Flow, Texts, in_flight,
  is_at_running, is_stopped, run_full, stop_unless,
}

abbrev storage_note : String
storage_note = "storage limit reached: the crawl stopped early"

abbrev pub outcome : Outcome → Option String → Ended
outcome o error = record { status = o; error = error }

abbrev calls : Call → Flow → Flow
calls c f = record f { main = calling c none }

abbrev pub drains : Ended → Flow → Flow
drains e f = record f { main = draining e }

abbrev ends : Result → Flow → Flow
ends r f = record f { main = ended r }

-- run's `except`.
unfoldable pub fail_with : Texts → Exc → Flow → Flow
fail_with t cancelled_error f =
    drains (outcome Outcome.cancelled none) (record f { cancel_requested = true })
fail_with t (application_error error) f = drains (outcome Outcome.failed (some error)) f
fail_with t x f = drains (outcome Outcome.failed (some (t.internal x))) f

-- `if self._failure is not None: raise self._failure`
abbrev pub raises_or : Texts → Option Exc → Flow → Flow → Flow
raises_or t none f next = next
raises_or t (some x) f next = fail_with t x f

-- What _crawl returns behind the loop.
abbrev pub closing : Option Stop → Ended
closing (some stopped) = outcome Outcome.cancelled none
closing (some storage_limit) = outcome Outcome.completed (some storage_note)
closing none = outcome Outcome.completed none

abbrev pub is_empty : List Task → Bool
is_empty [] = true
is_empty (t ∷ tasks) = false

-- The second half of a turn of the loop. Where no task is left, `_failure` was looked at in this
-- turn's first half or in this one.
unfoldable pub end_turn : Texts → CrawlInput → Bool → Flow → Flow
unfolding run_full fail_with
end_turn t i suggested f =
    if not (is_empty f.tasks)
    then record f { main = waiting f.finished }
    else if not (is_stopped f.stop) && run_full i suggested f
    then ends Result.continued_as_new f
    else raises_or t f.failure f (calls (Call.finish (closing f.stop)) f)

unfoldable pub turn : Texts → CrawlInput → Bool → Flow → Flow
unfolding run_full fail_with end_turn
turn t i suggested f =
    if f.cancel_requested
    then fail_with t cancelled_error f
    else let free = i.max_in_flight - length f.tasks in
      raises_or t f.failure f (
        if not (is_stopped f.stop) && not (run_full i suggested f) && ltb 0 free
        then calls (Call.claim (record { limit = free; in_flight = in_flight f.tasks })) f
        else end_turn t i suggested f)

-- Pages that are not in flight get a task.
unfoldable pub begin_pages : List CrawlPage → List Task → List Task
begin_pages [] tasks = tasks
begin_pages (p ∷ pages) tasks = begin_pages pages (
    if contains p.id (in_flight tasks)
    then tasks
    else tasks ++ record { page = p; stage = host_slot; answer = none } ∷ [])

abbrev pub stop_after : Claim → Option Stop → Option Stop
stop_after c stop =
    if not (is_at_running c.state)
    then some stopped
    else if c.storage_full
    then some storage_limit
    else stop

unfoldable pub on_claim : Texts → CrawlInput → Bool → Claim → Flow → Flow
unfolding fail_with begin_pages end_turn
on_claim t i suggested c f =
    if f.cancel_requested
    then fail_with t cancelled_error f
    else end_turn t i suggested
        (record f { stop = stop_after c f.stop; tasks = begin_pages c.pages f.tasks })

abbrev pub is_nil : List DropKey → Bool
is_nil [] = true
is_nil (k ∷ ks) = false

unfoldable pub on_seed : Texts → CrawlInput → Bool → CrawlState → ℕ → List DropKey → Flow → Flow
unfolding turn
on_seed t i suggested s n dropped f =
    if (n == 0) && not (is_nil dropped)
    then calls
        (Call.finish
          (outcome Outcome.failed (some ("the seed URL was refused: " <> t.reasons dropped))))
        (stop_unless s f)
    else turn t i suggested (stop_unless s f)

abbrev or_text : Option String → String → String
or_text none s = s
or_text (some e) s = e

-- run, behind finish_crawl.
unfoldable pub on_finish : Ended → CrawlState → Flow → Flow
on_finish e (at CrawlStatus.cancelled) f =
    ends
      (if f.cancel_requested then Result.cancelled else Result.returned (at CrawlStatus.cancelled))
      f
on_finish e (at CrawlStatus.failed) f = ends (Result.failed (or_text e.error "the crawl failed")) f
on_finish e s f = ends (Result.returned s) f

-- An answer reaches the main loop.
unfoldable pub on_answer : Texts → CrawlInput → Bool → Call → MainAnswer → Flow → Flow
unfolding fail_with on_claim on_seed on_finish
on_answer t i suggested (Call.finish e) (threw x) f = ends (Result.escaped x) f
on_answer t i suggested call (threw x) f = fail_with t x f
on_answer t i suggested Call.start (status s) f =
    if is_at_running s
    then calls Call.admit_seed f
    else calls (Call.finish (outcome Outcome.cancelled none)) f
on_answer t i suggested Call.admit_seed (seeded s n dropped) f = on_seed t i suggested s n dropped f
on_answer t i suggested (Call.claim c) (claimed claim) f = on_claim t i suggested claim f
on_answer t i suggested (Call.finish e) (status s) f = on_finish e s f
on_answer t i suggested call other f = f

-- `suggested` holds for one workflow task.
unfoldable pub advance : Texts → CrawlInput → Bool → Flow → Flow
unfolding turn on_answer
advance t i suggested f = elim f.main [
  | calling call none ↦ f
  | calling call (some answer) ↦ on_answer t i suggested call answer f
  | waiting done ↦ if ltb done f.finished then turn t i suggested f else f
  | draining e ↦ if is_empty f.tasks then calls (Call.finish e) f else f
  | ended r ↦ f
]

-- _db, whose call has been answered when the cancel arrives: `if task.done(): raise`. Behind
-- finish_crawl nothing catches it.
unfoldable pub cancel_answered : Texts → Call → MainAnswer → Flow → Flow
unfolding fail_with
cancel_answered t (Call.finish e) (status s) f = ends Result.cancelled f
cancel_answered t (Call.finish e) answer f = ends (Result.escaped cancelled_error) f
cancel_answered t call answer f = fail_with t cancelled_error f

-- A cancel of the workflow: noted in a call that is not answered yet, else raised by the await.
unfoldable pub cancel_arrives : Texts → Flow → Flow
unfolding fail_with cancel_answered
cancel_arrives t f = elim f.main [
  | calling call none ↦ record f { cancel_requested = true }
  | calling call (some answer) ↦ cancel_answered t call answer f
  | waiting done ↦ fail_with t cancelled_error f
  | draining e ↦ ends Result.abandoned (record f { cancel_requested = true })
  | ended r ↦ f
]
