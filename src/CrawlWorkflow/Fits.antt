-- ===== src/CrawlWorkflow/Fits.antt =====
-- The pages in flight, and what is asked for beside them, through the loop's own steps.
use scrapeflow.Base.{
  ℕ, suc, ◌+◌, ◌-◌, ◌≤◌, ◌≡◌, refl, arith, Bool, not, ◌&&◌, Option, none, some, List, [], ◌∷◌, ◌++◌,
  ltb, ◌==◌, length, contains, if_ind, length-append,
}
use scrapeflow.Temporal.{
  Exc, cancelled_error, run_cancelled, other_error, application_error, activity_error,
}
use scrapeflow.Crawl.{CrawlPage, CrawlStatus, CrawlState, gone, at, DropKey}
use scrapeflow.Crawl.Frontier.{Claim, ClaimInput}
use scrapeflow.CrawlWorkflow.{
  host_slot, CrawlInput, Task, Ended, Call, MainAnswer, status, seeded, claimed, threw, Main,
  calling, waiting, draining, ended, Flow, Texts, in_flight, is_at_running, is_stopped, run_full,
  stop_unless,
}
use scrapeflow.CrawlWorkflow.Loop.{
  stop_after, is_empty, is_nil, raises_or, begin_pages, fail_with, end_turn, turn, on_claim,
  on_seed, on_finish, on_answer, advance,
}

module _ (i : CrawlInput) where
  abbrev pub AnswerFits : ClaimInput → Option MainAnswer → Type 0
  AnswerFits c (some (claimed k)) = length k.pages ≤ c.limit
  AnswerFits c _ = Unit

  -- What is asked for fits in beside the pages in flight.
  abbrev pub MainFits : ℕ → Main → Type 0
  MainFits n (calling (Call.claim c) answer) = (c.limit + n ≤ i.max_in_flight) × AnswerFits c answer
  MainFits n _ = Unit

  pub record IsBounded (f : Flow) : Type 0 where
    pub tasks : length f.tasks ≤ i.max_in_flight
    pub main : MainFits (length f.tasks) f.main

  pub fail_with-IsBounded :
      (t : Texts) (x : Exc) (f : Flow)
      → length f.tasks ≤ i.max_in_flight
      → IsBounded (fail_with t x f)
  unfolding fail_with
  fail_with-IsBounded t cancelled_error f h = (record { tasks = h; main = tt })
  fail_with-IsBounded t run_cancelled f h = (record { tasks = h; main = tt })
  fail_with-IsBounded t (activity_error m r) f h = (record { tasks = h; main = tt })
  fail_with-IsBounded t (application_error m) f h = (record { tasks = h; main = tt })
  fail_with-IsBounded t (other_error m) f h = (record { tasks = h; main = tt })

  raises_or-IsBounded :
      (t : Texts) (x : Option Exc) (f next : Flow)
      → length f.tasks ≤ i.max_in_flight
      → IsBounded next
      → IsBounded (raises_or t x f next)
  raises_or-IsBounded t none f next h n = n
  raises_or-IsBounded t (some x) f next h n = fail_with-IsBounded t x f h

  length-begin_pages :
      (pages : List CrawlPage) (tasks : List Task)
      → length (begin_pages pages tasks) ≤ length pages + length tasks
  unfolding begin_pages
  length-begin_pages [] tasks = omega arith
  length-begin_pages (p ∷ pages) tasks =
      if_ind (λ ts. length (begin_pages pages ts) ≤ suc (length pages) + length tasks)
        (contains p.id (in_flight tasks)) _ _ (omega (arith, length-begin_pages pages tasks))
        (omega (
          arith,
          length-begin_pages pages
              (tasks ++ record { page = p; stage = host_slot; answer = none } ∷ []),
          length-append tasks (record { page = p; stage = host_slot; answer = none } ∷ []),
        ))

  module _ (t : Texts) (suggested : Bool) where
    end_turn-IsBounded :
        (f : Flow) → length f.tasks ≤ i.max_in_flight → IsBounded (end_turn t i suggested f)
    unfolding end_turn
    end_turn-IsBounded f h =
        if_ind IsBounded (not (is_empty f.tasks)) _ _ (record { tasks = h; main = tt })
          (if_ind IsBounded (not (is_stopped f.stop) && run_full i suggested f) _ _
            (record { tasks = h; main = tt })
            (raises_or-IsBounded t f.failure f _ h (record { tasks = h; main = tt })))

    pub turn-IsBounded :
        (f : Flow) → length f.tasks ≤ i.max_in_flight → IsBounded (turn t i suggested f)
    unfolding turn
    turn-IsBounded f h =
        if_ind IsBounded f.cancel_requested _ _ (fail_with-IsBounded t cancelled_error f h) (
          raises_or-IsBounded t f.failure f _ h (
            if_ind IsBounded
              (not (is_stopped f.stop)
                && not (run_full i suggested f)
                && ltb 0 (i.max_in_flight - length f.tasks))
              _ _ (record { tasks = h; main = (omega (arith, h), tt) }) (end_turn-IsBounded f h)))

    on_claim-IsBounded :
        (k : Claim) (f : Flow)
        → length k.pages + length f.tasks ≤ i.max_in_flight
        → IsBounded (on_claim t i suggested k f)
    unfolding on_claim
    on_claim-IsBounded k f h =
        if_ind IsBounded f.cancel_requested _ _
          (fail_with-IsBounded t cancelled_error f (omega (arith, h)))
          (end_turn-IsBounded
            (record f { stop = stop_after k f.stop; tasks = begin_pages k.pages f.tasks })
            (omega (arith, h, length-begin_pages k.pages f.tasks)))

    stop_unless_tasks : (s : CrawlState) (f : Flow) → (stop_unless s f).tasks ≡ f.tasks
    stop_unless_tasks s f = if_ind (λ (g : Flow). g.tasks ≡ f.tasks) (is_at_running s) _ _ refl refl

    on_seed-IsBounded :
        (s : CrawlState) (n : ℕ) (d : List DropKey) (f : Flow)
        → length f.tasks ≤ i.max_in_flight
        → IsBounded (on_seed t i suggested s n d f)
    unfolding on_seed
    on_seed-IsBounded s n d f h =
        let h' : length (stop_unless s f).tasks ≤ i.max_in_flight = rw (stop_unless_tasks s f) h in
        if_ind IsBounded ((n == 0) && not (is_nil d)) _ _ (record { tasks = h'; main = tt })
          (turn-IsBounded (stop_unless s f) h')

    on_finish-IsBounded :
        (e : Ended) (s : CrawlState) (f : Flow)
        → length f.tasks ≤ i.max_in_flight
        → IsBounded (on_finish e s f)
    unfolding on_finish
    on_finish-IsBounded e gone f h = (record { tasks = h; main = tt })
    on_finish-IsBounded e (at CrawlStatus.queued) f h = (record { tasks = h; main = tt })
    on_finish-IsBounded e (at CrawlStatus.running) f h = (record { tasks = h; main = tt })
    on_finish-IsBounded e (at CrawlStatus.completed) f h = (record { tasks = h; main = tt })
    on_finish-IsBounded e (at CrawlStatus.failed) f h = (record { tasks = h; main = tt })
    on_finish-IsBounded e (at CrawlStatus.cancelled) f h = (record { tasks = h; main = tt })

    on_answer-IsBounded :
        (c : Call) (a : MainAnswer) (f : Flow)
        → length f.tasks ≤ i.max_in_flight
        → MainFits (length f.tasks) (calling c (some a))
        → MainFits (length f.tasks) f.main
        → IsBounded (on_answer t i suggested c a f)
    unfolding on_answer
    on_answer-IsBounded Call.start (status s) f h m n =
        if_ind IsBounded (is_at_running s) _ _ (record { tasks = h; main = tt })
          (record { tasks = h; main = tt })
    on_answer-IsBounded Call.start (threw x) f h m n = fail_with-IsBounded t x f h
    on_answer-IsBounded Call.admit_seed (seeded s k d) f h m n = on_seed-IsBounded s k d f h
    on_answer-IsBounded Call.admit_seed (threw x) f h m n = fail_with-IsBounded t x f h
    on_answer-IsBounded (Call.claim c) (claimed k) f h m n =
        on_claim-IsBounded k f (omega (arith, m.0, m.1))
    on_answer-IsBounded (Call.claim c) (threw x) f h m n = fail_with-IsBounded t x f h
    on_answer-IsBounded (Call.finish e) (status s) f h m n = on_finish-IsBounded e s f h
    on_answer-IsBounded (Call.finish e) (threw x) f h m n = record { tasks = h; main = tt }
    on_answer-IsBounded c a f h m n = record { tasks = h; main = n }

    pub advance-IsBounded : (f : Flow) → IsBounded f → IsBounded (advance t i suggested f)
    unfolding advance
    advance-IsBounded f b = go f.main b.main
      where
        go :
            (m : Main)
            → MainFits (length f.tasks) m
            → IsBounded (advance t i suggested (record f { main = m }))
        go (calling c none) n = record { tasks = b.tasks; main = n }
        go (calling c (some a)) n =
            on_answer-IsBounded c a (record f { main = calling c (some a) }) b.tasks n n
        go (waiting done) n =
            if_ind IsBounded (ltb done f.finished) _ _
              (turn-IsBounded (record f { main = waiting done }) b.tasks)
              (record { tasks = b.tasks; main = tt })
        go (draining e) n =
            if_ind IsBounded (is_empty f.tasks) _ _ (record { tasks = b.tasks; main = tt })
              (record { tasks = b.tasks; main = tt })
        go (ended r) n = record { tasks = b.tasks; main = tt }

  -- Fewer pages in flight fit too.
  MainFits-fewer : (m n : ℕ) (main : Main) → m ≤ n → MainFits n main → MainFits m main
  MainFits-fewer m n (calling Call.start a) h p = tt
  MainFits-fewer m n (calling Call.admit_seed a) h p = tt
  MainFits-fewer m n (calling (Call.claim c) a) h p = (omega (arith, h, p.0), p.1)
  MainFits-fewer m n (calling (Call.finish e) a) h p = tt
  MainFits-fewer m n (waiting d) h p = tt
  MainFits-fewer m n (draining e) h p = tt
  MainFits-fewer m n (ended r) h p = tt

  pub fewer-IsBounded :
      (f g : Flow) → length g.tasks ≤ length f.tasks → g.main ≡ f.main → IsBounded f → IsBounded g
  fewer-IsBounded f g h same b = record {
    tasks = omega (arith, h, b.tasks);
    main = rw same (MainFits-fewer (length g.tasks) (length f.tasks) f.main h b.main);
  }
