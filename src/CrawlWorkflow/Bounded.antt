-- ===== src/CrawlWorkflow/Bounded.antt =====
-- How many pages a crawl has in flight.
use scrapeflow.Base.{ℕ, arith, Bool, true, false, none, some, List, [], ◌∷◌, length, if_ind}
use scrapeflow.Temporal.{Exc, cancelled_error}
use scrapeflow.Crawl.{State}
use scrapeflow.CrawlWorkflow.{
  MainAnswer, status, CrawlInput, Call, Main, calling, waiting, draining, ended, Flow, Texts,
}
use scrapeflow.CrawlWorkflow.Claims.{claim_limit}
use scrapeflow.CrawlWorkflow.Tasks.{
  Passes, on_task-Passes, commit_task-Passes, answer_task-Passes, advance_task-Passes,
}
use scrapeflow.CrawlWorkflow.Loop.{cancel_arrives, cancel_answered}
use scrapeflow.CrawlWorkflow.Steps.{
  World, run_call, main_commit, main_fail, main_advance, page_commit, page_answer, page_advance,
  cancel, api_cancel, main_commits, main_fails, commit_task, answer_task, advance_task, keep_lost,
  Step, step, steps, begin, initial,
}
use scrapeflow.CrawlWorkflow.Fits.{
  MainFits, IsBounded, fail_with-IsBounded, fewer-IsBounded, turn-IsBounded, advance-IsBounded,
}

module _ (i : CrawlInput) (w : World) (t : Texts) where
  passed-IsBounded : (f g : Flow) → Passes f g → IsBounded i f → IsBounded i g
  passed-IsBounded f g k = fewer-IsBounded i f g k.fewer k.main

  run_call-AnswerFits :
      (ids : ℕ → ℕ) (now : ℕ) (lost : Bool) (n : ℕ) (c : Call) (s : State)
      → MainFits i n (calling c none)
      → MainFits i n (calling c (keep_lost lost (run_call w i ids now c s).1))
  unfolding run_call
  run_call-AnswerFits ids now lost n Call.start s h = tt
  run_call-AnswerFits ids now lost n Call.admit_seed s h = tt
  run_call-AnswerFits ids now false n (Call.claim c) s h = (h.0, claim_limit w.settings ids c now s)
  run_call-AnswerFits ids now true n (Call.claim c) s h = h
  run_call-AnswerFits ids now lost n (Call.finish e) s h = tt

  main_commits-IsBounded :
      (ids : ℕ → ℕ) (now : ℕ) (lost : Bool) (f : Flow)
      → IsBounded i f
      → IsBounded i (main_commits w i ids now lost f)
  unfolding main_commits
  main_commits-IsBounded ids now lost f b = go f.main b.main
    where
      go :
          (m : Main)
          → MainFits i (length f.tasks) m
          → IsBounded i (main_commits w i ids now lost (record f { main = m }))
      go (calling c none) n = record {
        tasks = b.tasks;
        main = run_call-AnswerFits ids now lost (length f.tasks) c f.state n;
      }
      go (calling c (some a)) n = record { tasks = b.tasks; main = n }
      go (waiting d) n = record { tasks = b.tasks; main = tt }
      go (draining e) n = record { tasks = b.tasks; main = tt }
      go (ended r) n = record { tasks = b.tasks; main = tt }

  main_fails-IsBounded : (x : Exc) (f : Flow) → IsBounded i f → IsBounded i (main_fails x f)
  unfolding main_fails
  main_fails-IsBounded x f b = go f.main b.main
    where
      go :
          (m : Main)
          → MainFits i (length f.tasks) m
          → IsBounded i (main_fails x (record f { main = m }))
      go (calling Call.start none) n = record { tasks = b.tasks; main = tt }
      go (calling Call.admit_seed none) n = record { tasks = b.tasks; main = tt }
      go (calling (Call.claim c) none) n = record { tasks = b.tasks; main = (n.0, tt) }
      go (calling (Call.finish e) none) n = record { tasks = b.tasks; main = tt }
      go (calling c (some a)) n = record { tasks = b.tasks; main = n }
      go (waiting d) n = record { tasks = b.tasks; main = tt }
      go (draining e) n = record { tasks = b.tasks; main = tt }
      go (ended r) n = record { tasks = b.tasks; main = tt }

  cancel_arrives-IsBounded : (f : Flow) → IsBounded i f → IsBounded i (cancel_arrives t f)
  unfolding cancel_arrives cancel_answered
  cancel_arrives-IsBounded f b = go f.main b.main
    where
      cancel_answered-IsBounded :
          (c : Call) (a : MainAnswer)
          → MainFits i (length f.tasks) (calling c (some a))
          → IsBounded i (cancel_answered t c a (record f { main = calling c (some a) }))
      cancel_answered-IsBounded (Call.finish e) (status s) n = record { tasks = b.tasks; main = tt }
      cancel_answered-IsBounded (Call.finish e) a n = record { tasks = b.tasks; main = tt }
      cancel_answered-IsBounded c a n =
          fail_with-IsBounded i t cancelled_error (record f { main = calling c (some a) }) b.tasks

      go :
          (m : Main)
          → MainFits i (length f.tasks) m
          → IsBounded i (cancel_arrives t (record f { main = m }))
      go (calling c none) n = record { tasks = b.tasks; main = n }
      go (calling c (some a)) n = cancel_answered-IsBounded c a n
      go (waiting d) n =
          fail_with-IsBounded i t cancelled_error (record f { main = waiting d }) b.tasks
      go (draining e) n = record { tasks = b.tasks; main = tt }
      go (ended r) n = record { tasks = b.tasks; main = tt }

  step-IsBounded : (f : Flow) (s : Step) → IsBounded i f → IsBounded i (step w t i f s)
  unfolding step
  step-IsBounded f (main_commit ids now lost) b = main_commits-IsBounded ids now lost f b
  step-IsBounded f (main_fail x) b = main_fails-IsBounded x f b
  step-IsBounded f (main_advance suggested) b = advance-IsBounded i t suggested f b
  step-IsBounded f (page_commit page now lost) b =
      passed-IsBounded f _
        (on_task-Passes page (commit_task w now lost) f (λ u. commit_task-Passes w now lost u f)) b
  step-IsBounded f (page_answer page a) b =
      passed-IsBounded f _ (on_task-Passes page (answer_task a) f (λ u. answer_task-Passes a u f)) b
  step-IsBounded f (page_advance page) b =
      passed-IsBounded f _ (on_task-Passes page (advance_task i) f (λ u. advance_task-Passes i u f))
        b
  step-IsBounded f cancel b = cancel_arrives-IsBounded f b
  step-IsBounded f api_cancel b = record { tasks = b.tasks; main = b.main }

  steps-IsBounded : (f : Flow) (ss : List Step) → IsBounded i f → IsBounded i (steps w t i f ss)
  unfolding steps
  steps-IsBounded f [] b = b
  steps-IsBounded f (s ∷ ss) b = steps-IsBounded (step w t i f s) ss (step-IsBounded f s b)

  begin-IsBounded : (suggested : Bool) (s : State) → IsBounded i (begin t i suggested s)
  unfolding begin
  begin-IsBounded suggested s =
      if_ind (IsBounded i) i.continued _ _ (turn-IsBounded i t suggested (initial s) (omega arith))
        (record { tasks = omega arith; main = tt })

  -- However the answers, the failures, the cancels and the pages interleave, the workflow has at most
  -- max_in_flight pages in flight, and a claim asks only for the pages that fit in beside them.
  pub steps-max_in_flight :
      (suggested : Bool) (s : State) (ss : List Step)
      → IsBounded i (steps w t i (begin t i suggested s) ss)
  steps-max_in_flight suggested s ss =
      steps-IsBounded (begin t i suggested s) ss (begin-IsBounded suggested s)
