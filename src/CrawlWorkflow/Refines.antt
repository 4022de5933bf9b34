-- ===== src/CrawlWorkflow/Refines.antt =====
-- The workflow changes the tables only by the transactions of Crawl.Lane.
use scrapeflow.Base.{
  ℕ, suc, ◌≡◌, refl, ap, ◌∙◌, Bool, true, false, Option, none, some, List, [], ◌∷◌, ◌++◌, if_ind,
  ltb, not, ◌&&◌, length, ◌==◌, ◌-◌,
}
use scrapeflow.Temporal.{
  Exc, cancelled_error, run_cancelled, other_error, application_error, activity_error,
}
use scrapeflow.Crawl.{CrawlPage, CrawlState, State, DropKey}
use scrapeflow.Crawl.Gate.{link, sitemap, sitemap_file}
use scrapeflow.Crawl.Frontier.{Claim}
use scrapeflow.Crawl.Lane.{
  Transaction, start, admit, vet, claim, record_page, finish, commit, commits,
}
use scrapeflow.CrawlWorkflow.{
  CrawlInput, Stage, Answer, Call, status, Result, Main, calling, ended, Flow, Texts, is_at_running,
  is_stopped, run_full, stop_unless,
}
use scrapeflow.CrawlWorkflow.Loop.{
  stop_after, begin_pages, is_empty, is_nil, raises_or, fail_with, end_turn, turn, on_claim,
  on_seed,
}
use scrapeflow.CrawlWorkflow.Steps.{World, seed_batch, batch, run_call, run_stage}

-- By transactions of the crawl's activities and the API's cancel.
abbrev pub Reaches : State → State → Type 0
Reaches s s' = (ts : List Transaction) × (commits s ts ≡ s')

pub Reaches-refl : (s : State) → Reaches s s
unfolding commits
Reaches-refl s = ([], refl)

commits-append :
    (s : State) (ts us : List Transaction) → commits s (ts ++ us) ≡ commits (commits s ts) us
unfolding commits
commits-append s [] us = refl
commits-append s (t ∷ ts) us = commits-append (commit s t) ts us

pub Reaches-trans : (s t u : State) → Reaches s t → Reaches t u → Reaches s u
Reaches-trans s t u (ts, a) (us, b) =
    (ts ++ us, commits-append s ts us ∙ (ap (λ v. commits v us) a ∙ b))

pub run_call-Reaches :
    (w : World) (i : CrawlInput) (ids : ℕ → ℕ) (now : ℕ) (c : Call) (s : State)
    → Reaches s (run_call w i ids now c s).0
unfolding run_call commits commit
run_call-Reaches w i ids now Call.start s = (start ∷ [], refl)
run_call-Reaches w i ids now Call.admit_seed s = (admit w.library (seed_batch i) now ∷ [], refl)
run_call-Reaches w i ids now (Call.claim c) s = (claim w.settings ids c now ∷ [], refl)
run_call-Reaches w i ids now (Call.finish e) s = (finish e now ∷ [], refl)

abbrev pub StageReaches : State → Option (State × Answer) → Type 0
StageReaches s none = Unit
StageReaches s (some done) = Reaches s done.0

pub run_stage-Reaches :
    (w : World) (now : ℕ) (p : CrawlPage) (stage : Stage) (s : State)
    → StageReaches s (run_stage w now p stage s)
unfolding run_stage commits commit
run_stage-Reaches w now p Stage.host_slot s = tt
run_stage-Reaches w now p Stage.scrape s = tt
run_stage-Reaches w now p (Stage.record_page r path) s =
    (record_page w.settings w.minio r now ∷ [], refl)
run_stage-Reaches w now p (Stage.extract_links path) s = tt
run_stage-Reaches w now p (Stage.admit_links urls) s =
    (admit w.library (batch urls link (suc p.depth)) now ∷ [], refl)
run_stage-Reaches w now p Stage.discover s = tt
run_stage-Reaches w now p (Stage.vet_found urls) s =
    (vet w.library (batch urls sitemap_file 0) ∷ [], refl)
run_stage-Reaches w now p (Stage.fetch_sitemap file x) s = tt
run_stage-Reaches w now p (Stage.vet_files urls depth hops x) s =
    (vet w.library (batch urls sitemap_file 0) ∷ [], refl)
run_stage-Reaches w now p (Stage.admit_entries urls x) s =
    (admit w.library (batch urls sitemap 1) now ∷ [], refl)

-- finish_crawl has answered, or the workflow has ended with the crawl's status.
abbrev pub is_over : Main → Bool
is_over (calling (Call.finish e) (some (status s))) = true
is_over (ended (Result.returned s)) = true
is_over (ended Result.cancelled) = true
is_over (ended (Result.failed e)) = true
is_over m = false

-- The tables as they were, and the loop at another await.
pub record Turns (f g : Flow) : Type 0 where
  pub state : g.state ≡ f.state
  pub opens : is_over g.main ≡ false

module _ (t : Texts) where
  pub fail_with-Turns : (x : Exc) (f : Flow) → Turns f (fail_with t x f)
  unfolding fail_with
  fail_with-Turns cancelled_error f = record { state = refl; opens = refl }
  fail_with-Turns run_cancelled f = record { state = refl; opens = refl }
  fail_with-Turns (activity_error m r) f = record { state = refl; opens = refl }
  fail_with-Turns (application_error m) f = record { state = refl; opens = refl }
  fail_with-Turns (other_error m) f = record { state = refl; opens = refl }

  raises_or-Turns : (x : Option Exc) (f next : Flow) → Turns f next → Turns f (raises_or t x f next)
  raises_or-Turns none f next n = n
  raises_or-Turns (some x) f next n = fail_with-Turns x f

  module _ (i : CrawlInput) (suggested : Bool) where
    end_turn-Turns : (f : Flow) → Turns f (end_turn t i suggested f)
    unfolding end_turn
    end_turn-Turns f =
        if_ind (Turns f) (not (is_empty f.tasks)) _ _ (record { state = refl; opens = refl })
          (if_ind (Turns f) (not (is_stopped f.stop) && run_full i suggested f) _ _
            (record { state = refl; opens = refl })
            (raises_or-Turns f.failure f _ (record { state = refl; opens = refl })))

    pub turn-Turns : (f : Flow) → Turns f (turn t i suggested f)
    unfolding turn
    turn-Turns f = if_ind (Turns f) f.cancel_requested _ _ (fail_with-Turns cancelled_error f) (
        raises_or-Turns f.failure f _ (
          if_ind (Turns f)
            (not (is_stopped f.stop)
              && not (run_full i suggested f)
              && ltb 0 (i.max_in_flight - length f.tasks))
            _ _ (record { state = refl; opens = refl }) (end_turn-Turns f)))

    pub on_claim-Turns : (k : Claim) (f : Flow) → Turns f (on_claim t i suggested k f)
    unfolding on_claim
    on_claim-Turns k f =
        if_ind (Turns f) f.cancel_requested _ _ (fail_with-Turns cancelled_error f) (
          let n =
            end_turn-Turns
              (record f { stop = stop_after k f.stop; tasks = begin_pages k.pages f.tasks }) in
          record { state = n.state; opens = n.opens })

    stop_unless-state : (s : CrawlState) (f : Flow) → (stop_unless s f).state ≡ f.state
    stop_unless-state s f = if_ind (λ (g : Flow). g.state ≡ f.state) (is_at_running s) _ _ refl refl

    pub on_seed-Turns :
        (s : CrawlState) (n : ℕ) (d : List DropKey) (f : Flow)
        → Turns f (on_seed t i suggested s n d f)
    unfolding on_seed
    on_seed-Turns s n d f =
        if_ind (Turns f) ((n == 0) && not (is_nil d)) _ _
          (record { state = stop_unless-state s f; opens = refl })
          (let k = turn-Turns (stop_unless s f) in
            record { state = k.state ∙ stop_unless-state s f; opens = k.opens })
