-- ===== src/CrawlWorkflow/Tasks.antt =====
-- What a step of a page's task leaves alone.
use scrapeflow.Base.{
  arith, map, filter, length-filter, count-le-length, ◌≤◌, ℕ, suc, ◌≡◌, refl, sym, ap, ◌∙◌, Bool,
  Option, none, some, List, [], ◌∷◌, if_ind, Option-cases, inl, inr, not, ◌&&◌, length,
}
use scrapeflow.Crawl.{State}
use scrapeflow.Crawl.Lane.{commits}
use scrapeflow.CrawlWorkflow.{CrawlInput, Answer, Task, Flow, is_at_running, is_stopped}
use scrapeflow.CrawlWorkflow.Pages.{Next, await, over, fails, resume, hears, note_record}
use scrapeflow.CrawlWorkflow.Steps.{
  is_task, put_task, keep_lost, World, commit_task, answer_task, advance_task, goes_on, run_stage,
  on_task, find_task, is_from_outside, with_answer,
}
use scrapeflow.Base.{if◌then◌else◌}
use scrapeflow.CrawlWorkflow.{Stop, stopped, storage_limit}
use scrapeflow.CrawlWorkflow.Refines.{Reaches, Reaches-trans, StageReaches, run_stage-Reaches}

-- The main loop where it was, and no more tasks.
pub record Passes (f g : Flow) : Type 0 where
  pub state : Reaches f.state g.state
  pub main : g.main ≡ f.main
  pub fewer : length g.tasks ≤ length f.tasks

passes :
    (f g : Flow)
    → g.state ≡ f.state
    → g.main ≡ f.main
    → length g.tasks ≤ length f.tasks
    → Passes f g
unfolding commits
passes f g e m h = record { state = ([], sym e); main = m; fewer = h }

same : (f : Flow) → Passes f f
same f = passes f f refl refl (omega arith)

Passes-trans : (f g h : Flow) → Passes f g → Passes g h → Passes f h
Passes-trans f g h a b = record {
  state = Reaches-trans f.state g.state h.state a.state b.state;
  main = b.main ∙ a.main;
  fewer = omega (arith, a.fewer, b.fewer);
}

length-map : {A B : Type 0} (f : A → B) (xs : List A) → length (map f xs) ≡ length xs
length-map f [] = refl
length-map f (x ∷ xs) = ap suc (length-map f xs)

length-put_task : (t : Task) (tasks : List Task) → length (put_task t tasks) ≤ length tasks
length-put_task t tasks =
    omega (arith, length-map (λ u. if is_task t.page.id u then t else u) tasks)

fewer_left : {A : Type 0} (p : A → Bool) (xs : List A) → length (filter p xs) ≤ length xs
fewer_left p xs = omega (arith, length-filter p xs, count-le-length p xs)

goes_on-Passes : (t : Task) (f : Flow) (n : Next) → Passes f (goes_on t f n)
unfolding goes_on
goes_on-Passes t f (await stage) =
    passes f _ refl refl (length-put_task (record t { stage = stage; answer = none }) f.tasks)
goes_on-Passes t f over = passes f _ refl refl (fewer_left (λ u. not (is_task t.page.id u)) f.tasks)
goes_on-Passes t f (fails x) =
    passes f _ refl refl (fewer_left (λ u. not (is_task t.page.id u)) f.tasks)

stopping : (f : Flow) (x : Option Stop) → Passes f (record f { stop = x })
stopping f x = passes f _ refl refl (omega arith)

hears-Passes : (a : Answer) (f : Flow) → Passes f (hears a f)
unfolding hears note_record
hears-Passes (Answer.recorded s full) f =
    if_ind (Passes f) (not (is_at_running s)) _ _ (stopping f (some stopped)) (
      if_ind (Passes f) (full && not (is_stopped f.stop)) _ _ (stopping f (some storage_limit))
        (same f))
hears-Passes (Answer.admitted s) f =
    if_ind (Passes f) (is_at_running s) _ _ (same f) (stopping f (some stopped))
hears-Passes a f = same f

pub commit_task-Passes :
    (w : World) (now : ℕ) (lost : Bool) (t : Task) (f : Flow)
    → Passes f (commit_task w now lost t f)
unfolding commit_task
commit_task-Passes w now lost t f = elim (Option-cases t.answer) [
  | inr (a, e) ↦ rw e (same f)
  | inl e ↦ rw e (
      ran (run_stage w now t.page t.stage f.state) (run_stage-Reaches w now t.page t.stage f.state))
]
  where
    ran :
        (o : Option (State × Answer))
        → StageReaches f.state o
        → Passes f (elim o [
          | none ↦ f
          | some done ↦ with_answer lost done.1 t (record f { state = done.0 })
        ])
    ran none r = same f
    ran (some (s, a)) r = record {
      state = r;
      main = refl;
      fewer = length-put_task (record t { answer = keep_lost lost a }) f.tasks;
    }

pub answer_task-Passes : (a : Answer) (t : Task) (f : Flow) → Passes f (answer_task a t f)
unfolding answer_task
answer_task-Passes a t f = elim (Option-cases t.answer) [
  | inr (b, e) ↦ rw e (same f)
  | inl e ↦ rw e (
      if_ind (Passes f) (is_from_outside a) _ _
        (passes f _ refl refl (length-put_task (record t { answer = some a }) f.tasks)) (same f))
]

pub advance_task-Passes : (i : CrawlInput) (t : Task) (f : Flow) → Passes f (advance_task i t f)
unfolding advance_task
advance_task-Passes i t f = elim (Option-cases t.answer) [
  | inl e ↦ rw e (same f)
  | inr (a, e) ↦ rw e (
      Passes-trans f (hears a f) _ (hears-Passes a f)
        (goes_on-Passes t (hears a f) (resume i (hears a f) t.page t.stage a)))
]

pub on_task-Passes :
    (page : ℕ) (act : Task → Flow → Flow) (f : Flow)
    → ((t : Task) → Passes f (act t f))
    → Passes f (on_task page act f)
on_task-Passes page act f k = ran (find_task page f.tasks)
  where
    ran : (o : Option Task) → Passes f (elim o [ none ↦ f | some t ↦ act t f ])
    ran none = same f
    ran (some t) = k t
