-- ===== src/PipelineWorkflow/Refines.antt =====
-- The workflow writes the run through the transactions of PipelineMirror only.
use scrapeflow.Base.{
  ℕ, Bool, true, not, if◌then◌else◌, leb, if_ind, String, Option, none, some, List, [], ◌∷◌,
}
use scrapeflow.Catalog.{
  Config, scrape_config, clean_config, llm_extract_config, validate_config, webhook_config, timing,
}
use scrapeflow.PipelineMirror.{record_storage, StoredObject}
use scrapeflow.PipelineMirror.Mirrors.{
  State, Answer, MirrorBlockInput, mirror_block_status, mirror_run_status, Outcome,
}
use scrapeflow.PipelineMirror.Reaches.{
  Reaches, Reaches-refl, Reaches-trans, Reaches-mirror_block, Reaches-mirror_run, Reaches-charge,
}
use scrapeflow.Temporal.Commits.{Reaches-commits}
use scrapeflow.Temporal.{
  commits, Exc, Called, got, threw, DbCall, Ending, answers, timed_out, timed_out_after, db,
}
use scrapeflow.WebhookBlock.Attempts.{attempts_from-Reaches}
use scrapeflow.PipelineWorkflow.{cancel}
use scrapeflow.PipelineWorkflow.Perform.{
  activity, execute, scrape_in_host_slot, perform, charge_objects, attempt_block, webhook_input,
}
use scrapeflow.PipelineWorkflow.Calls.{
  RunBlock, PipelineRunInput, Waiting, quiet, noted, at_end, Mirroring, Env, Flow, Result, returned,
  escaped, finish, call_db, mirror_block, mirror_run,
}

-- What this part of the workflow does to the tables is a sequence of transactions.
abbrev pub To : {A : Type 0} → Bool → Flow → Flow × A → Type 0
To ends f o = Reaches ends f.state o.0.state

pub finish-To :
    {ends : Bool} {A : Type 0} (f : Flow) (w : Waiting) (o : Flow × Called A)
    → To ends f o
    → To ends f (finish w o)
unfolding finish
finish-To f quiet o r = r
finish-To f noted o r = r
finish-To f at_end o r = r

module _ {ends : Bool} {A : Type 0} (activity : State → State × Answer A)
    (reaches : (s : State) → Reaches ends s (activity s).0) where
  db_ended :
      (c : DbCall) (ending : Ending) (s : State)
      → Reaches ends s (db activity (record c { ending = ending }) s).0
  unfolding db
  db_ended c answers s =
      Reaches-trans s (commits c.meanwhile s) _ (Reaches-commits s c.meanwhile)
        (reaches (commits c.meanwhile s))
  db_ended c timed_out s = Reaches-commits s c.meanwhile
  db_ended c timed_out_after s =
      Reaches-trans s (commits c.meanwhile s) _ (Reaches-commits s c.meanwhile)
        (reaches (commits c.meanwhile s))

  pub call_db-To : (m : Mirroring) (f : Flow) → To ends f (call_db activity m f)
  unfolding call_db
  call_db-To m f =
      let (s, c) = db activity m.call f.state in
      finish-To f m.waiting (record f { state = s }, c) (db_ended m.call m.call.ending f.state)

pub mirror_block-To :
    {ends : Bool} (i : MirrorBlockInput) (m : Mirroring) (f : Flow) → To ends f (mirror_block i m f)
unfolding mirror_block
mirror_block-To i m f =
    call_db-To (mirror_block_status i m.call.now) (λ s. Reaches-mirror_block s i m.call.now) m f

pub mirror_run-To :
    (o : Outcome) (path : Option ℕ) (error : Option String) (m : Mirroring) (f : Flow)
    → To true f (mirror_run o path error m f)
unfolding mirror_run
mirror_run-To o path error m f =
    call_db-To
      (mirror_run_status (record { status = o; result_path = path; error = error }) m.call.now)
      (λ s.
        Reaches-mirror_run s (record { status = o; result_path = path; error = error }) m.call.now)
      m f

-- `next` continues after a call that got an answer; an exception ends it where it is.
pub then_To :
    {ends : Bool} {A B : Type 0} (f : Flow) (o : Flow × Called A) (threw_to : Flow → Exc → Flow × B)
    (next : Flow → A → Flow × B)
    → ((g : Flow) (x : Exc) → To ends g (threw_to g x))
    → ((g : Flow) (a : A) → To ends g (next g a))
    → To ends f o
    → To {A = B} ends f (elim o.1 [ threw x ↦ threw_to o.0 x | got a ↦ next o.0 a ])
then_To f (g, threw x) t n ht hn r = Reaches-trans f.state g.state _ r (ht g x)
then_To f (g, got a) t n ht hn r = Reaches-trans f.state g.state _ r (hn g a)

module _ {ends : Bool} (e : Env) (i : PipelineRunInput) where
  activity_Reaches :
      (b : RunBlock) (c : Config) (input : Option ℕ) (s : State)
      → Reaches ends s (activity e i (record b { config = c }) input s).0
  unfolding activity
  activity_Reaches b (scrape_config c) input s = Reaches-refl s
  activity_Reaches b (llm_extract_config c) none s = Reaches-refl s
  activity_Reaches b (llm_extract_config c) (some path) s = Reaches-refl s
  activity_Reaches b clean_config none s = Reaches-refl s
  activity_Reaches b clean_config (some path) s = Reaches-refl s
  activity_Reaches b (validate_config rules) none s = Reaches-refl s
  activity_Reaches b (validate_config rules) (some path) s = Reaches-refl s
  activity_Reaches b (webhook_config c) none s = Reaches-refl s
  activity_Reaches b (webhook_config c) (some path) s =
      attempts_from-Reaches e.str (webhook_input e i b.id path (timing (webhook_config c))) 1
        (e.at b.id).attempts s

  execute-To : (b : RunBlock) (input : Option ℕ) (f : Flow) → To ends f (execute e i b input f)
  unfolding execute
  execute-To b input f =
      let env = e.at b.id in
      let s' = commits env.meanwhile f.state in
      let before = Reaches-commits f.state env.meanwhile in
      if_ind (To ends f) (leb e.deadline env.now) _ _ before (
        if_ind (To ends f) (not (i.has_artifact b.id)) _ _ before
          (Reaches-trans f.state s' _ before (activity_Reaches b b.config input s')))

  scrape_in_host_slot-To :
      (b : RunBlock) (input : Option ℕ) (f : Flow) → To ends f (scrape_in_host_slot e i b input f)
  unfolding scrape_in_host_slot
  scrape_in_host_slot-To b input f =
      let env = e.at b.id in
      if_ind (To ends f) (not (i.has_url b.id)) _ _ (Reaches-refl f.state) (
        if_ind (To ends f) env.host_cancelled _ _ (Reaches-refl f.state)
          (finish-To f env.releasing _ (finish-To f env.waiting _ (execute-To b input f))))

  perform-To :
      (b : RunBlock) (c : Config) (input : Option ℕ) (f : Flow)
      → To ends f (perform e i (record b { config = c }) input f)
  unfolding perform
  perform-To b (scrape_config c) input f =
      let b' : RunBlock = record b { config = scrape_config c } in
      if_ind (To ends f) (e.at b.id).host_slot _ _ (scrape_in_host_slot-To b' input f)
        (finish-To f (e.at b.id).waiting _ (execute-To b' input f))
  perform-To b (llm_extract_config c) input f =
      finish-To f (e.at b.id).waiting _
        (execute-To (record b { config = llm_extract_config c }) input f)
  perform-To b clean_config input f =
      finish-To f (e.at b.id).waiting _ (execute-To (record b { config = clean_config }) input f)
  perform-To b (validate_config rules) input f =
      finish-To f (e.at b.id).waiting _
        (execute-To (record b { config = validate_config rules }) input f)
  perform-To b (webhook_config c) input f =
      finish-To f (e.at b.id).waiting _
        (execute-To (record b { config = webhook_config c }) input f)

  pub charge_objects-To :
      (b : RunBlock) (f : Flow) (os : List StoredObject) → To ends f (charge_objects e i b f os)
  unfolding charge_objects
  charge_objects-To b f [] = Reaches-refl f.state
  charge_objects-To b f (o ∷ os) =
      call_db-To (record_storage e.settings b.id (o ∷ os))
        (λ s. Reaches-charge s e.settings b.id (o ∷ os)) (e.at b.id).storage f

  pub attempt_block-To :
      (b : RunBlock) (input : Option ℕ) (f : Flow) → To ends f (attempt_block e i b input f)
  unfolding attempt_block
  attempt_block-To b input f =
      then_To f (perform e i b input f) (λ g x. (g, threw x)) (λ g os. charge_objects e i b g os)
        (λ g x. Reaches-refl g.state) (λ g os. charge_objects-To b g os)
        (perform-To b b.config input f)

module _ (e : Env) (i : PipelineRunInput) where
  pub cancel-To : (f : Flow) → To true f (cancel e i f)
  unfolding cancel
  cancel-To f =
      then_To f (mirror_run Outcome.cancelled none none e.ending f) (λ g x. (g, escaped x))
        (λ g status. (g, if g.cancel_requested then Result.cancelled else returned none))
        (λ g x. Reaches-refl g.state) (λ g status. Reaches-refl g.state)
        (mirror_run-To Outcome.cancelled none none e.ending f)
