-- ===== src/PipelineRoutes/Workflow.antt =====
-- The workflow that create_run starts, and what it was started with.
use scrapeflow.Base.{
  ℕ, suc, ap, ◌≡◌, sym, refl, true, not, ◌||◌, Option, none, some, List, [], ◌∷◌, any, all, All,
  arith, ◌==◌, count,
}
use scrapeflow.Catalog.{
  Config, scrape_config, clean_config, validate_config, webhook_config, llm_extract_config,
}
use scrapeflow.PipelineWorkflow.{run}
use scrapeflow.PipelineWorkflow.Calls.{RunBlock, PipelineRunInput}
use scrapeflow.PipelineWorkflow.Answers.{run-HasOutcome}
use scrapeflow.PipelineWorkflow.Ready.{IsAnswered, BlockAnswered, IsReady, HasOutcome}
use scrapeflow.PipelineRoutes.{StoredRun, Tables, state_of}
use scrapeflow.PipelineRoutes.CreateRun.{
  is_given, Response, started, stored_run, workflow_input, create_run, new_blocks, bound,
}
use scrapeflow.PipelineRoutes.CheckRun.{
  Inputs, PipelineRunCreate, Env, Startable, check_run, llm_key, has_name, names_of, value_of,
}
use scrapeflow.PipelineRoutes.Checks.{KeyIsGiven}
use scrapeflow.PipelineRoutes.ExternalUrls.{BoundIsExternal, UrlIsExternal, IfSome}
use scrapeflow.PipelineRoutes.Started.{IsStartable, check_run-IsStartable, start_ind}

module _ (e : Env) (t : Tables) (user pipeline : ℕ) (body : PipelineRunCreate) (r : StoredRun)
    (i : PipelineRunInput) where
  abbrev pub CameFrom : Startable → Type 0
  CameFrom s =
      IsStartable e t user pipeline body s
      × (r ≡ stored_run e user s)
      × (i ≡ workflow_input e body s r)

  started_same :
      (s : Startable)
      → IsStartable e t user pipeline body s
      → Response.started (stored_run e user s) (workflow_input e body s (stored_run e user s))
        ≡ started r i
      → (s : Startable) × CameFrom s
  started_same s h same =
      let row : stored_run e user s ≡ r = ground arith in
      let input : workflow_input e body s (stored_run e user s) ≡ i = ground arith in
      (s, (h, sym row, rw (sym row) (sym input)))

-- A run that create_run started passed the checks: the pipeline is the user's and not deleted, the
-- version parsed, the inputs are those declared, every URL it fetches or calls and every base URL of
-- its keys resolves to no loopback, private, link-local or reserved address (100.64.0.0/10 and
-- multicast pass), the keys are the user's, and the meters have room.
pub create_run-IsStartable :
    (e : Env) (t : Tables) (user pipeline : ℕ) (body : PipelineRunCreate) (r : StoredRun)
    (i : PipelineRunInput)
    → (create_run e t user pipeline body).1 ≡ started r i
    → (s : Startable) × CameFrom e t user pipeline body r i s
unfolding create_run
create_run-IsStartable e t user pipeline body r i =
    start_ind e t user body
      (λ o. o.1 ≡ started r i → (s : Startable) × CameFrom e t user pipeline body r i s)
      (check_run e t user pipeline body) e.start_workflow (λ x h same. cc) (λ s raised h k same. cc)
      (λ s h k same.
        started_same e t user pipeline body r i s (check_run-IsStartable e t user pipeline body s h)
          same)

new_blocks_rows :
    (id : ℕ) (ids : ℕ → ℕ) (n : ℕ) (bs : List RunBlock)
    → count (λ b. b.block_id == id) (new_blocks ids n bs) ≡ count (λ b. b.id == id) bs
new_blocks_rows id ids n [] = refl
new_blocks_rows id ids n (b ∷ bs) = ground (arith, new_blocks_rows id ids (suc n) bs)

-- The ids of the blocks are distinct.
abbrev pub HasDistinctIds : List RunBlock → Type 0
HasDistinctIds blocks = All (λ b. count (λ c. c.id == b.id) blocks ≡ 1) blocks

rows_ready :
    (ids : ℕ → ℕ) (all bs : List RunBlock)
    → All (λ b. count (λ c. c.id == b.id) all ≡ 1) bs
    → All (λ b. count (λ c. c.block_id == b.id) (new_blocks ids 0 all) ≡ 1) bs
rows_ready ids all [] h = tt
rows_ready ids all (b ∷ bs) h = (rw (new_blocks_rows b.id ids 0 all) h.0, rows_ready ids all bs h.1)

stored_run-IsReady :
    (e : Env) (t : Tables) (user : ℕ) (s : Startable)
    → HasDistinctIds s.parsed.blocks
    → IsReady s.parsed.blocks (state_of t (stored_run e user s))
unfolding stored_run
stored_run-IsReady e t user s h =
    ((_, refl, refl), rows_ready e.block_id s.parsed.blocks s.parsed.blocks h)

CameFrom-IsReady :
    (e : Env) (t : Tables) (user pipeline : ℕ) (body : PipelineRunCreate) (r : StoredRun)
    (i : PipelineRunInput) (s : Startable) (t' : Tables)
    → CameFrom e t user pipeline body r i s
    → HasDistinctIds i.blocks
    → IsReady i.blocks (state_of t' r)
unfolding workflow_input
CameFrom-IsReady e t user pipeline body r i s t' (startable, row, input) distinct =
    let same : i.blocks ≡ s.parsed.blocks = ap (λ j. j.blocks) input in
    let d : HasDistinctIds s.parsed.blocks = rw (sym same) distinct in
    rw (same, row) (stored_run-IsReady e t' user s d)

-- A workflow that create_run started, of blocks with distinct ids, ends with an outcome where every
-- mirror is answered and no cancel comes at the very end of one.
pub create_run-HasOutcome :
    (e : Env) (t : Tables) (user pipeline : ℕ) (body : PipelineRunCreate) (r : StoredRun)
    (i : PipelineRunInput) (w : scrapeflow.PipelineWorkflow.Calls.Env)
    → (create_run e t user pipeline body).1 ≡ started r i
    → HasDistinctIds i.blocks
    → All (BlockAnswered w) i.blocks
    → IsAnswered w.ending
    → HasOutcome (run w i (state_of (create_run e t user pipeline body).0 r))
create_run-HasOutcome e t user pipeline body r i w h distinct blocks ending =
    let (s, from) = create_run-IsStartable e t user pipeline body r i h in
    run-HasOutcome w i (state_of (create_run e t user pipeline body).0 r) blocks ending (
      CameFrom-IsReady e t user pipeline body r i s (create_run e t user pipeline body).0 from
        distinct)

-- What the workflow looks up for the block is there: its row's id, its key, and the run input that its
-- URL binds.
abbrev pub HasWhatItNeeds : PipelineRunInput → RunBlock → Type 0
HasWhatItNeeds i b =
    (i.has_artifact b.id ≡ true)
    × (i.has_url b.id ≡ true)
    × IfSome (λ k. i.has_llm_key k ≡ true) (llm_key b)

has_row :
    (id : ℕ) (ids : ℕ → ℕ) (n : ℕ) (bs : List RunBlock)
    → any (λ b. b.block_id == id) (new_blocks ids n bs) ≡ any (λ b. b.id == id) bs
has_row id ids n [] = refl
has_row id ids n (b ∷ bs) = ground (arith, has_row id ids (suc n) bs)

value_of_name :
    (inputs : Inputs) (n : List ℕ) (v : ℕ)
    → value_of inputs n ≡ some v
    → has_name (names_of inputs) n ≡ true
value_of_name [] n v h = cc
value_of_name ((m, w) ∷ inputs) n v h = ground (arith, value_of_name inputs n v)

given_bound :
    (e : Env) (inputs : Inputs) (url : ℕ) (name : Option (List ℕ))
    → BoundIsExternal e inputs url name
    → is_given inputs name ≡ true
given_bound e inputs url none h = refl
given_bound e inputs url (some name) (value, given, external) =
    value_of_name inputs name value given

bound_true :
    (e : Env) (inputs : Inputs) (c : Config) → UrlIsExternal e inputs c → bound e inputs c ≡ true
bound_true e inputs (scrape_config c) h = given_bound e inputs c.url (e.binding c.url) h
bound_true e inputs clean_config h = refl
bound_true e inputs (llm_extract_config c) h = refl
bound_true e inputs (validate_config rules) h = refl
bound_true e inputs (webhook_config c) h = refl

all_bound :
    (e : Env) (inputs : Inputs) (id : ℕ) (bs : List RunBlock)
    → All (λ b. UrlIsExternal e inputs b.config) bs
    → all (λ b. not (b.id == id) || bound e inputs b.config) bs ≡ true
all_bound e inputs id [] h = refl
all_bound e inputs id (b ∷ bs) h =
    ground (arith, bound_true e inputs b.config h.0, all_bound e inputs id bs h.1)

any_self :
    (id : ℕ) (bs : List RunBlock) → count (λ b. b.id == id) bs ≡ 1 → any (λ b. b.id == id) bs ≡ true
any_self id [] h = cc
any_self id (b ∷ bs) h = ground (arith, any_self id bs)

needs_met :
    (e : Env) (body : PipelineRunCreate) (s : Startable) (user : ℕ) (bs : List RunBlock)
    → All (λ b. count (λ c. c.id == b.id) s.parsed.blocks ≡ 1) bs
    → All (λ b. UrlIsExternal e body.inputs b.config) s.parsed.blocks
    → All (KeyIsGiven s.keys) bs
    → All (HasWhatItNeeds (workflow_input e body s (stored_run e user s))) bs
unfolding workflow_input stored_run
needs_met e body s user [] one urls keys = tt
needs_met e body s user (b ∷ bs) one urls keys = (
  (
    rw (has_row b.id e.block_id 0 s.parsed.blocks) (any_self b.id s.parsed.blocks one.0),
    all_bound e body.inputs b.id s.parsed.blocks urls,
    keys.0,
  ),
  needs_met e body s user bs one.1 urls keys.1,
)

CameFrom-HasWhatItNeeds :
    (e : Env) (t : Tables) (user pipeline : ℕ) (body : PipelineRunCreate) (r : StoredRun)
    (i : PipelineRunInput) (s : Startable)
    → CameFrom e t user pipeline body r i s
    → HasDistinctIds i.blocks
    → All (HasWhatItNeeds i) i.blocks
unfolding workflow_input
CameFrom-HasWhatItNeeds e t user pipeline body r i s (startable, row, input) distinct =
    let same : i.blocks ≡ s.parsed.blocks = ap (λ j. j.blocks) input in
    let d : HasDistinctIds s.parsed.blocks = rw (sym same) distinct in
    rw (input, row) (needs_met e body s user s.parsed.blocks d startable.urls startable.keys)

-- The workflow that create_run starts, of blocks with distinct ids, meets no KeyError: each block's
-- row, its LLM key and the run input that its URL binds are among its arguments.
pub create_run-HasWhatItNeeds :
    (e : Env) (t : Tables) (user pipeline : ℕ) (body : PipelineRunCreate) (r : StoredRun)
    (i : PipelineRunInput)
    → (create_run e t user pipeline body).1 ≡ started r i
    → HasDistinctIds i.blocks
    → All (HasWhatItNeeds i) i.blocks
create_run-HasWhatItNeeds e t user pipeline body r i h distinct =
    let (s, from) = create_run-IsStartable e t user pipeline body r i h in
    CameFrom-HasWhatItNeeds e t user pipeline body r i s from distinct
