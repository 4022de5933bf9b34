-- ===== src/Validator/Clean.antt =====
-- What it says of a definition that the checks of validate find no problem.
use scrapeflow.Base.{
  ℕ, ◌≤◌, ◌≡◌, refl, ap, Bool, true, false, Option, none, some, List, [], ◌∷◌, map, arith, ltb,
  ◌==◌, count, length, any, All, contains, filter, get_or, length-filter,
}
use scrapeflow.Catalog.{
  Ref, Config, scrape_config, clean_config, llm_extract_config, validate_config, webhook_config,
  page_of, type_of, produces, timing, run_need_seconds,
}
use scrapeflow.Validator.{
  TypeName, known, BlockDefinition, PipelineDefinition, Models, Limits, Problem, of_block,
  ValidatedBlock, problem_if, id_used_twice, second_webhook,
}
use scrapeflow.Validator.Rules.{
  used_of, ValidatedPipeline, accepted, parse_blocks, id_problems, input_name_problems,
  unused_problems, verdict,
}
use scrapeflow.Validator.ChainRules.{
  is_scrape, is_webhook, flat_map, starting_block_problems, chain_problems, webhook_problems,
  budget_problems, first_problems, tail_of,
}
use scrapeflow.Validator.Chain.{HasUniqueIds}
use scrapeflow.Validator.Lists.{append-nil-inv, map-nil-inv}

pub ids_unique :
    (seen : List ℕ) (blocks : List BlockDefinition)
    → id_problems seen blocks ≡ []
    → All (λ b. contains b.id seen ≡ false) blocks × HasUniqueIds blocks
unfolding id_problems
ids_unique seen [] h = (tt, tt)
ids_unique seen (b ∷ blocks) h =
    let (mine, later) =
      append-nil-inv (problem_if (contains b.id seen) (of_block b id_used_twice))
        (id_problems (b.id ∷ seen) blocks) h in
    let (fresh, unique) = ids_unique (b.id ∷ seen) blocks later in
    ((ground arith, older seen b.id blocks fresh), (newer seen b.id blocks fresh, unique))
  where
    older :
        (seen : List ℕ) (id : ℕ) (blocks : List BlockDefinition)
        → All (λ c. contains c.id (id ∷ seen) ≡ false) blocks
        → All (λ c. contains c.id seen ≡ false) blocks
    older seen id [] a = tt
    older seen id (c ∷ blocks) a = (ground (arith, a.0), older seen id blocks a.1)

    newer :
        (seen : List ℕ) (id : ℕ) (blocks : List BlockDefinition)
        → All (λ c. contains c.id (id ∷ seen) ≡ false) blocks
        → any (λ c. id == c.id) blocks ≡ false
    newer seen id [] a = refl
    newer seen id (c ∷ blocks) a = ground (arith, a.0, newer seen id blocks a.1)

pub one_webhook :
    (blocks : List BlockDefinition)
    → webhook_problems blocks ≡ []
    → count (λ b. is_webhook b.type_name) blocks ≤ 1
unfolding webhook_problems
one_webhook blocks h =
    let found = filter (λ b. is_webhook b.type_name) blocks in
    omega (
      arith,
      length-filter (λ b. is_webhook b.type_name) blocks,
      at_most_one found (map-nil-inv (λ b. of_block b second_webhook) (tail_of found) h),
    )
  where
    at_most_one : (bs : List BlockDefinition) → tail_of bs ≡ [] → length bs ≤ 1
    at_most_one [] e = omega arith
    at_most_one (b ∷ bs) e = omega (arith, ap length e)

module _ (limits : Limits) (parsed : List ValidatedBlock) where
  unfoldable pub needed : ℕ
  needed = run_need_seconds (map (λ b. timing b.config) parsed)

  pub budget_within :
      (declared : Option ℕ)
      → (budget_problems limits declared parsed).1 ≡ []
      → (needed ≤ (budget_problems limits declared parsed).0)
        × ((budget_problems limits declared parsed).0 ≤ limits.pipeline_max_run_seconds)
        × ((budget_problems limits declared parsed).0 ≡ get_or declared needed)
  unfolding budget_problems needed
  budget_within none h = (ground arith, ground arith, refl)
  budget_within (some d) h = (ground arith, ground arith, refl)

pub verdict-accepted :
    (m : Models) (d : PipelineDefinition) (parsed : List ValidatedBlock) (budget : ℕ)
    (problems : List Problem) (p : ValidatedPipeline)
    → verdict m d parsed budget problems ≡ accepted p
    → (problems ≡ []) × (p.blocks ≡ parsed) × (p.run_budget_seconds ≡ budget)
verdict-accepted m d parsed budget [] p h = (refl, ground arith, ground arith)
verdict-accepted m d parsed budget (q ∷ qs) p h = cc

pub scrape_ref :
    (c : Config) (n : TypeName)
    → n ≡ known (type_of c)
    → is_scrape n ≡ true
    → (ref : Ref) × (produces c none ≡ some ref)
scrape_ref (scrape_config c) n e h = (page_of c.output_format, refl)
scrape_ref clean_config n e h = cc
scrape_ref (llm_extract_config c) n e h = cc
scrape_ref (validate_config rules) n e h = cc
scrape_ref (webhook_config c) n e h = cc

pub first_ok :
    (b : BlockDefinition)
    → first_problems b ≡ []
    → (is_scrape b.type_name ≡ true) × (b.input ≡ none)
first_ok b h = (ground arith, ground arith)

-- The parts of the local problems, when there are none.
pub record Clean (m : Models) (limits : Limits) (d : PipelineDefinition) : Type 0 where
  pub names : input_name_problems d.inputs ≡ []
  pub size : ltb limits.max_blocks_per_pipeline (length (d.first ∷ d.rest)) ≡ false
  pub ids : id_problems [] (d.first ∷ d.rest) ≡ []
  pub parse : (parse_blocks m d.inputs (d.first ∷ d.rest)).1 ≡ []
  pub used : unused_problems (flat_map used_of (d.first ∷ d.rest)) d.inputs ≡ []
  pub starting : starting_block_problems d.first d.rest ≡ []
  pub chain : chain_problems d.first d.rest ≡ []
  pub webhooks : webhook_problems (d.first ∷ d.rest) ≡ []

pub problem_if-nil : (b : Bool) (p : Problem) → problem_if b p ≡ [] → b ≡ false
problem_if-nil true p h = cc
problem_if-nil false p h = refl
