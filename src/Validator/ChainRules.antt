-- ===== src/Validator/ChainRules.antt =====
-- The problems of the blocks as a chain, their types and their budget (api/app/pipelines/validator.py).
use scrapeflow.Base.{
  ℕ, suc, Bool, true, false, not, ◌||◌, Option, none, some, List, [], ◌∷◌, ◌++◌, map, ltb, leb,
  ◌==◌, if◌then◌else◌, filter, get_or,
}
use scrapeflow.Catalog.{
  Ref, Config, BlockType, scrape, webhook, type_of, is_source, consumes, produces, check_input,
  timing, run_need_seconds,
}
use scrapeflow.Validator.{
  TypeName, known, BlockDefinition, Limits, Message, Problem, of_block, of_pipeline, problem_if,
  ValidatedBlock, not_a_scrape_first, first_has_input, second_scrape, no_input, not_a_block,
  not_before, not_previous, wrong_reference, wrong_rule, second_webhook, budget_too_short,
  over_limit,
}

abbrev pub is_scrape : TypeName → Bool
is_scrape (known scrape) = true
is_scrape _ = false

abbrev pub is_webhook : TypeName → Bool
is_webhook (known webhook) = true
is_webhook _ = false

abbrev pub is_set : Option ℕ → Bool
is_set none = false
is_set (some n) = true

abbrev pub first_problems : BlockDefinition → List Problem
first_problems b =
    if not (is_scrape b.type_name)
    then of_block b not_a_scrape_first ∷ []
    else problem_if (is_set b.input) (of_block b first_has_input)

abbrev pub later_problems : BlockDefinition → List Problem
later_problems b =
    if is_scrape b.type_name
    then of_block b second_scrape ∷ []
    else problem_if (not (is_set b.input)) (of_block b no_input)

abbrev pub flat_map {ℓ κ} : {A : Type ℓ} {B : Type κ} → (A → List B) → List A → List B
flat_map f [] = []
flat_map f (x ∷ xs) = f x ++ flat_map f xs

unfoldable pub starting_block_problems : BlockDefinition → List BlockDefinition → List Problem
starting_block_problems first rest = first_problems first ++ flat_map later_problems rest

-- {b.id: i for i, b in enumerate(blocks)}: the last block of an id counts.
abbrev position_from : ℕ → ℕ → List BlockDefinition → Option ℕ
position_from id i [] = none
position_from id i (b ∷ blocks) = elim (position_from id (suc i) blocks) [
  | some j ↦ some j
  | none ↦ if b.id == id then some i else none
]

abbrev chain_message : Option ℕ → ℕ → Message
chain_message none i = not_a_block
chain_message (some j) i = if leb i j then not_before else not_previous

-- The problem of block `i`, behind `previous`.
abbrev pub chain_problem : List BlockDefinition → ℕ → ℕ → BlockDefinition → List Problem
chain_problem all previous i b = elim b.input [
  | none ↦ []
  | some input ↦
      if is_scrape b.type_name || (input == previous)
      then []
      else of_block b (chain_message (position_from input 0 all) i) ∷ []
]

unfoldable pub chain_from : List BlockDefinition → ℕ → ℕ → List BlockDefinition → List Problem
chain_from all previous i [] = []
chain_from all previous i (b ∷ rest) =
    chain_problem all previous i b ++ chain_from all b.id (suc i) rest

unfoldable pub chain_problems : BlockDefinition → List BlockDefinition → List Problem
unfolding chain_from
chain_problems first rest = chain_from (first ∷ rest) first.id 1 rest

-- `ref not in block.type.consumes`; None is in no set.
abbrev pub accepts : BlockType → Option Ref → Bool
accepts t none = false
accepts t (some ref) = consumes t ref

abbrev pub check_ref : Config → Option Ref → List ℕ
check_ref c none = []
check_ref c (some ref) = check_input c ref

abbrev pub of_validated : ValidatedBlock → Message → Problem
of_validated b m = record { block_id = some b.id; message = m }

-- The loop of _type_problems behind the first block; it stops at the first wrong reference.
unfoldable pub type_from : Option Ref → List ValidatedBlock → List Problem
type_from ref [] = []
type_from ref (b ∷ rest) =
    let later = type_from (produces b.config ref) rest in
    if is_source (type_of b.config)
    then later
    else if accepts (type_of b.config) ref
    then map (λ i. of_validated b wrong_rule) (check_ref b.config ref) ++ later
    else of_validated b wrong_reference ∷ []

unfoldable pub type_problems : List ValidatedBlock → List Problem
unfolding type_from
type_problems [] = []
type_problems (b ∷ rest) = type_from (produces b.config none) rest

abbrev pub tail_of : List BlockDefinition → List BlockDefinition
tail_of [] = []
tail_of (b ∷ blocks) = blocks

unfoldable pub webhook_problems : List BlockDefinition → List Problem
webhook_problems blocks =
    map (λ b. of_block b second_webhook) (tail_of (filter (λ b. is_webhook b.type_name) blocks))

abbrev pub is_short : Option ℕ → ℕ → Bool
is_short none needed = false
is_short (some declared) needed = ltb declared needed

abbrev pub is_over : Option ℕ → ℕ → Bool
is_over none ceiling = false
is_over (some declared) ceiling = ltb ceiling declared

unfoldable pub budget_problems : Limits → Option ℕ → List ValidatedBlock → ℕ × List Problem
unfolding run_need_seconds timing
budget_problems limits declared parsed =
    let needed = run_need_seconds (map (λ b. timing b.config) parsed) in
    let ceiling = limits.pipeline_max_run_seconds in
    (
      get_or declared needed,
      problem_if (is_short declared needed) (of_pipeline budget_too_short)
          ++ (if ltb ceiling needed
              then of_pipeline over_limit ∷ []
              else problem_if (is_over declared ceiling) (of_pipeline over_limit)),
    )
