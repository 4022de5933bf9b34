-- ===== src/Definition/RoundTrip.antt =====
-- What validate stores is read back.
use scrapeflow.Base.{
  ℕ, ◌≡◌, refl, ap, arith, some, List, [], ◌∷◌, ◌++◌, map, ◌==◌, length, ◌&&◌, Bool-cases, inl, inr,
}
use scrapeflow.Catalog.{Config, Ref, timing, type_of}
use scrapeflow.Validator.{
  Models, Limits, BlockDefinition, PipelineDefinition, ValidatedBlock, model_validate, RawConfig,
  Problem,
}
use scrapeflow.Validator.Rules.{
  StoredDefinition, ValidatedPipeline, accepted, validate_definition, verdict, stored_blocks,
  local_problems, is_nil, parse_blocks,
}
use scrapeflow.Validator.ChainRules.{
  type_problems, budget_problems, starting_block_problems, chain_problems,
}
use scrapeflow.Validator.Chain.{ParsesAs, Follows, ends, feeds, Chain, fetches}
use scrapeflow.Validator.Accepts.{validate-IsValid}
use scrapeflow.PipelineWorkflow.Calls.{RunBlock}
use scrapeflow.Definition.{
  ParsedDefinition, readable, run_budget_seconds, read_blocks, parse_definition,
}

-- A config that parsed is dumped to what parses to it again.
abbrev pub DumpsBack : Models → Type 0
DumpsBack m =
    (c : Config) (raw : RawConfig)
    → model_validate m (type_of c) raw ≡ some c
    → model_validate m (type_of c) (m.dump c) ≡ some c

-- The blocks as the workflow runs them.
abbrev pub run_blocks_of : List BlockDefinition → List ValidatedBlock → List RunBlock
run_blocks_of (b ∷ blocks) (v ∷ parsed) =
    record { id = b.id; input = b.input; config = v.config } ∷ run_blocks_of blocks parsed
run_blocks_of _ _ = []

module _ (m : Models) (back : DumpsBack m) (declared : List (List ℕ)) where
  read_one :
      (b : BlockDefinition) (v : ValidatedBlock) (blocks : List BlockDefinition)
      (parsed : List ValidatedBlock)
      → ParsesAs m declared b v
      → read_blocks m (stored_blocks m blocks parsed) ≡ (run_blocks_of blocks parsed, [])
      → read_blocks m (stored_blocks m (b ∷ blocks) (v ∷ parsed))
        ≡ (run_blocks_of (b ∷ blocks) (v ∷ parsed), [])
  unfolding read_blocks stored_blocks
  read_one b v blocks parsed p h =
      rw (p.type_name, p.version, back v.config b.config p.model, h) refl

  read-Follows :
      {previous : ℕ} {ref : Ref} (blocks : List BlockDefinition) (parsed : List ValidatedBlock)
      → Follows m declared previous ref blocks parsed
      → read_blocks m (stored_blocks m blocks parsed) ≡ (run_blocks_of blocks parsed, [])
  unfolding read_blocks stored_blocks
  read-Follows [] [] ends = refl
  read-Follows [] (v ∷ parsed) f = elim f [ ]
  read-Follows (b ∷ blocks) [] f = elim f [ ]
  read-Follows (b ∷ blocks) (v ∷ parsed) (feeds p i e c k r rest) =
      read_one b v blocks parsed p (read-Follows blocks parsed rest)

  read-Chain :
      (b : BlockDefinition) (blocks : List BlockDefinition) (parsed : List ValidatedBlock)
      → Chain m declared b blocks parsed
      → read_blocks m (stored_blocks m (b ∷ blocks) parsed)
        ≡ (run_blocks_of (b ∷ blocks) parsed, [])
  read-Chain b blocks [] f = elim f [ ]
  read-Chain b blocks (v ∷ parsed) (fetches p s n r rest) =
      read_one b v blocks parsed p (read-Follows blocks parsed rest)

abbrev pub stored : Models → PipelineDefinition → List ValidatedBlock → StoredDefinition
stored m d parsed = record {
  inputs = d.inputs;
  time_budget_seconds = d.time_budget_seconds;
  blocks = stored_blocks m (d.first ∷ d.rest) parsed;
}

verdict_stored :
    (m : Models) (d : PipelineDefinition) (parsed : List ValidatedBlock) (budget : ℕ)
    (problems : List Problem) (p : ValidatedPipeline)
    → verdict m d parsed budget problems ≡ accepted p
    → p.definition ≡ stored m d p.blocks
verdict_stored m d parsed budget [] p h = ground arith
verdict_stored m d parsed budget (q ∷ qs) p h = cc

pub validate_stored :
    (m : Models) (limits : Limits) (d : PipelineDefinition) (p : ValidatedPipeline)
    → validate_definition m limits d ≡ accepted p
    → p.definition ≡ stored m d p.blocks
unfolding validate_definition
validate_stored m limits d p h =
    let parsed = (parse_blocks m d.inputs (d.first ∷ d.rest)).0 in
    let over = budget_problems limits d.time_budget_seconds parsed in
    elim (Bool-cases (
      (length parsed == length (d.first ∷ d.rest))
      && is_nil (starting_block_problems d.first d.rest)
      && is_nil (chain_problems d.first d.rest))) [
        | inl typed ↦
            verdict_stored m d parsed over.0
              (local_problems m limits d ++ (type_problems parsed ++ over.1)) p (rw typed at h)
        | inr untyped ↦ verdict_stored m d parsed 0 (local_problems m limits d) p (rw untyped at h)
      ]

run_timings :
    (m : Models) (declared : List (List ℕ)) {previous : ℕ} {ref : Ref}
    (blocks : List BlockDefinition) (parsed : List ValidatedBlock)
    → Follows m declared previous ref blocks parsed
    → map (λ b. timing b.config) (run_blocks_of blocks parsed) ≡ map (λ v. timing v.config) parsed
run_timings m declared [] [] ends = refl
run_timings m declared [] (v ∷ parsed) f = elim f [ ]
run_timings m declared (b ∷ blocks) [] f = elim f [ ]
run_timings m declared (b ∷ blocks) (v ∷ parsed) (feeds p i e c k r rest) =
    ap (λ ts. timing v.config ∷ ts) (run_timings m declared blocks parsed rest)

Chain-timings :
    (m : Models) (declared : List (List ℕ)) (b : BlockDefinition) (blocks : List BlockDefinition)
    (parsed : List ValidatedBlock)
    → Chain m declared b blocks parsed
    → map (λ b. timing b.config) (run_blocks_of (b ∷ blocks) parsed)
      ≡ map (λ v. timing v.config) parsed
Chain-timings m declared b blocks [] f = elim f [ ]
Chain-timings m declared b blocks (v ∷ parsed) (fetches p s n r rest) =
    ap (λ ts. timing v.config ∷ ts) (run_timings m declared blocks parsed rest)

abbrev pub parsed_of : PipelineDefinition → ValidatedPipeline → ParsedDefinition
parsed_of d p = record {
  inputs = d.inputs;
  time_budget_seconds = d.time_budget_seconds;
  blocks = run_blocks_of (d.first ∷ d.rest) p.blocks;
}

-- What validate accepted and stored is read back as the blocks that it validated, with their ids
-- and inputs, and with the run budget that it computed, as long as a config that parsed is dumped to
-- what parses to it again.
pub parse-validate :
    (m : Models) (limits : Limits) (d : PipelineDefinition) (p : ValidatedPipeline)
    → DumpsBack m
    → validate_definition m limits d ≡ accepted p
    → (parse_definition m p.definition ≡ readable (parsed_of d p))
      × (run_budget_seconds (parsed_of d p) ≡ p.run_budget_seconds)
unfolding parse_definition run_budget_seconds
parse-validate m limits d p back h =
    let valid = validate-IsValid m limits d p h in
    (
      rw (validate_stored m limits d p h)
          (rw (read-Chain m back d.inputs d.first d.rest p.blocks valid.chain) refl),
      rw (Chain-timings m d.inputs d.first d.rest p.blocks valid.chain, valid.declared) refl,
    )
