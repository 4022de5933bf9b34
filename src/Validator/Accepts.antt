-- ===== src/Validator/Accepts.antt =====
-- validate accepts valid definitions only.
use scrapeflow.Base.{
  ◌≡◌, refl, true, ◌&&◌, List, [], ◌∷◌, ◌++◌, ltb, ◌==◌, length, any, same_text, Bool-cases, inl,
  inr, ==_self, ltb→le,
}
use scrapeflow.Validator.{
  PipelineDefinition, Models, Limits, ValidatedBlock, problem_if, too_many_blocks, bad_input_name,
  of_pipeline, unused_input,
}
use scrapeflow.Validator.Rules.{
  is_input_name, used_of, ValidatedPipeline, accepted, validate_definition, local_problems,
  parse_blocks, id_problems, input_name_problems, unused_problems, verdict, is_nil,
}
use scrapeflow.Validator.ChainRules.{
  flat_map, starting_block_problems, chain_problems, type_problems, webhook_problems,
  budget_problems, later_problems, first_problems,
}
use scrapeflow.Validator.Chain.{Chain, fetches, IsValid}
use scrapeflow.Validator.Parsed.{Parses, parse_blocks-Parses, Parses-length, parsed-Follows}
use scrapeflow.Validator.Lists.{append-nil-inv, map-nil-inv, filter-nil-All}
use scrapeflow.Validator.Clean.{
  Clean, budget_within, first_ok, ids_unique, needed, one_webhook, problem_if-nil, scrape_ref,
  verdict-accepted,
}

module _ (m : Models) (limits : Limits) (d : PipelineDefinition) where
  local_problems-Clean : local_problems m limits d ≡ [] → Clean m limits d
  unfolding local_problems
  local_problems-Clean h =
      let blocks = d.first ∷ d.rest in
      let (names, h1) = append-nil-inv (input_name_problems d.inputs) _ h in
      let (size, h2) =
        append-nil-inv
          (problem_if (ltb limits.max_blocks_per_pipeline (length blocks))
            (of_pipeline too_many_blocks))
          _ h1 in
      let (ids, h3) = append-nil-inv (id_problems [] blocks) _ h2 in
      let (parse, h4) = append-nil-inv (parse_blocks m d.inputs blocks).1 _ h3 in
      let (used, h5) = append-nil-inv (unused_problems (flat_map used_of blocks) d.inputs) _ h4 in
      let (starting, h6) = append-nil-inv (starting_block_problems d.first d.rest) _ h5 in
      let (chain, webhooks) =
        append-nil-inv (chain_problems d.first d.rest) (webhook_problems blocks) h6 in
      record {
        names = names;
        size =
            problem_if-nil (ltb limits.max_blocks_per_pipeline (length blocks))
              (of_pipeline too_many_blocks) size;
        ids = ids;
        parse = parse;
        used = used;
        starting = starting;
        chain = chain;
        webhooks = webhooks;
      }

  starts-Chain :
      (parsed : List ValidatedBlock)
      → Parses m d.inputs (d.first ∷ d.rest) parsed
      → starting_block_problems d.first d.rest ≡ []
      → chain_problems d.first d.rest ≡ []
      → type_problems parsed ≡ []
      → Chain m d.inputs d.first d.rest parsed
  unfolding Parses starting_block_problems chain_problems type_problems
  starts-Chain [] p s c t = absurd p
  starts-Chain (v ∷ parsed) p s c t =
      let (first, later) =
        append-nil-inv (first_problems d.first) (flat_map later_problems d.rest) s in
      let (is_first, no_input) = first_ok d.first first in
      let (ref, e) = scrape_ref v.config d.first.type_name p.0.type_name is_first in
      fetches p.0 is_first no_input e (
        parsed-Follows m d.inputs (d.first ∷ d.rest) d.first.id 1 ref d.rest parsed p.1 later c
          (rw e at t))

  Clean-typed :
      Clean m limits d
      → (length (parse_blocks m d.inputs (d.first ∷ d.rest)).0 == length (d.first ∷ d.rest))
          && is_nil (starting_block_problems d.first d.rest)
          && is_nil (chain_problems d.first d.rest)
        ≡ true
  Clean-typed h =
      let parsed = (parse_blocks m d.inputs (d.first ∷ d.rest)).0 in
      rw
        (
          h.starting,
          h.chain,
          Parses-length m d.inputs (d.first ∷ d.rest) parsed
              (parse_blocks-Parses m d.inputs (d.first ∷ d.rest) h.parse),
          ==_self,
        )
        refl

  accepted-IsValid :
      (p : ValidatedPipeline)
      → Clean m limits d
      → let parsed = (parse_blocks m d.inputs (d.first ∷ d.rest)).0 in
        type_problems parsed ≡ []
        → (budget_problems limits d.time_budget_seconds parsed).1 ≡ []
        → p.blocks ≡ parsed
        → p.run_budget_seconds ≡ (budget_problems limits d.time_budget_seconds parsed).0
        → IsValid m limits d p
  unfolding needed input_name_problems unused_problems
  accepted-IsValid p h t o e b =
      let blocks = d.first ∷ d.rest in
      let parsed = (parse_blocks m d.inputs blocks).0 in
      let (covered, limited, declared) = budget_within limits parsed d.time_budget_seconds o in
      record {
        names =
            filter-nil-All is_input_name d.inputs
              (map-nil-inv (λ i. of_pipeline bad_input_name) _ h.names);
        size = ltb→le limits.max_blocks_per_pipeline (length blocks) h.size;
        ids = (ids_unique [] blocks h.ids).1;
        used =
            filter-nil-All (λ i. any (same_text i) (flat_map used_of blocks)) d.inputs
              (map-nil-inv (λ i. of_pipeline unused_input) _ h.used);
        chain = rw e (
            starts-Chain parsed (parse_blocks-Parses m d.inputs blocks h.parse) h.starting h.chain
              t);
        webhooks = one_webhook blocks h.webhooks;
        covered = rw (e, b) covered;
        limited = rw b limited;
        declared = rw (e, b) declared;
      }

-- A definition that validate accepts is valid: its blocks parse to the catalogue's configs and form
-- one chain from a scrape, in which each block takes the block before it, consumes the type that
-- it produces and can check it; ids are unique, every declared input is used and every used one
-- declared, there is at most one webhook, and the run budget is the declared one, or what the
-- blocks need, covers that need and keeps to the limit.
pub validate-IsValid :
    (m : Models) (limits : Limits) (d : PipelineDefinition) (p : ValidatedPipeline)
    → validate_definition m limits d ≡ accepted p
    → IsValid m limits d p
unfolding validate_definition
validate-IsValid m limits d p h =
    let blocks = d.first ∷ d.rest in
    let parsed = (parse_blocks m d.inputs blocks).0 in
    let over = budget_problems limits d.time_budget_seconds parsed in
    elim (Bool-cases (
      (length parsed == length blocks)
      && is_nil (starting_block_problems d.first d.rest)
      && is_nil (chain_problems d.first d.rest))) [
        | inl typed ↦
            let h' : verdict m d parsed over.0
                  (local_problems m limits d ++ (type_problems parsed ++ over.1))
                ≡ accepted p =
              rw typed at h in
            let (none_left, e, b) =
              verdict-accepted m d parsed over.0
                (local_problems m limits d ++ (type_problems parsed ++ over.1)) p h' in
            let (tidy, others) =
              append-nil-inv (local_problems m limits d) (type_problems parsed ++ over.1)
                none_left in
            let (types, budget) = append-nil-inv (type_problems parsed) over.1 others in
            accepted-IsValid m limits d p (local_problems-Clean m limits d tidy) types budget e b
        | inr untyped ↦
            let h' : verdict m d parsed 0 (local_problems m limits d) ≡ accepted p =
              rw untyped at h in
            let (tidy, e, b) = verdict-accepted m d parsed 0 (local_problems m limits d) p h' in
            let t = Clean-typed m limits d (local_problems-Clean m limits d tidy) in cc
      ]
