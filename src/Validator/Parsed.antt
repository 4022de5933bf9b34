-- ===== src/Validator/Parsed.antt =====
-- What the absence of problems says of the blocks: they parse, and they form a chain.
use scrapeflow.Base.{
  ℕ, suc, ◌≡◌, refl, sym, ap, true, false, not, Option, none, some, List, [], ◌∷◌, ◌++◌, map, arith,
  ◌==◌, length, All, filter, Bool-cases, Option-cases, inl, inr, ==_iff,
}
use scrapeflow.Catalog.{
  Ref, page_markdown, extraction, Config, scrape_config, clean_config, llm_extract_config,
  validate_config, webhook_config, page_of, BlockType, scrape, clean, llm_extract, webhook, type_of,
  is_source, consumes, produces, check_input,
}
use scrapeflow.Validator.{
  TypeName, known, other, BlockDefinition, RawConfig, literal, binding, Models, Problem, of_block,
  ValidatedBlock, version_of, current_version, model_validate, binds, is_declared, schemas_of,
  binding_problems, json_schema_problems, parse_block, bad_schema, wrong_rule, with_config,
  when_bound,
}
use scrapeflow.Validator.Rules.{parse_blocks, add_parsed}
use scrapeflow.Validator.ChainRules.{
  is_scrape, flat_map, chain_from, type_from, is_set, later_problems, chain_problem, of_validated,
}
use scrapeflow.Validator.Chain.{IsBound, ParsesAs, Follows, ends, feeds}
use scrapeflow.Validator.Lists.{append-nil-inv, filter-nil-All, map-nil-inv}

module _ (m : Models) where
  model_validate-type_of :
      (t : BlockType) (raw : RawConfig) (c : Config)
      → model_validate m t raw ≡ some c
      → type_of c ≡ t
  unfolding model_validate
  model_validate-type_of scrape raw c h = ground arith
  model_validate-type_of clean raw c h = ground arith
  model_validate-type_of llm_extract raw c h = ground arith
  model_validate-type_of BlockType.validate raw c h = ground arith
  model_validate-type_of webhook raw c h = ground arith

  binding_problems-All :
      (t : BlockType) (b : BlockDefinition) (declared : List (List ℕ)) (raw : RawConfig)
      → binding_problems t b declared raw ≡ []
      → All (IsBound t declared) raw
  unfolding binding_problems
  binding_problems-All t b declared [] h = tt
  binding_problems-All t b declared ((name, literal v) ∷ raw) h =
      (tt, binding_problems-All t b declared raw h)
  binding_problems-All t b declared ((name, binding input) ∷ raw) h =
      elim (Bool-cases (binds t name)) [
        | inl b1 ↦ elim (Bool-cases (is_declared input declared)) [
          | inl b2 ↦ ((b1, b2), binding_problems-All t b declared raw (ground arith))
          | inr b2 ↦ ground arith
        ]
        | inr b1 ↦ ground arith
      ]

  schemas_valid :
      (b : BlockDefinition) (c : Config)
      → json_schema_problems m b c ≡ []
      → All (λ s. m.is_schema s ≡ true) (schemas_of c)
  unfolding json_schema_problems
  schemas_valid b c h = filter-nil-All m.is_schema (schemas_of c) (
      map-nil-inv (λ s. of_block b bad_schema) (filter (λ s. not (m.is_schema s)) (schemas_of c)) h)

  with_config-ok :
      (b : BlockDefinition) (o : Option Config)
      → (with_config m b o).1 ≡ []
      → (c : Config) × (o ≡ some c) × (json_schema_problems m b c ≡ [])
  with_config-ok b none h = cc
  with_config-ok b (some c) h = (c, refl, h)

  when_bound-ok :
      (b : BlockDefinition) (t : BlockType) (ps : List Problem)
      → (when_bound m b t ps).1 ≡ []
      → (c : Config) × (ps ≡ [])
        × (model_validate m t b.config ≡ some c)
        × (json_schema_problems m b c ≡ [])
        × ((when_bound m b t ps).0 ≡ some (record { id = b.id; config = c }))
  when_bound-ok b t [] h =
      let (c, e, s) = with_config-ok b (model_validate m t b.config) h in
      (c, refl, e, s, ap (λ o. (with_config m b o).0) e)
  when_bound-ok b t (p ∷ ps) h = cc

  parse_block-ParsesAs :
      (declared : List (List ℕ)) (b : BlockDefinition) (name : TypeName)
      → let b' = record b { type_name = name } in
        (parse_block m b' declared).1 ≡ []
        → (v : ValidatedBlock) × ((parse_block m b' declared).0 ≡ some v) × ParsesAs m declared b' v
  unfolding parse_block
  parse_block-ParsesAs declared b (other n) h = cc
  parse_block-ParsesAs declared b (known t) h =
      elim (Bool-cases (version_of b.config_schema_version == current_version)) [
        | inr bad ↦ ground arith
        | inl good ↦
            let b' = record b { type_name = known t } in
            let h' : (when_bound m b' t (binding_problems t b' declared b.config)).1 ≡ [] =
              ground arith in
            let (c, none_wrong, parsed, schemas, v) =
              when_bound-ok b' t (binding_problems t b' declared b.config) h' in
            let e = model_validate-type_of t b.config c parsed in
            (
              record { id = b.id; config = c },
              rw good v,
              record {
                id = refl;
                type_name = ap known (sym e);
                version = (==_iff (version_of b.config_schema_version) current_version).0 good;
                model = rw e parsed;
                bound = rw e (binding_problems-All t b' declared b.config none_wrong);
                schemas = schemas_valid b' c schemas;
              },
            )
      ]

  unfoldable pub Parses : List (List ℕ) → List BlockDefinition → List ValidatedBlock → Type 0
  Parses declared [] [] = Unit
  Parses declared (b ∷ blocks) (v ∷ parsed) =
      ParsesAs m declared b v × Parses declared blocks parsed
  Parses declared _ _ = ⊥

  add_Parses :
      (declared : List (List ℕ)) (b : BlockDefinition) (blocks : List BlockDefinition)
      (v : ValidatedBlock) (o : Option ValidatedBlock) (parsed : List ValidatedBlock)
      → o ≡ some v
      → ParsesAs m declared b v
      → Parses declared blocks parsed
      → Parses declared (b ∷ blocks) (add_parsed o parsed)
  unfolding Parses
  add_Parses declared b blocks v none parsed e p rest = cc
  add_Parses declared b blocks v (some w) parsed e p rest =
      let same : v ≡ w = cc in (rw same at p, rest)

  pub parse_blocks-Parses :
      (declared : List (List ℕ)) (blocks : List BlockDefinition)
      → (parse_blocks m declared blocks).1 ≡ []
      → Parses declared blocks (parse_blocks m declared blocks).0
  unfolding parse_blocks Parses
  parse_blocks-Parses declared [] h = tt
  parse_blocks-Parses declared (b ∷ blocks) h =
      let (mine, later) =
        append-nil-inv (parse_block m b declared).1 (parse_blocks m declared blocks).1 h in
      let (v, e, p) = parse_block-ParsesAs declared b b.type_name mine in
      add_Parses declared b blocks v (parse_block m b declared).0 (parse_blocks m declared blocks).0
        e p (parse_blocks-Parses declared blocks later)

  pub Parses-length :
      (declared : List (List ℕ)) (blocks : List BlockDefinition) (parsed : List ValidatedBlock)
      → Parses declared blocks parsed
      → length parsed ≡ length blocks
  unfolding Parses
  Parses-length declared [] [] p = refl
  Parses-length declared (b ∷ blocks) (v ∷ parsed) p =
      ap suc (Parses-length declared blocks parsed p.1)
  Parses-length declared [] (v ∷ parsed) p = absurd p
  Parses-length declared (b ∷ blocks) [] p = absurd p

  pub produces_ref : (c : Config) (ref : Ref) → (ref' : Ref) × (produces c (some ref) ≡ some ref')
  produces_ref (scrape_config c) ref = (page_of c.output_format, refl)
  produces_ref clean_config ref = (page_markdown, refl)
  produces_ref (llm_extract_config c) ref = (extraction, refl)
  produces_ref (validate_config rules) ref = (ref, refl)
  produces_ref (webhook_config c) ref = (ref, refl)

  pub later_ok :
      (b : BlockDefinition)
      → later_problems b ≡ []
      → (is_scrape b.type_name ≡ false) × (is_set b.input ≡ true)
  later_ok b h = (ground arith, ground arith)

  -- With no problem of the chain a later block takes the one before it.
  chain_ok :
      (blocks : List BlockDefinition) (previous i : ℕ) (b : BlockDefinition)
      → is_scrape b.type_name ≡ false
      → is_set b.input ≡ true
      → chain_problem blocks previous i b ≡ []
      → b.input ≡ some previous
  chain_ok blocks previous i b s t h = elim (Option-cases b.input) [
    | inl e ↦ ground arith
    | inr (k, e) ↦ ground (arith, ==_iff k previous)
  ]

  type_ok :
      (ref : Ref) (v : ValidatedBlock) (rest : List ValidatedBlock)
      → is_source (type_of v.config) ≡ false
      → type_from (some ref) (v ∷ rest) ≡ []
      → (consumes (type_of v.config) ref ≡ true)
        × (check_input v.config ref ≡ [])
        × (type_from (produces v.config (some ref)) rest ≡ [])
  unfolding type_from
  type_ok ref v rest s h = elim (Bool-cases (consumes (type_of v.config) ref)) [
    | inl takes ↦
        let split : map (λ i. of_validated v wrong_rule) (check_input v.config ref)
              ++ type_from (produces v.config (some ref)) rest
            ≡ [] =
          ground arith in
        let (r, t) =
          append-nil-inv (map (λ i. of_validated v wrong_rule) (check_input v.config ref))
            (type_from (produces v.config (some ref)) rest) split in
        (takes, map-nil-inv (λ i. of_validated v wrong_rule) (check_input v.config ref) r, t)
    | inr refuses ↦ ground arith
  ]

  not_source :
      (c : Config) (n : TypeName)
      → n ≡ known (type_of c)
      → is_scrape n ≡ false
      → is_source (type_of c) ≡ false
  not_source (scrape_config c) n e h = cc
  not_source clean_config n e h = refl
  not_source (llm_extract_config c) n e h = refl
  not_source (validate_config rules) n e h = refl
  not_source (webhook_config c) n e h = refl

  pub parsed-Follows :
      (declared : List (List ℕ)) (blocks : List BlockDefinition) (previous i : ℕ) (ref : Ref)
      (rest : List BlockDefinition) (parsed : List ValidatedBlock)
      → Parses declared rest parsed
      → flat_map later_problems rest ≡ []
      → chain_from blocks previous i rest ≡ []
      → type_from (some ref) parsed ≡ []
      → Follows m declared previous ref rest parsed
  unfolding Parses chain_from
  parsed-Follows declared blocks previous i ref [] [] p l c t = ends
  parsed-Follows declared blocks previous i ref (b ∷ rest) (v ∷ parsed) p l c t =
      let (l1, l2) = append-nil-inv (later_problems b) (flat_map later_problems rest) l in
      let (c1, c2) =
        append-nil-inv (chain_problem blocks previous i b) (chain_from blocks b.id (suc i) rest)
          c in
      let (not_scrape, input) = later_ok b l1 in
      let (t1, t2, t3) =
        type_ok ref v parsed (not_source v.config b.type_name (p.0).type_name not_scrape) t in
      let (ref', e) = produces_ref v.config ref in
      feeds p.0 not_scrape (chain_ok blocks previous i b not_scrape input c1) t1 t2 e
        (parsed-Follows declared blocks b.id (suc i) ref' rest parsed p.1 l2 c2 (rw e at t3))
  parsed-Follows declared blocks previous i ref [] (v ∷ parsed) p l c t = absurd p
  parsed-Follows declared blocks previous i ref (b ∷ rest) [] p l c t = absurd p
