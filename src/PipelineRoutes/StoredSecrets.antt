-- ===== src/PipelineRoutes/StoredSecrets.antt =====
-- A definition stored without its secrets (_store_secrets of api/app/routers/pipelines.py) is read
-- back as the blocks that were validated.
use scrapeflow.Base.{◌≡◌, refl, some, List, [], ◌∷◌, ℕ}
use scrapeflow.Catalog.{Config, Ref, type_of}
use scrapeflow.Validator.{
  Models, Limits, BlockDefinition, PipelineDefinition, ValidatedBlock, model_validate, RawConfig,
}
use scrapeflow.Validator.Rules.{ValidatedPipeline, accepted, validate_definition, stored_blocks}
use scrapeflow.Validator.Chain.{ParsesAs, Follows, ends, feeds, Chain, fetches}
use scrapeflow.Validator.Accepts.{validate-IsValid}
use scrapeflow.Definition.{readable, read_blocks, parse_definition}
use scrapeflow.Definition.RoundTrip.{run_blocks_of, parsed_of, validate_stored}
use scrapeflow.PipelineRoutes.Definitions.{secret_fields, set_nulls, null_secrets, store_secrets}

-- A config that parsed, dumped and with its secret fields set to None, parses to itself again: the
-- secret fields are optional, and a Config has none of them.
abbrev pub NullsBack : Models → Type 0
NullsBack m =
    (c : Config) (raw : RawConfig)
    → model_validate m (type_of c) raw ≡ some c
    → model_validate m (type_of c) (set_nulls (secret_fields (type_of c)) (m.dump c)) ≡ some c

module _ (m : Models) (back : NullsBack m) (declared : List (List ℕ)) where
  read_one :
      (b : BlockDefinition) (v : ValidatedBlock) (blocks : List BlockDefinition)
      (parsed : List ValidatedBlock)
      → ParsesAs m declared b v
      → read_blocks m (null_secrets (stored_blocks m blocks parsed) parsed)
        ≡ (run_blocks_of blocks parsed, [])
      → read_blocks m (null_secrets (stored_blocks m (b ∷ blocks) (v ∷ parsed)) (v ∷ parsed))
        ≡ (run_blocks_of (b ∷ blocks) (v ∷ parsed), [])
  unfolding read_blocks stored_blocks null_secrets
  read_one b v blocks parsed p h =
      rw (p.type_name, p.version, back v.config b.config p.model, h) refl

  read-Follows :
      {previous : ℕ} {ref : Ref} (blocks : List BlockDefinition) (parsed : List ValidatedBlock)
      → Follows m declared previous ref blocks parsed
      → read_blocks m (null_secrets (stored_blocks m blocks parsed) parsed)
        ≡ (run_blocks_of blocks parsed, [])
  unfolding read_blocks stored_blocks null_secrets
  read-Follows [] [] ends = refl
  read-Follows [] (v ∷ parsed) f = elim f [ ]
  read-Follows (b ∷ blocks) [] f = elim f [ ]
  read-Follows (b ∷ blocks) (v ∷ parsed) (feeds p i e c k r rest) =
      read_one b v blocks parsed p (read-Follows blocks parsed rest)

  read-Chain :
      (b : BlockDefinition) (blocks : List BlockDefinition) (parsed : List ValidatedBlock)
      → Chain m declared b blocks parsed
      → read_blocks m (null_secrets (stored_blocks m (b ∷ blocks) parsed) parsed)
        ≡ (run_blocks_of (b ∷ blocks) parsed, [])
  read-Chain b blocks [] f = elim f [ ]
  read-Chain b blocks (v ∷ parsed) (fetches p s n r rest) =
      read_one b v blocks parsed p (read-Follows blocks parsed rest)

pub parse-store_secrets :
    (m : Models) (limits : Limits) (d : PipelineDefinition) (p : ValidatedPipeline)
    → NullsBack m
    → validate_definition m limits d ≡ accepted p
    → parse_definition m (store_secrets p) ≡ readable (parsed_of d p)
unfolding parse_definition store_secrets
parse-store_secrets m limits d p back h = rw (validate_stored m limits d p h) (
    rw (read-Chain m back d.inputs d.first d.rest p.blocks (validate-IsValid m limits d p h).chain)
      refl)
