-- ===== src/PipelineRoutes/Definitions.antt =====
-- The routes that save definitions (api/app/routers/pipelines.py): create_pipeline, update_pipeline,
-- delete_pipeline. Of _store_secrets the rewrite of the configs is modelled; the ciphertexts that it
-- puts beside them, under `secrets`, are left out. uuids come with the request. An update
-- reads and commits at two times, so its plan may be stale when it commits.
use scrapeflow.Base.{
  ℕ, suc, Bool, true, false, not, ◌&&◌, Option, none, some, List, [], ◌∷◌, ◌++◌, map, any, all,
  filter, count, leb, ◌==◌, if◌then◌else◌,
}
use scrapeflow.Catalog.{
  Config, scrape_config, webhook_config, llm_extract_config, BlockType, scrape, webhook, type_of,
}
use scrapeflow.Validator.{
  PipelineDefinition, Models, Limits, ValidatedBlock, FieldName, url, field, RawValue, literal,
  RawConfig,
}
use scrapeflow.Validator.Rules.{
  StoredBlock, StoredDefinition, ValidatedPipeline, Verdict, validate_definition,
}
use scrapeflow.Security.{Resolver}
use scrapeflow.PipelineRoutes.{
  Pipeline, PipelineVersion, Tables, Refusal, not_found, invalid, pipeline_limit, name_in_use,
  updated_meanwhile, row_gone, Checked, refused, passed, ◌>>=◌, ◌>>◌, owned_pipeline, or_refuse,
}
use scrapeflow.PipelineRoutes.CheckRun.{ssrf_check, owned_keys, has_key, check_keys}

-- What a request that saves a definition meets.
pub record SaveEnv : Type 0 where
  pub limits : Limits
  pub max_pipelines_per_user : ℕ
  pub resolver : Resolver
  -- whether a url binds a run input
  pub is_bound : ℕ → Bool
  -- == on stored definitions
  pub same : StoredDefinition → StoredDefinition → Bool
  pub pipeline_id : ℕ
  pub version_id : ℕ

abbrev pub config_keys : List ValidatedBlock → List ℕ
config_keys [] = []
config_keys (b ∷ blocks) =
    let rest = config_keys blocks in
    elim b.config [ llm_extract_config c ↦ c.llm_key_id ∷ rest | _ ↦ rest ]

abbrev check_url : SaveEnv → Config → Checked (Unit {0})
check_url e (scrape_config c) = if e.is_bound c.url then passed tt else ssrf_check e.resolver c.url
check_url e (webhook_config c) = ssrf_check e.resolver c.url
check_url e _ = passed tt

unfoldable pub check_urls : SaveEnv → List ValidatedBlock → Checked (Unit {0})
unfolding ssrf_check
check_urls e [] = passed tt
check_urls e (b ∷ blocks) = let rest = check_urls e blocks in check_url e b.config >> rest

abbrev pub or_raise : Bool → Refusal → Checked (Unit {0})
or_raise true r = passed tt
or_raise false r = refused r

-- The secret fields of the catalogue's types, in order: the numbers stand for the names `cookies`,
-- `proxy_url` and `secret`.
abbrev pub secret_fields : BlockType → List FieldName
secret_fields scrape = field 0 ∷ field 1 ∷ []
secret_fields webhook = field 2 ∷ []
secret_fields _ = []

abbrev same_field : FieldName → FieldName → Bool
same_field url url = true
same_field (field i) (field j) = i == j
same_field _ _ = false

-- None
abbrev null : RawValue
null = literal 0

-- config[name] = None
abbrev pub set_null : FieldName → RawConfig → RawConfig
set_null name [] = (name, null) ∷ []
set_null name (f ∷ fs) =
    let rest = set_null name fs in if same_field f.0 name then (name, null) ∷ fs else f ∷ rest

abbrev pub set_nulls : List FieldName → RawConfig → RawConfig
set_nulls [] config = config
set_nulls (name ∷ names) config = set_nulls names (set_null name config)

-- zip(stored["blocks"], validated.blocks)
unfoldable pub null_secrets : List StoredBlock → List ValidatedBlock → List StoredBlock
null_secrets (b ∷ blocks) (v ∷ parsed) =
    record b { config = set_nulls (secret_fields (type_of v.config)) b.config }
    ∷ null_secrets blocks parsed
null_secrets _ _ = []

unfoldable pub store_secrets : ValidatedPipeline → StoredDefinition
unfolding null_secrets
store_secrets p = record p.definition { blocks = null_secrets p.definition.blocks p.blocks }

-- _prepare_definition, behind validate.
unfoldable pub prepare_valid : SaveEnv → Tables → ℕ → ValidatedPipeline → Checked StoredDefinition
unfolding owned_keys check_urls check_keys store_secrets
prepare_valid e t user p = do
  let ids = config_keys p.blocks
  let keys = owned_keys t user ids
  or_raise (all (has_key keys) ids) not_found
  check_urls e p.blocks
  check_keys e.resolver keys
  passed (store_secrets p)

abbrev pub valid_or_refuse : Verdict → Checked ValidatedPipeline
valid_or_refuse (Verdict.accepted p) = passed p
valid_or_refuse (Verdict.refused problems) = refused (invalid problems)

unfoldable pub prepare_definition :
    Models → SaveEnv → Tables → ℕ → PipelineDefinition → Checked StoredDefinition
unfolding validate_definition prepare_valid
prepare_definition m e t user d =
    valid_or_refuse (validate_definition m e.limits d) >>= prepare_valid e t user

-- uq_pipelines_user_id_name, which a deleted pipeline holds too.
abbrev pub name_taken : ℕ → ℕ → ℕ → List Pipeline → Bool
name_taken user id name pipelines =
    any (λ p. (p.user_id == user) && (p.name == name) && not (p.id == id)) pipelines

-- The commit of a new pipeline and its first version.
unfoldable pub insert_pipeline :
    SaveEnv → ℕ → ℕ → StoredDefinition → Tables → Tables × Checked (Unit {0})
insert_pipeline e user name d t =
    if name_taken user e.pipeline_id name t.pipelines then (t, refused name_in_use) else (
      record t {
        pipelines =
            t.pipelines
            ++ record { id = e.pipeline_id; user_id = user; name = name; is_deleted = false } ∷ [];
        versions =
            t.versions
            ++ record {
              id = e.version_id;
              pipeline_id = e.pipeline_id;
              version = 1;
              definition = d;
            }
              ∷ [];
      },
      passed tt,
    )

unfoldable pub insert_prepared :
    SaveEnv → ℕ → ℕ → Checked StoredDefinition → Tables → Tables × Checked (Unit {0})
unfolding insert_pipeline
insert_prepared e user name (refused r) t = (t, refused r)
insert_prepared e user name (passed d) t = insert_pipeline e user name d t

unfoldable pub create_pipeline :
    Models → SaveEnv → Tables → ℕ → ℕ → PipelineDefinition → Tables × Checked (Unit {0})
unfolding prepare_definition insert_prepared
create_pipeline m e t user name d =
    let held = count (λ p. (p.user_id == user) && not p.is_deleted) t.pipelines in
    if leb e.max_pipelines_per_user held
    then (t, refused (pipeline_limit held))
    else insert_prepared e user name (prepare_definition m e t user d) t

pub record PipelineUpdate : Type 0 where
  pub name : Option ℕ
  pub definition : Option PipelineDefinition

-- What an update commits: the new name, and the new version's number and definition.
pub record Plan : Type 0 where
  pub pipeline_id : ℕ
  pub name : Option ℕ
  pub version : Option (ℕ × StoredDefinition)

abbrev pub next_version :
    SaveEnv → PipelineVersion → StoredDefinition → Option (ℕ × StoredDefinition)
next_version e v d = if e.same d v.definition then none else some (suc v.version, d)

abbrev pub plan_version :
    Models
    → SaveEnv
    → Tables
    → ℕ
    → PipelineVersion
    → Option PipelineDefinition
    → Checked (Option (ℕ × StoredDefinition))
plan_version m e t user v none = passed none
plan_version m e t user v (some d) =
    prepare_definition m e t user d >>= λ stored. passed (next_version e v stored)

-- The name where it changes.
abbrev new_name : ℕ → Option ℕ → Option ℕ
new_name old none = none
new_name old (some name) = if name == old then none else some name

-- update_pipeline, up to its commit.
unfoldable pub plan_update : Models → SaveEnv → Tables → ℕ → ℕ → PipelineUpdate → Checked Plan
unfolding owned_pipeline prepare_definition
plan_update m e t user id body = do
  row ← or_refuse not_found (owned_pipeline t user id)
  version ← plan_version m e t user row.1 body.definition
  passed
      (record { pipeline_id = row.0.id; name = new_name row.0.name body.name; version = version })

abbrev pub version_taken : ℕ → Option (ℕ × StoredDefinition) → List PipelineVersion → Bool
version_taken id none versions = false
version_taken id (some (n, d)) versions =
    any (λ v. (v.pipeline_id == id) && (v.version == n)) versions

abbrev pub new_versions : SaveEnv → ℕ → Option (ℕ × StoredDefinition) → List PipelineVersion
new_versions e id none = []
new_versions e id (some (n, d)) =
    record { id = e.version_id; pipeline_id = id; version = n; definition = d } ∷ []

abbrev rename : ℕ → Option ℕ → Pipeline → Pipeline
rename id none p = p
rename id (some name) p = if p.id == id then record p { name = name } else p

abbrev pub is_unchanged : Option ℕ → Option (ℕ × StoredDefinition) → Bool
is_unchanged none none = true
is_unchanged _ _ = false

abbrev pub renaming_taken : ℕ → ℕ → Option ℕ → List Pipeline → Bool
renaming_taken user id none pipelines = false
renaming_taken user id (some name) pipelines = name_taken user id name pipelines

-- The commit of an update, if it changes anything: its row may be gone, its name or its number
-- taken meanwhile.
unfoldable pub commit_update : SaveEnv → ℕ → Plan → Tables → Tables × Checked (Unit {0})
commit_update e user plan t =
    if is_unchanged plan.name plan.version
    then (t, passed tt)
    else if not (any (λ p. p.id == plan.pipeline_id) t.pipelines)
    then (t, refused row_gone)
    else if renaming_taken user plan.pipeline_id plan.name t.pipelines
    then (t, refused name_in_use)
    else if version_taken plan.pipeline_id plan.version t.versions
    then (t, refused updated_meanwhile)
    else (
      record t {
        pipelines = map (rename plan.pipeline_id plan.name) t.pipelines;
        versions = t.versions ++ new_versions e plan.pipeline_id plan.version;
      },
      passed tt,
    )

abbrev set_deleted : ℕ → Pipeline → Pipeline
set_deleted id p = if p.id == id then record p { is_deleted = true } else p

abbrev pub has_runs : ℕ → Tables → Bool
has_runs id t = any (λ r. r.pipeline_id == id) t.runs

-- A pipeline without runs goes with its versions (ON DELETE CASCADE); one with runs is kept.
unfoldable pub delete_owned :
    Tables → ℕ → Option (Pipeline × PipelineVersion) → Tables × Checked (Unit {0})
delete_owned t id none = (t, refused not_found)
delete_owned t id (some row) =
    if has_runs id t
    then (record t { pipelines = map (set_deleted id) t.pipelines }, passed tt)
    else (
      record t {
        pipelines = filter (λ p. not (p.id == id)) t.pipelines;
        versions = filter (λ v. not (v.pipeline_id == id)) t.versions;
      },
      passed tt,
    )

unfoldable pub delete_pipeline : Tables → ℕ → ℕ → Tables × Checked (Unit {0})
unfolding owned_pipeline delete_owned
delete_pipeline t user id = delete_owned t id (owned_pipeline t user id)
