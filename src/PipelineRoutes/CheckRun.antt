-- ===== src/PipelineRoutes/CheckRun.antt =====
-- The checks of create_run (api/app/routers/pipelines.py).
use scrapeflow.Base.{
  ℕ, Bool, true, false, not, ◌&&◌, Option, none, some, List, [], ◌∷◌, ◌++◌, String, map, any,
  filter, contains, same_text, ltb, ◌==◌, if◌then◌else◌,
}
use scrapeflow.Calendar.{Datetime}
use scrapeflow.Catalog.{Config, scrape_config, webhook_config, llm_extract_config}
use scrapeflow.Validator.{Models}
use scrapeflow.Definition.{ParsedDefinition, Read, readable, unreadable, parse_definition}
use scrapeflow.Quota.{Settings, admit}
use scrapeflow.PipelineWorkflow.Calls.{RunBlock}
use scrapeflow.Security.{Resolver, validate_no_ssrf}
use scrapeflow.PipelineRoutes.{
  UserLlmKey, Tables, Message, missing_input, unexpected_input, cannot_be_run, no_llm_key, Problem,
  unprocessable, ssrf, key_error, quota_exceeded, Checked, refused, passed, ◌>>=◌, ◌>>◌,
  version_to_run,
}

-- A run input: its name and its value, a URL.
abbrev pub Inputs : Type 0
Inputs = List (List ℕ × ℕ)

pub record PipelineRunCreate : Type 0 where
  pub version : Option ℕ
  pub inputs : Inputs

-- What the request meets.
pub record Env : Type 0 where
  pub settings : Settings
  pub storage_headroom_bytes : ℕ
  pub models : Models
  pub resolver : Resolver
  -- the name in the InputBinding, or none for a URL
  pub binding : ℕ → Option (List ℕ)
  -- uuid4: of the run, and of the block at each position
  pub run_id : ℕ
  pub block_id : ℕ → ℕ
  pub now : Datetime
  -- temporal.start_workflow: the text of what it raises, and when
  pub start_workflow : Option (String × ℕ)

-- Names by code points.
abbrev before : List ℕ → List ℕ → Bool
before s [] = false
before [] (b ∷ t) = true
before (a ∷ s) (b ∷ t) = let rest = before s t in if a == b then rest else ltb a b

-- A set's members in order.
abbrev pub insert_name : List ℕ → List (List ℕ) → List (List ℕ)
insert_name n [] = n ∷ []
insert_name n (m ∷ ms) =
    let rest = insert_name n ms in
    if same_text n m then m ∷ ms else if before n m then n ∷ m ∷ ms else m ∷ rest

abbrev pub sorted : List (List ℕ) → List (List ℕ)
sorted [] = []
sorted (n ∷ ns) = insert_name n (sorted ns)

abbrev pub has_name : List (List ℕ) → List ℕ → Bool
has_name names n = any (λ m. same_text m n) names

abbrev pub minus : List (List ℕ) → List (List ℕ) → List (List ℕ)
minus names others = filter (λ n. not (has_name others n)) names

abbrev pub names_of : Inputs → List (List ℕ)
names_of inputs = map (λ i. i.0) inputs

abbrev of_run : Message → Problem
of_run m = record { block_id = none; message = m }

unfoldable pub input_problems : List (List ℕ) → Inputs → List Problem
input_problems declared inputs =
    map (λ n. of_run (missing_input n)) (sorted (minus declared (names_of inputs)))
    ++ map (λ n. of_run (unexpected_input n)) (sorted (minus (names_of inputs) declared))

abbrev pub value_of : Inputs → List ℕ → Option ℕ
value_of [] n = none
value_of ((m, v) ∷ inputs) n =
    let rest = value_of inputs n in if same_text m n then some v else rest

-- The 422 where there is a problem.
abbrev pub refuse : List Problem → Checked (Unit {0})
refuse [] = passed tt
refuse (p ∷ problems) = refused (unprocessable (p ∷ problems))

-- parse_definition, with the problems of a version that is unreadable.
abbrev pub parsed_or_refuse : Read → Checked ParsedDefinition
parsed_or_refuse (readable p) = passed p
parsed_or_refuse (unreadable problems) = refused (
    unprocessable (map (λ p. record { block_id = some p.0; message = cannot_be_run p.1 }) problems))

unfoldable pub ssrf_check : Resolver → ℕ → Checked (Unit {0})
unfolding validate_no_ssrf
ssrf_check r url = elim (validate_no_ssrf r url) [ none ↦ passed tt | some s ↦ refused (ssrf s) ]

-- The URLs of a block that are checked before its activity: the one that a scrape fetches, and the
-- one that a webhook calls.
abbrev pub checked_url : Env → Inputs → Config → Checked (Option ℕ)
checked_url e inputs (scrape_config c) = elim (e.binding c.url) [
  | none ↦ passed (some c.url)
  | some name ↦ elim (value_of inputs name) [
    | none ↦ refused key_error
    | some url ↦ passed (some url)
  ]
]
checked_url e inputs (webhook_config c) = passed (some c.url)
checked_url e inputs _ = passed none

abbrev pub check_optional : Resolver → Option ℕ → Checked (Unit {0})
check_optional r none = passed tt
check_optional r (some url) = ssrf_check r url

unfoldable pub check_block : Env → Inputs → RunBlock → Checked (Unit {0})
unfolding ssrf_check
check_block e inputs b = checked_url e inputs b.config >>= check_optional e.resolver

unfoldable pub check_blocks : Env → Inputs → List RunBlock → Checked (Unit {0})
unfolding check_block
check_blocks e inputs [] = passed tt
check_blocks e inputs (b ∷ blocks) =
    let rest = check_blocks e inputs blocks in check_block e inputs b >> rest

-- The key that an LLM block uses.
abbrev pub llm_key : RunBlock → Option ℕ
llm_key b = elim b.config [ llm_extract_config c ↦ some c.llm_key_id | _ ↦ none ]

abbrev pub llm_keys : List RunBlock → List ℕ
llm_keys [] = []
llm_keys (b ∷ blocks) =
    let rest = llm_keys blocks in elim (llm_key b) [ none ↦ rest | some k ↦ k ∷ rest ]

-- _owned_keys: no query where there is no key, which would select no row.
unfoldable pub owned_keys : Tables → ℕ → List ℕ → List UserLlmKey
owned_keys t user ids = filter (λ k. contains k.id ids && (k.user_id == user)) t.llm_keys

abbrev pub has_key : List UserLlmKey → ℕ → Bool
has_key keys id = any (λ k. k.id == id) keys

abbrev pub lacks_key : List UserLlmKey → RunBlock → Bool
lacks_key keys b = elim (llm_key b) [ none ↦ false | some id ↦ not (has_key keys id) ]

unfoldable pub key_problems : List UserLlmKey → List RunBlock → List Problem
key_problems keys blocks =
    map (λ b. record { block_id = some b.id; message = no_llm_key })
      (filter (lacks_key keys) blocks)

unfoldable pub check_keys : Resolver → List UserLlmKey → Checked (Unit {0})
unfolding ssrf_check
check_keys r [] = passed tt
check_keys r (k ∷ keys) = let rest = check_keys r keys in check_optional r k.base_url >> rest

-- What the checks leave to start.
pub record Startable : Type 0 where
  pub pipeline_id : ℕ
  pub version_id : ℕ
  pub parsed : ParsedDefinition
  pub keys : List UserLlmKey

abbrev pub admitted : Env → Tables → ℕ → Checked (Unit {0})
admitted e t user = elim (admit e.settings t.quota user e.now 1 true e.storage_headroom_bytes) [
  | none ↦ passed tt
  | some detail ↦ refused (quota_exceeded detail)
]

-- create_run up to the run's id.
unfoldable pub check_run : Env → Tables → ℕ → ℕ → PipelineRunCreate → Checked Startable
unfolding version_to_run parse_definition input_problems check_blocks owned_keys key_problems
    check_keys admit
check_run e t user pipeline body = do
  row ← version_to_run t user pipeline body.version
  parsed ← parsed_or_refuse (parse_definition e.models row.1.definition)
  refuse (input_problems parsed.inputs body.inputs)
  check_blocks e body.inputs parsed.blocks
  let keys = owned_keys t user (llm_keys parsed.blocks)
  refuse (key_problems keys parsed.blocks)
  check_keys e.resolver keys
  admitted e t user
  passed (record { pipeline_id = row.0.id; version_id = row.1.id; parsed = parsed; keys = keys })
