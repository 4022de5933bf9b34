-- ===== src/Catalog.antt =====
-- The block catalogue (api/app/pipelines/catalog.py): the block types, what they consume and
-- produce, their time budgets, and the checks on a config that its model makes by itself. A literal
-- value, a key or a schema is a number. Seconds are whole, and so are the catalogue's backoff
-- coefficients, which makes the ceiling of the waits' sum that sum.
pub mod Budget
mod Examples
use scrapeflow.Base.{
  ℕ, zero, suc, ◌+◌, ◌-◌, ◌*◌, ◌^◌, Bool, true, false, not, ◌&&◌, ◌||◌, Option, none, some, List,
  [], ◌∷◌, if◌then◌else◌, any, all, sum_by, min, get_or, ◌==◌,
}

-- What a block's output object holds.
pub data Ref : Type 0 where
  page_html page_markdown page_json extraction : Ref

abbrev pub is_page : Ref → Bool
is_page extraction = false
is_page _ = true

-- JSON_DOCUMENTS
abbrev pub is_json_document : Ref → Bool
is_json_document page_json = true
is_json_document extraction = true
is_json_document _ = false

pub data OutputFormat : Type 0 where
  html markdown json : OutputFormat

pub data Engine : Type 0 where
  http playwright : Engine

pub data RuleKind : Type 0 where
  json_schema present type_of_value compare_value contains_text min_length : RuleKind

pub data CompareOp : Type 0 where
  op_eq op_ne op_lt op_le op_gt op_ge : CompareOp

-- What the checks read of a rule: its kind, the operator and whether the value is a number other
-- than a Boolean (CompareRule), and the schema (JsonSchemaRule).
pub record Rule : Type 0 where
  pub kind : RuleKind
  pub op : CompareOp
  pub value_is_number : Bool
  pub schema : ℕ

pub record ScrapeConfig : Type 0 where
  pub url : ℕ
  pub output_format : OutputFormat
  pub engine : Engine
  -- playwright_options.timeout_seconds
  pub playwright_timeout : Option ℕ
  pub actions : List ℕ

pub record LlmExtractConfig : Type 0 where
  pub llm_key_id : ℕ
  pub model : ℕ
  pub output_schema : ℕ

pub record WebhookConfig : Type 0 where
  pub url : ℕ
  pub secret : Option ℕ

pub data Config : Type 0 where
  scrape_config : ScrapeConfig → Config
  clean_config : Config
  llm_extract_config : LlmExtractConfig → Config
  validate_config : List Rule → Config
  webhook_config : WebhookConfig → Config

pub data BlockType : Type 0 where
  scrape clean llm_extract validate webhook : BlockType

abbrev pub type_of : Config → BlockType
type_of (scrape_config c) = scrape
type_of clean_config = clean
type_of (llm_extract_config c) = llm_extract
type_of (validate_config rules) = validate
type_of (webhook_config c) = webhook

pub data Kind : Type 0 where
  content effect : Kind

abbrev pub kind : BlockType → Kind
kind validate = effect
kind webhook = effect
kind _ = content

-- `is_source`: it consumes nothing.
abbrev pub is_source : BlockType → Bool
is_source scrape = true
is_source _ = false

abbrev pub consumes : BlockType → Ref → Bool
consumes scrape ref = false
consumes clean page_html = true
consumes clean _ = false
consumes llm_extract ref = is_page ref
consumes validate ref = true
consumes webhook ref = true

abbrev pub page_of : OutputFormat → Ref
page_of html = page_html
page_of markdown = page_markdown
page_of json = page_json

-- `none` is the assertion in _pass_through on a block without input.
abbrev pub produces : Config → Option Ref → Option Ref
produces (scrape_config c) ref = some (page_of c.output_format)
produces clean_config ref = some page_markdown
produces (llm_extract_config c) ref = some extraction
produces (validate_config rules) ref = ref
produces (webhook_config c) ref = ref

abbrev is_json_rule : RuleKind → Bool
is_json_rule contains_text = false
is_json_rule min_length = false
is_json_rule _ = true

-- Whether a rule can be checked on this input: the problem of _validate_check_input is its absence.
abbrev pub rule_fits : Ref → Rule → Bool
rule_fits ref r = if is_json_rule r.kind then is_json_document ref else is_page ref

abbrev count_from : Ref → ℕ → List Rule → List ℕ
count_from ref i [] = []
count_from ref i (r ∷ rules) =
    let rest = count_from ref (suc i) rules in if rule_fits ref r then rest else i ∷ rest

-- The indices of the rules that do not fit.
unfoldable pub check_input : Config → Ref → List ℕ
check_input (validate_config rules) ref = count_from ref 0 rules
check_input _ ref = []

pub record Timing : Type 0 where
  pub start_to_close : ℕ
  pub maximum_attempts : ℕ
  pub initial_interval : ℕ
  pub backoff_coefficient : ℕ
  pub maximum_interval : ℕ
  pub heartbeat : Option ℕ
  pub schedule_to_start : ℕ
  pub host_slot : ℕ

-- sum(... for n in range(k))
abbrev pub waits : Timing → ℕ → ℕ
waits t zero = 0
waits t (suc n) =
    waits t n + min (t.initial_interval * t.backoff_coefficient ^ n) t.maximum_interval

unfoldable pub budget : Timing → ℕ
budget t =
    t.maximum_attempts * (t.schedule_to_start + t.start_to_close) + waits t (t.maximum_attempts - 1)

abbrev block_overhead_seconds : ℕ
block_overhead_seconds = 60

unfoldable pub need : Timing → ℕ
unfolding budget
need t = budget t + t.host_slot + block_overhead_seconds

-- _worker_retry with the default schedule_to_start and host_slot.
abbrev worker_retry : ℕ → Option ℕ → Timing
worker_retry seconds heartbeat = record {
  start_to_close = seconds;
  maximum_attempts = 3;
  initial_interval = 5;
  backoff_coefficient = 2;
  maximum_interval = 60;
  heartbeat = heartbeat;
  schedule_to_start = 60;
  host_slot = 0;
}

-- _scrape_timing; 60 seconds is PlaywrightOptions' default timeout.
abbrev scrape_timing : ScrapeConfig → Timing
scrape_timing c = elim c.engine [
  | playwright ↦ record (worker_retry (2 * get_or c.playwright_timeout 60 + 60) (some 90)) {
    schedule_to_start = 300;
    host_slot = 660;
  }
  | http ↦ record (worker_retry 90 none) { schedule_to_start = 300; host_slot = 660 }
]

unfoldable pub timing : Config → Timing
timing (scrape_config c) = scrape_timing c
timing clean_config = worker_retry 60 none
timing (llm_extract_config c) = worker_retry 400 (some 90)
timing (validate_config rules) = worker_retry 60 none
timing (webhook_config c) = record {
  start_to_close = 20;
  maximum_attempts = 5;
  initial_interval = 30;
  backoff_coefficient = 10;
  maximum_interval = 7200;
  heartbeat = none;
  schedule_to_start = 60;
  host_slot = 0;
}

unfoldable pub run_need_seconds : List Timing → ℕ
unfolding need
run_need_seconds timings = sum_by need timings

abbrev is_ordered_op : CompareOp → Bool
is_ordered_op op_eq = false
is_ordered_op op_ne = false
is_ordered_op _ = true

-- CompareRule._ordered_needs_number
abbrev rule_is_valid : Rule → Bool
rule_is_valid r = elim r.kind [
  | compare_value ↦ not (is_ordered_op r.op) || r.value_is_number
  | _ ↦ true
]

abbrev has_playwright_fields : ScrapeConfig → Bool
has_playwright_fields c = elim c.actions [
  | [] ↦ elim c.playwright_timeout [ none ↦ false | some t ↦ true ]
  | a ∷ as' ↦ true
]

-- The models' own validators: _playwright_only, _object_root (`is_object` tells the schemas with
-- `"type": "object"` at their root), and each rule's.
unfoldable pub config_is_valid : (ℕ → Bool) → Config → Bool
config_is_valid is_object (scrape_config c) = elim c.engine [
  | playwright ↦ true
  | http ↦ not (has_playwright_fields c)
]
config_is_valid is_object clean_config = true
config_is_valid is_object (llm_extract_config c) = is_object c.output_schema
config_is_valid is_object (validate_config rules) = all rule_is_valid rules
config_is_valid is_object (webhook_config c) = true
