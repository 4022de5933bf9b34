-- ===== src/ValidateRules/Checks.antt =====
-- _check and failures of llm-worker/worker/rules.py.
use scrapeflow.Base.{
  ℕ, suc, ◌^◌, ◌%◌, ◌-◌, Bool, true, false, not, ◌||◌, Option, none, some, List, [], ◌∷◌, leb, ltb,
  ◌==◌, any, length, if◌then◌else◌, same_text, startswith,
}
use scrapeflow.ValidateRules.Json.{
  Number, integer, float, nan, infinity, Json, null, boolean, number, string, array, object,
  num_less, num_same,
}
use scrapeflow.ValidateRules.Pointer.{resolve}

pub data TypeName : Type 0 where
  string_type number_type integer_type boolean_type object_type array_type null_type : TypeName

pub data CompareOp : Type 0 where
  op_eq op_ne op_lt op_le op_gt op_ge : CompareOp

-- CompareRule.value
pub data Scalar : Type 0 where
  null_value : Scalar
  boolean_value : Bool → Scalar
  number_value : Number → Scalar
  string_value : List ℕ → Scalar

pub data Rule : Type 0 where
  json_schema_rule : ℕ → Rule
  present_rule : List ℕ → Rule
  type_rule : List ℕ → TypeName → Rule
  compare_rule : List ℕ → CompareOp → Scalar → Rule
  contains_rule : List ℕ → Rule
  min_length_rule : ℕ → Rule

-- json.loads (none for a ValueError), and whether a value meets a schema that is one.
pub record Library : Type 0 where
  pub loads : List ℕ → Option Json
  pub meets : ℕ → Json → Bool

-- A rule's check: it passes, it fails, or it raises an OverflowError.
pub data Verdict : Type 0 where
  passes fails overflows : Verdict

abbrev pub verdict_of : Bool → Verdict
verdict_of true = passes
verdict_of false = fails

abbrev pub is_number : Json → Bool
is_number (number n) = true
is_number v = false

-- An int that is rounded to 2 ^ 1024 or more is no float.
unfoldable pub float_limit : ℕ
float_limit = 2 ^ 1024 - 2 ^ 970

-- `float(v).is_integer()`
unfoldable pub is_integer : Number → Verdict
is_integer (integer b n) = if ltb n float_limit then passes else overflows
is_integer (float b m k) = verdict_of (m % 2 ^ k == 0)
is_integer nan = fails
is_integer (infinity b) = fails

-- `_json_type(v) == expected`, for the types that are not "number" and "integer".
unfoldable pub is_type : Json → TypeName → Verdict
unfolding is_integer
is_type v number_type = verdict_of (is_number v)
is_type (number n) integer_type = is_integer n
is_type null null_type = passes
is_type (boolean b) boolean_type = passes
is_type (string s) string_type = passes
is_type (array es) array_type = passes
is_type (object ms) object_type = passes
is_type v t = fails

abbrev same_bool : Bool → Bool → Bool
same_bool true b = b
same_bool false b = not b

-- _equal
unfoldable pub equal : Json → Scalar → Bool
equal (number n) (number_value m) = num_same n m
equal null null_value = true
equal (boolean a) (boolean_value b) = same_bool a b
equal (string s) (string_value t) = same_text s t
equal v w = false

-- _ORDERED, and the operators that are not in it.
unfoldable pub ordered : CompareOp → Number → Number → Bool
ordered op_lt a b = num_less a b
ordered op_le a b = num_less a b || num_same a b
ordered op_gt a b = num_less b a
ordered op_ge a b = num_less b a || num_same a b
ordered _ a b = false

abbrev pub ordered_values : CompareOp → Json → Scalar → Bool
ordered_values op (number a) (number_value b) = ordered op a b
ordered_values op v w = false

unfoldable pub compare_values : CompareOp → Json → Scalar → Bool
unfolding equal ordered
compare_values op_eq v w = equal v w
compare_values op_ne v w = not (equal v w)
compare_values op v w = ordered_values op v w

-- rule.text in text
unfoldable pub contains_text : List ℕ → List ℕ → Bool
contains_text part [] = startswith [] part
contains_text part (c ∷ text) = startswith (c ∷ text) part || contains_text part text

abbrev pub present : Option Json → Verdict
present none = fails
present (some v) = passes

abbrev pub of_type : Option Json → TypeName → Verdict
of_type none t = fails
of_type (some v) t = is_type v t

abbrev pub compares : Option Json → CompareOp → Scalar → Verdict
compares none op w = fails
compares (some v) op w = verdict_of (compare_values op v w)

unfoldable pub check : Library → Rule → List ℕ → Json → Verdict
unfolding is_type compare_values contains_text resolve
check l (contains_rule part) text doc = verdict_of (contains_text part text)
check l (min_length_rule chars) text doc = verdict_of (leb chars (length text))
check l (json_schema_rule schema) text doc = verdict_of (l.meets schema doc)
check l (present_rule path) text doc = present (resolve doc path)
check l (type_rule path t) text doc = of_type (resolve doc path) t
check l (compare_rule path op w) text doc = compares (resolve doc path) op w

-- isinstance(rule, _JSON_RULES)
abbrev pub reads_json : Rule → Bool
reads_json (contains_rule part) = false
reads_json (min_length_rule chars) = false
reads_json rule = true

pub data Failures : Type 0 where
  not_json : Failures
  -- the rules that failed, by their index
  failed : List ℕ → Failures
  overflow_error : Failures

abbrev pub add_failure : ℕ → Verdict → Failures → Failures
add_failure i overflows rest = overflow_error
add_failure i passes rest = rest
add_failure i fails (failed is) = failed (i ∷ is)
add_failure i fails rest = rest

unfoldable pub check_from : Library → ℕ → List Rule → List ℕ → Json → Failures
unfolding check
check_from l i [] text doc = failed []
check_from l i (rule ∷ rules) text doc =
    add_failure i (check l rule text doc) (check_from l (suc i) rules text doc)

abbrev pub check_loaded : Library → List Rule → List ℕ → Option Json → Failures
check_loaded l rules text none = not_json
check_loaded l rules text (some doc) = check_from l 0 rules text doc

unfoldable pub failures : Library → List Rule → List ℕ → Failures
unfolding check_from
failures l rules text =
    if any reads_json rules
    then check_loaded l rules text (l.loads text)
    else check_from l 0 rules text null
