-- ===== src/ValidateRules/Meaning.antt =====
-- What the rules of a Validate block mean.
use scrapeflow.Base.{
  ℕ, ◌^◌, ◌%◌, ◌≤◌, ◌≡◌, ◌↔◌, refl, ap, arith, Bool, true, false, List, [], ◌∷◌, ◌++◌, length,
  startswith, Bool-cases, inl, inr, ltb,
}
use scrapeflow.ValidateRules.Json.{
  Number, integer, float, Json, null, boolean, number, string, array, object, Elements, Members,
}
use scrapeflow.ValidateRules.Order.{Compares}
use scrapeflow.ValidateRules.Resolves.{PointsTo}
use scrapeflow.ValidateRules.Checks.{
  TypeName, string_type, number_type, integer_type, boolean_type, object_type, array_type,
  null_type, Rule, json_schema_rule, present_rule, type_rule, compare_rule, contains_rule,
  min_length_rule, Library, passes, overflows, verdict_of, is_integer, is_type, contains_text,
  float_limit,
}

-- The JSON types. An integer is a number with no fraction.
pub data HasType : Json → TypeName → Type 0 where
  null_has : HasType null null_type
  boolean_has : {b : Bool} → HasType (boolean b) boolean_type
  string_has : {s : List ℕ} → HasType (string s) string_type
  array_has : {es : Elements} → HasType (array es) array_type
  object_has : {ms : Members} → HasType (object ms) object_type
  number_has : {n : Number} → HasType (number n) number_type
  integer_has : {b : Bool} {n : ℕ} → HasType (number (integer b n)) integer_type
  whole_has : {b : Bool} {m k : ℕ} → m % 2 ^ k ≡ 0 → HasType (number (float b m k)) integer_type

pub type_HasType : (v : Json) (t : TypeName) → is_type v t ≡ passes → HasType v t
unfolding is_type is_integer
type_HasType null null_type h = null_has
type_HasType (boolean b) boolean_type h = boolean_has
type_HasType (string s) string_type h = string_has
type_HasType (array es) array_type h = array_has
type_HasType (object ms) object_type h = object_has
type_HasType (number n) number_type h = number_has
type_HasType (number (integer b n)) integer_type h = integer_has
type_HasType (number (float b m k)) integer_type h = whole_has (ground arith)
type_HasType v t h = cc

pub HasType-type :
    {v : Json} {t : TypeName} → ¬ (is_type v t ≡ overflows) → HasType v t → is_type v t ≡ passes
unfolding is_type is_integer
HasType-type n null_has = refl
HasType-type n boolean_has = refl
HasType-type n string_has = refl
HasType-type n array_has = refl
HasType-type n object_has = refl
HasType-type n number_has = refl
HasType-type n (integer_has {n = k}) = elim (Bool-cases (ltb k float_limit)) [
  | inl e ↦ rw e refl
  | inr e ↦ absurd (n (rw e refl))
]
HasType-type n (whole_has h) = ground arith

-- What each rule asks of the text and of the value it holds.
abbrev pub Holds : Library → List ℕ → Json → Rule → Type 0
Holds l text doc (contains_rule part) = (before after : List ℕ) × (text ≡ before ++ (part ++ after))
Holds l text doc (min_length_rule chars) = chars ≤ length text
Holds l text doc (json_schema_rule schema) = l.meets schema doc ≡ true
Holds l text doc (present_rule path) = (v : Json) × PointsTo doc path v
Holds l text doc (type_rule path t) = (v : Json) × PointsTo doc path v × HasType v t
Holds l text doc (compare_rule path op w) = (v : Json) × PointsTo doc path v × Compares op v w

pub verdict_passes : (b : Bool) → (verdict_of b ≡ passes) ↔ (b ≡ true)
verdict_passes true = (λ h. refl, λ h. refl)
verdict_passes false = (λ h. cc, λ h. cc)

startswith_append :
    (text part : List ℕ) → startswith text part ≡ true → (after : List ℕ) × (text ≡ part ++ after)
startswith_append text [] h = (text, refl)
startswith_append [] (c ∷ part) h = cc
startswith_append (d ∷ text) (c ∷ part) h =
    let (after, e) = startswith_append text part (ground arith) in
    let same : d ≡ c = ground arith in (after, rw (same, e) refl)

append_startswith : (part after : List ℕ) → startswith (part ++ after) part ≡ true
append_startswith [] after = refl
append_startswith (c ∷ part) after = ground (arith, append_startswith part after)

pub found_contains :
    (part text : List ℕ)
    → contains_text part text ≡ true
    → (before after : List ℕ) × (text ≡ before ++ (part ++ after))
unfolding contains_text
found_contains part [] h = let (after, e) = startswith_append [] part h in ([], after, e)
found_contains part (c ∷ text) h = elim (Bool-cases (startswith (c ∷ text) part)) [
  | inl e ↦ (let (after, f) = startswith_append (c ∷ text) part e in ([], after, f))
  | inr e ↦
      (let (before, after, f) = found_contains part text (ground arith) in
        (c ∷ before, after, ap (λ s. c ∷ s) f))
]

contains_here : (part after : List ℕ) → contains_text part (part ++ after) ≡ true
unfolding contains_text
contains_here [] [] = refl
contains_here [] (c ∷ after) = refl
contains_here (c ∷ part) after = ground (arith, append_startswith part after)

pub contains_found :
    (part before after : List ℕ) → contains_text part (before ++ (part ++ after)) ≡ true
unfolding contains_text
contains_found part [] after = contains_here part after
contains_found part (c ∷ before) after = ground (arith, contains_found part before after)
