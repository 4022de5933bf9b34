-- ===== src/ValidateRules/Examples.antt =====
-- A document with an array behind a key that has a slash.
use scrapeflow.Base.{
  ℕ, ◌≡◌, ◌↔◌, refl, arith, sym, ◌∙◌, true, false, Option, none, some, List, [], ◌∷◌, ◌++◌, ◌^◌,
}
use scrapeflow.ValidateRules.Json.{
  integer, float, Json, number, array, object, element, no_elements, member, no_members, num_less,
  num_same,
}
use scrapeflow.ValidateRules.Pointer.{resolve, tokens}
use scrapeflow.ValidateRules.RoundTrip.{print, tokens-print}
use scrapeflow.ValidateRules.Checks.{
  Library, Rule, type_rule, compare_rule, contains_rule, integer_type, op_ge, number_value,
  failures, compare_values, failed, overflow_error, float_limit,
}
use scrapeflow.ValidateRules.Holds.{Meets, failures-Meets}
use scrapeflow.ValidateRules.Resolves.{IsPointer}
use scrapeflow.ValidateRules.Order.{Compares, compare_values-Compares}

-- {"a/~": [7, 2.0]}
abbrev doc : Json
doc = object (
    member (97 ∷ 47 ∷ 126 ∷ [])
      (array (element (number (integer false 7)) (element (number (float false 4 1)) no_elements)))
      no_members)

abbrev text : List ℕ
text = 123 ∷ 125 ∷ []

abbrev library : Option Json → Library
library loaded = record { loads = λ t. loaded; meets = λ schema v. true }

-- /a~1~0/1
abbrev second : List ℕ
second = print ((97 ∷ 47 ∷ 126 ∷ []) ∷ (49 ∷ []) ∷ [])

printed : second ≡ 47 ∷ 97 ∷ 126 ∷ 49 ∷ 126 ∷ 48 ∷ 47 ∷ 49 ∷ []
printed = refl

resolves : resolve doc second ≡ some (number (float false 4 1))
unfolding resolve
resolves = refl

-- /a~1~0/01
leading_zero : resolve doc (print ((97 ∷ 47 ∷ 126 ∷ []) ∷ (48 ∷ 49 ∷ []) ∷ [])) ≡ none
unfolding resolve
leading_zero = refl

abbrev rules : List Rule
rules =
    contains_rule (125 ∷ [])
    ∷ type_rule second integer_type
    ∷ compare_rule second op_ge (number_value (integer false 2))
    ∷ []

meets : failures (library (some doc)) rules text ≡ failed []
unfolding failures num_less num_same
meets = refl

third_fails :
    failures
      (library (some doc))
      (rules ++ compare_rule second op_ge (number_value (integer false 3)) ∷ [])
      text
    ≡ failed (3 ∷ [])
unfolding failures num_less num_same
third_fails = refl

-- An integer that no float holds is not refused: float(v) raises.
too_large :
    failures
      (library (some (number (integer false (2 ^ 1024)))))
      (type_rule [] integer_type ∷ [])
      text
    ≡ overflow_error
unfolding failures float_limit
too_large = refl

compare_values-Compares_iff_example :
    (compare_values op_ge (number (float false 4 1)) (number_value (integer false 2)) ≡ true)
    ↔ Compares op_ge (number (float false 4 1)) (number_value (integer false 2))
compare_values-Compares_iff_example =
    compare_values-Compares op_ge (number (float false 4 1)) (number_value (integer false 2))

tokens-print_example : tokens second ≡ (97 ∷ 47 ∷ 126 ∷ []) ∷ (49 ∷ []) ∷ []
tokens-print_example = tokens-print ((97 ∷ 47 ∷ 126 ∷ []) ∷ (49 ∷ []) ∷ [])

second-IsPointer : IsPointer second
second-IsPointer = (
  (97 ∷ 47 ∷ 126 ∷ []) ∷ (49 ∷ []) ∷ [],
  refl,
  (
    omega arith,
    (
      omega arith,
      (omega arith, (omega arith, (omega arith, (omega arith, (omega arith, (omega arith, tt)))))),
    ),
  ),
)

rules_run : ¬ (failures (library (some doc)) rules text ≡ overflow_error)
rules_run h = let e = sym meets ∙ h in cc

failures-Meets_iff_example :
    (failures (library (some doc)) rules text ≡ failed []) ↔ Meets (library (some doc)) rules text
failures-Meets_iff_example =
    failures-Meets (library (some doc)) rules text (tt, (second-IsPointer, (second-IsPointer, tt)))
      rules_run
