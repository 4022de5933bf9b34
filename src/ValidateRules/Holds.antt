-- ===== src/ValidateRules/Holds.antt =====
-- When a text passes its rules.
use scrapeflow.Base.{
  ℕ, suc, ◌≡◌, ◌↔◌, refl, arith, true, false, Option, none, some, List, [], ◌∷◌, any, All,
  Bool-cases, inl, inr, Option-cases, sym, ◌∙◌,
}
use scrapeflow.ValidateRules.Json.{Json, null}
use scrapeflow.ValidateRules.Order.{Compares, compare_values-Compares}
use scrapeflow.ValidateRules.Pointer.{resolve}
use scrapeflow.ValidateRules.Resolves.{IsPointer, PointsTo, resolve-PointsTo}
use scrapeflow.ValidateRules.Checks.{
  TypeName, CompareOp, Scalar, Rule, json_schema_rule, present_rule, type_rule, compare_rule,
  contains_rule, min_length_rule, Library, Verdict, passes, fails, overflows, compare_values,
  present, of_type, compares, check, reads_json, Failures, not_json, failed, overflow_error,
  add_failure, check_from, failures,
}
use scrapeflow.ValidateRules.Meaning.{
  HasType, HasType-type, Holds, contains_found, found_contains, type_HasType, verdict_passes,
}

no_failure :
    (i : ℕ) (v : Verdict) (rest : Failures)
    → add_failure i v rest ≡ failed []
    → (v ≡ passes) × (rest ≡ failed [])
no_failure i passes rest h = (refl, h)
no_failure i overflows rest h = cc
no_failure i fails (failed is) h = cc
no_failure i fails not_json h = cc
no_failure i fails overflow_error h = cc

no_overflow :
    (i : ℕ) (v : Verdict) (rest : Failures)
    → ¬ (add_failure i v rest ≡ overflow_error)
    → (¬ (v ≡ overflows)) × (¬ (rest ≡ overflow_error))
no_overflow i passes rest n = (λ h. cc, n)
no_overflow i overflows rest n = absurd (n refl)
no_overflow i fails (failed is) n = (λ h. cc, λ h. cc)
no_overflow i fails not_json n = (λ h. cc, λ h. cc)
no_overflow i fails overflow_error n = absurd (n refl)

-- The rule's pointer, where it has one, is a JSON Pointer.
abbrev pub PointsWell : Rule → Type 0
PointsWell (present_rule path) = IsPointer path
PointsWell (type_rule path t) = IsPointer path
PointsWell (compare_rule path op w) = IsPointer path
PointsWell _ = Unit

module _ (l : Library) (text : List ℕ) (doc : Json) where
  present-passes :
      (path : List ℕ)
      → IsPointer path
      → (present (resolve doc path) ≡ passes) ↔ ((v : Json) × PointsTo doc path v)
  present-passes path ok =
      (forth (resolve doc path) refl, λ (v, p). rw ((resolve-PointsTo doc path v ok).1 p) refl)
    where
      forth :
          (o : Option Json)
          → resolve doc path ≡ o
          → present o ≡ passes
          → (v : Json) × PointsTo doc path v
      forth none e h = cc
      forth (some v) e h = (v, (resolve-PointsTo doc path v ok).0 e)

  type_passes :
      (path : List ℕ) (t : TypeName)
      → IsPointer path
      → ¬ (of_type (resolve doc path) t ≡ overflows)
      → (of_type (resolve doc path) t ≡ passes) ↔ ((v : Json) × PointsTo doc path v × HasType v t)
  type_passes path t ok n =
      (forth (resolve doc path) refl, λ (v, p, h). back v ((resolve-PointsTo doc path v ok).1 p) h)
    where
      forth :
          (o : Option Json)
          → resolve doc path ≡ o
          → of_type o t ≡ passes
          → (v : Json) × PointsTo doc path v × HasType v t
      forth none e h = cc
      forth (some v) e h = (v, (resolve-PointsTo doc path v ok).0 e, type_HasType v t h)

      back :
          (v : Json)
          → resolve doc path ≡ some v
          → HasType v t
          → of_type (resolve doc path) t ≡ passes
      back v e h = rw e (HasType-type (λ o. n (rw e o)) h)

  compare_passes :
      (path : List ℕ) (op : CompareOp) (w : Scalar)
      → IsPointer path
      → (compares (resolve doc path) op w ≡ passes)
        ↔ ((v : Json) × PointsTo doc path v × Compares op v w)
  compare_passes path op w ok = (
    forth (resolve doc path) refl,
    λ (v, p, h).
        rw ((resolve-PointsTo doc path v ok).1 p)
          ((verdict_passes (compare_values op v w)).1 ((compare_values-Compares op v w).1 h)),
  )
    where
      forth :
          (o : Option Json)
          → resolve doc path ≡ o
          → compares o op w ≡ passes
          → (v : Json) × PointsTo doc path v × Compares op v w
      forth none e h = cc
      forth (some v) e h = (
        v,
        (resolve-PointsTo doc path v ok).0 e,
        (compare_values-Compares op v w).0 ((verdict_passes (compare_values op v w)).0 h),
      )

  check-Holds :
      (r : Rule)
      → PointsWell r
      → ¬ (check l r text doc ≡ overflows)
      → (check l r text doc ≡ passes) ↔ Holds l text doc r
  unfolding check
  check-Holds (contains_rule part) ok n = (
    λ h. found_contains part text (ground (arith, h)),
    λ (before, after, e). rw (e, contains_found part before after) refl,
  )
  check-Holds (min_length_rule chars) ok n = (λ h. ground arith, λ h. ground arith)
  check-Holds (json_schema_rule schema) ok n = verdict_passes (l.meets schema doc)
  check-Holds (present_rule path) ok n = present-passes path ok
  check-Holds (type_rule path t) ok n = type_passes path t ok n
  check-Holds (compare_rule path op w) ok n = compare_passes path op w ok

  check_from-All :
      (i : ℕ) (rules : List Rule)
      → All PointsWell rules
      → ¬ (check_from l i rules text doc ≡ overflow_error)
      → (check_from l i rules text doc ≡ failed []) ↔ All (Holds l text doc) rules
  unfolding check_from
  check_from-All i [] ok n = (λ h. tt, λ h. refl)
  check_from-All i (r ∷ rules) ok n =
      let (one, rest) =
        no_overflow i (check l r text doc) (check_from l (suc i) rules text doc) n in
      (
        λ h.
            let (first, later) =
              no_failure i (check l r text doc) (check_from l (suc i) rules text doc) h in
            ((check-Holds r ok.0 one).0 first, (check_from-All (suc i) rules ok.1 rest).0 later),
        λ (h, hs).
            rw ((check-Holds r ok.0 one).1 h) ((check_from-All (suc i) rules ok.1 rest).1 hs),
      )

-- Where a rule reads JSON, the text is JSON; and every rule holds of the text and of its value.
abbrev pub Meets : Library → List Rule → List ℕ → Type 0
Meets l rules text =
    (doc : Json) × (any reads_json rules ≡ true → l.loads text ≡ some doc)
    × All (Holds l text doc) rules

unread :
    (l : Library) (text : List ℕ) (doc : Json) (r : Rule)
    → reads_json r ≡ false
    → Holds l text doc r
    → Holds l text null r
unread l text doc (contains_rule part) e h = h
unread l text doc (min_length_rule chars) e h = h
unread l text doc r e h = cc

unread_all :
    (l : Library) (text : List ℕ) (doc : Json) (rules : List Rule)
    → any reads_json rules ≡ false
    → All (Holds l text doc) rules
    → All (Holds l text null) rules
unread_all l text doc [] e h = tt
unread_all l text doc (r ∷ rules) e h =
    (unread l text doc r (ground arith) h.0, unread_all l text doc rules (ground arith) h.1)

module _ (l : Library) (rules : List Rule) (text : List ℕ) (ok : All PointsWell rules)
    (n : ¬ (failures l rules text ≡ overflow_error)) where
  checked-Holds :
      (doc : Json)
      → failures l rules text ≡ check_from l 0 rules text doc
      → (failures l rules text ≡ failed []) ↔ All (Holds l text doc) rules
  checked-Holds doc e =
      let checked = check_from-All l text doc 0 rules ok (λ o. n (e ∙ o)) in
      (λ h. checked.0 (sym e ∙ h), λ h. e ∙ checked.1 h)

  read_failures :
      (doc : Json)
      → any reads_json rules ≡ true
      → l.loads text ≡ some doc
      → failures l rules text ≡ check_from l 0 rules text doc
  unfolding failures
  read_failures doc r e = rw (r, e) refl

  unread_failures :
      any reads_json rules ≡ false → failures l rules text ≡ check_from l 0 rules text null
  unfolding failures
  unread_failures r = rw r refl

  not_loaded :
      any reads_json rules ≡ true
      → l.loads text ≡ none
      → failures l rules text ≡ failed []
      → Meets l rules text
  unfolding failures
  not_loaded r e h = absurd (ground arith)

  fails-Meets : failures l rules text ≡ failed [] → Meets l rules text
  fails-Meets h = elim (Bool-cases (any reads_json rules)) [
    | inl r ↦ elim (Option-cases (l.loads text)) [
      | inl e ↦ not_loaded r e h
      | inr (doc, e) ↦ (doc, (λ x. e), (checked-Holds doc (read_failures doc r e)).0 h)
    ]
    | inr r ↦ (null, (λ x. cc), (checked-Holds null (unread_failures r)).0 h)
  ]

  Meets-fails : Meets l rules text → failures l rules text ≡ failed []
  Meets-fails (doc, loads, holds) = elim (Bool-cases (any reads_json rules)) [
    | inl r ↦ (checked-Holds doc (read_failures doc r (loads r))).1 holds
    | inr r ↦ (checked-Holds null (unread_failures r)).1 (unread_all l text doc rules r holds)
  ]

  -- Where the rules' pointers are JSON Pointers of ASCII characters and no check raises an
  -- OverflowError: no rule fails exactly when, where a rule reads JSON, the text is JSON, and every
  -- rule holds: the text contains the part or has the length, the value meets the schema, and the
  -- tokens that its pointer writes lead to a value, key by key and index by index in decimal, of the
  -- type, or the same as the rule's value, not the same, or in the order that the rule asks for.
  pub failures-Meets : (failures l rules text ≡ failed []) ↔ Meets l rules text
  failures-Meets = (fails-Meets, Meets-fails)
