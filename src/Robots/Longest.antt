-- ===== src/Robots/Longest.antt =====
-- The loop of _apply_rules picks the first of the longest rules that match.
use scrapeflow.Base.{
  ℕ, suc, ◌≡◌, refl, ap, ◌∙◌, Bool, true, false, not, ◌&&◌, List, [], ◌∷◌, arith, ltb, ◌==◌,
  if◌then◌else◌, length, max, startswith, Bool-cases, inl, inr,
}
use scrapeflow.Robots.{Text, Rule, Best, best_rule, better, apply_rules}

-- 0 where the rule does not match the path, else its length and one.
abbrev pub weight : Text → Rule → ℕ
weight path r = elim r.prefix [
  | [] ↦ 0
  | c ∷ cs ↦ if startswith path (c ∷ cs) then suc (length (c ∷ cs)) else 0
]

abbrev pub longest : Text → List Rule → ℕ
longest path [] = 0
longest path (r ∷ rules) = max (weight path r) (longest path rules)

-- Whether the first rule of this weight allows; true where there is none.
abbrev pub first_allows : Text → ℕ → List Rule → Bool
first_allows path n [] = true
first_allows path n (r ∷ rules) =
    let later = first_allows path n rules in if weight path r == n then r.is_allow else later

-- A path is disallowed where some rule matches it and the first of the longest matching rules is a
-- Disallow.
abbrev pub disallowed_by : List Rule → Text → Bool
disallowed_by rules path =
    ltb 0 (longest path rules) && not (first_allows path (longest path rules) rules)

better-weight :
    (path : Text) (r : Rule) (b : Best)
    → better path r b ≡ (
        if ltb b.best (weight path r)
        then record { best = weight path r; best_allow = r.is_allow }
        else b)
better-weight path r b = weighed r.prefix
  where
    weighed :
        (prefix : Text)
        → let q = record r { prefix = prefix } in
          better path q b ≡ (
            if ltb b.best (weight path q)
            then record { best = weight path q; best_allow = q.is_allow }
            else b)
    weighed [] = ground arith
    weighed (c ∷ cs) = ground arith

best_rule-longest :
    (path : Text) (rules : List Rule) (b : Best)
    → (best_rule path rules b).best_allow ≡ (
        if ltb b.best (longest path rules)
        then first_allows path (longest path rules) rules
        else b.best_allow)
unfolding best_rule
best_rule-longest path [] b = ground arith
best_rule-longest path (r ∷ rules) b = elim (Bool-cases (ltb b.best (weight path r))) [
  | inl up ↦
      let taken : Best = record { best = weight path r; best_allow = r.is_allow } in
      ground (
        arith,
        ap (λ x. (best_rule path rules x).best_allow) (better-weight path r b ∙ if_true taken b up),
        best_rule-longest path rules taken,
      )
  | inr kept ↦ ground (
    arith,
    ap (λ x. (best_rule path rules x).best_allow)
        (better-weight path r b
          ∙ if_false (record { best = weight path r; best_allow = r.is_allow }) b kept),
    best_rule-longest path rules b,
  )
]
  where
    if_true : {t : Bool} (x y : Best) → t ≡ true → (if t then x else y) ≡ x
    if_true x y e = rw e refl

    if_false : {t : Bool} (x y : Best) → t ≡ false → (if t then x else y) ≡ y
    if_false x y e = rw e refl

-- What _apply_rules answers is that the first of the longest rules that match the path is a
-- Disallow: an empty rule never matches, and a path that no rule matches is allowed.
pub apply_rules-longest :
    (rules : List Rule) (path : Text) → apply_rules rules path ≡ disallowed_by rules path
unfolding apply_rules
apply_rules-longest rules path =
    ground (arith, best_rule-longest path rules (record { best = 0; best_allow = true }))
