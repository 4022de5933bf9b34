-- ===== src/ValidateRules/Order.antt =====
-- The order that the compare rules ask for, on the numbers themselves.
use scrapeflow.Base.{
  ℕ, ◌+◌, ◌*◌, ◌^◌, ◌<◌, ◌≡◌, ◌↔◌, ◌⊎◌, ◌||◌, not, refl, arith, Bool, true, false, List, [], ◌∷◌,
  same_text, inl, inr,
}
use scrapeflow.ValidateRules.Json.{
  Number, integer, float, infinity, Json, null, boolean, number, string, num_less, num_same,
}
use scrapeflow.ValidateRules.Checks.{
  CompareOp, op_eq, op_ne, op_lt, op_le, op_gt, op_ge, Scalar, null_value, boolean_value,
  number_value, string_value, compare_values, ordered, ordered_values, equal,
}

-- A finite number is (plus - minus) / 2 ^ scale.
pub record Parts : Type 0 where
  pub plus : ℕ
  pub minus : ℕ
  pub scale : ℕ

abbrev pub parts_of : Bool → ℕ → ℕ → Parts
parts_of true m k = record { plus = 0; minus = m; scale = k }
parts_of false m k = record { plus = m; minus = 0; scale = k }

pub data IsFinite : Number → Parts → Type 0 where
  whole : {b : Bool} {m : ℕ} → IsFinite (integer b m) (parts_of b m 0)
  binary : {b : Bool} {m k : ℕ} → IsFinite (float b m k) (parts_of b m k)

-- The difference of two fractions, multiplied out.
abbrev pub left : Parts → Parts → ℕ
left p q = p.plus * 2 ^ q.scale + q.minus * 2 ^ p.scale

pub data Below : Number → Number → Type 0 where
  below :
      {a b : Number} {p q : Parts} → IsFinite a p → IsFinite b q → left p q < left q p → Below a b
  after_bottom : {b : Number} {q : Parts} → IsFinite b q → Below (infinity true) b
  before_top : {a : Number} {p : Parts} → IsFinite a p → Below a (infinity false)
  bottom_top : Below (infinity true) (infinity false)

-- nan is the same as no number.
pub data Same : Number → Number → Type 0 where
  same : {a b : Number} {p q : Parts} → IsFinite a p → IsFinite b q → left p q ≡ left q p → Same a b
  same_infinity : {b : Bool} → Same (infinity b) (infinity b)

pub data SameValue : Json → Scalar → Type 0 where
  nulls : SameValue null null_value
  booleans : {b : Bool} → SameValue (boolean b) (boolean_value b)
  strings : {s : List ℕ} → SameValue (string s) (string_value s)
  numbers : {a b : Number} → Same a b → SameValue (number a) (number_value b)

-- Both are numbers, in the relation.
pub data BothNumbers (R : Number → Number → Type 0) : Json → Scalar → Type 0 where
  both : {a b : Number} → R a b → BothNumbers R (number a) (number_value b)

abbrev pub Compares : CompareOp → Json → Scalar → Type 0
Compares op_eq v w = SameValue v w
Compares op_ne v w = ¬ SameValue v w
Compares op_lt v w = BothNumbers Below v w
Compares op_le v w = BothNumbers (λ a b. Below a b ⊎ Same a b) v w
Compares op_gt v w = BothNumbers (λ a b. Below b a) v w
Compares op_ge v w = BothNumbers (λ a b. Below b a ⊎ Same a b) v w

Below-less : {a b : Number} → Below a b → num_less a b ≡ true
unfolding num_less
Below-less (below (whole {b = true} {m = m}) (whole {b = true} {m = n}) h) = ground (arith, h)
Below-less (below (whole {b = true} {m = m}) (whole {b = false} {m = n}) h) = ground (arith, h)
Below-less (below (whole {b = true} {m = m}) (binary {b = true} {m = n} {k = k}) h) =
    ground (arith, h)
Below-less (below (whole {b = true} {m = m}) (binary {b = false} {m = n} {k = k}) h) =
    ground (arith, h)
Below-less (below (whole {b = false} {m = m}) (whole {b = true} {m = n}) h) = ground (arith, h)
Below-less (below (whole {b = false} {m = m}) (whole {b = false} {m = n}) h) = ground (arith, h)
Below-less (below (whole {b = false} {m = m}) (binary {b = true} {m = n} {k = k}) h) =
    ground (arith, h)
Below-less (below (whole {b = false} {m = m}) (binary {b = false} {m = n} {k = k}) h) =
    ground (arith, h)
Below-less (below (binary {b = true} {m = m} {k = j}) (whole {b = true} {m = n}) h) =
    ground (arith, h)
Below-less (below (binary {b = true} {m = m} {k = j}) (whole {b = false} {m = n}) h) =
    ground (arith, h)
Below-less (below (binary {b = true} {m = m} {k = j}) (binary {b = true} {m = n} {k = k}) h) =
    ground (arith, h)
Below-less (below (binary {b = true} {m = m} {k = j}) (binary {b = false} {m = n} {k = k}) h) =
    ground (arith, h)
Below-less (below (binary {b = false} {m = m} {k = j}) (whole {b = true} {m = n}) h) =
    ground (arith, h)
Below-less (below (binary {b = false} {m = m} {k = j}) (whole {b = false} {m = n}) h) =
    ground (arith, h)
Below-less (below (binary {b = false} {m = m} {k = j}) (binary {b = true} {m = n} {k = k}) h) =
    ground (arith, h)
Below-less (below (binary {b = false} {m = m} {k = j}) (binary {b = false} {m = n} {k = k}) h) =
    ground (arith, h)
Below-less (after_bottom whole) = refl
Below-less (after_bottom binary) = refl
Below-less (before_top whole) = refl
Below-less (before_top binary) = refl
Below-less bottom_top = refl

less-Below : (a b : Number) → num_less a b ≡ true → Below a b
unfolding num_less
less-Below (integer true m) (integer true n) h = below whole whole (ground (arith, h))
less-Below (integer true m) (integer false n) h = below whole whole (ground (arith, h))
less-Below (integer true m) (float true n k) h = below whole binary (ground (arith, h))
less-Below (integer true m) (float false n k) h = below whole binary (ground (arith, h))
less-Below (integer false m) (integer true n) h = below whole whole (ground (arith, h))
less-Below (integer false m) (integer false n) h = below whole whole (ground (arith, h))
less-Below (integer false m) (float true n k) h = below whole binary (ground (arith, h))
less-Below (integer false m) (float false n k) h = below whole binary (ground (arith, h))
less-Below (float true m j) (integer true n) h = below binary whole (ground (arith, h))
less-Below (float true m j) (integer false n) h = below binary whole (ground (arith, h))
less-Below (float true m j) (float true n k) h = below binary binary (ground (arith, h))
less-Below (float true m j) (float false n k) h = below binary binary (ground (arith, h))
less-Below (float false m j) (integer true n) h = below binary whole (ground (arith, h))
less-Below (float false m j) (integer false n) h = below binary whole (ground (arith, h))
less-Below (float false m j) (float true n k) h = below binary binary (ground (arith, h))
less-Below (float false m j) (float false n k) h = below binary binary (ground (arith, h))
less-Below (infinity true) (integer b n) h = after_bottom whole
less-Below (infinity true) (float b n k) h = after_bottom binary
less-Below (infinity true) (infinity false) h = bottom_top
less-Below (integer b n) (infinity false) h = before_top whole
less-Below (float b n k) (infinity false) h = before_top binary
less-Below a b h = cc

Same-same : {a b : Number} → Same a b → num_same a b ≡ true
unfolding num_same
Same-same (same (whole {b = true} {m = m}) (whole {b = true} {m = n}) h) = ground (arith, h)
Same-same (same (whole {b = true} {m = m}) (whole {b = false} {m = n}) h) = ground (arith, h)
Same-same (same (whole {b = true} {m = m}) (binary {b = true} {m = n} {k = k}) h) =
    ground (arith, h)
Same-same (same (whole {b = true} {m = m}) (binary {b = false} {m = n} {k = k}) h) =
    ground (arith, h)
Same-same (same (whole {b = false} {m = m}) (whole {b = true} {m = n}) h) = ground (arith, h)
Same-same (same (whole {b = false} {m = m}) (whole {b = false} {m = n}) h) = ground (arith, h)
Same-same (same (whole {b = false} {m = m}) (binary {b = true} {m = n} {k = k}) h) =
    ground (arith, h)
Same-same (same (whole {b = false} {m = m}) (binary {b = false} {m = n} {k = k}) h) =
    ground (arith, h)
Same-same (same (binary {b = true} {m = m} {k = j}) (whole {b = true} {m = n}) h) =
    ground (arith, h)
Same-same (same (binary {b = true} {m = m} {k = j}) (whole {b = false} {m = n}) h) =
    ground (arith, h)
Same-same (same (binary {b = true} {m = m} {k = j}) (binary {b = true} {m = n} {k = k}) h) =
    ground (arith, h)
Same-same (same (binary {b = true} {m = m} {k = j}) (binary {b = false} {m = n} {k = k}) h) =
    ground (arith, h)
Same-same (same (binary {b = false} {m = m} {k = j}) (whole {b = true} {m = n}) h) =
    ground (arith, h)
Same-same (same (binary {b = false} {m = m} {k = j}) (whole {b = false} {m = n}) h) =
    ground (arith, h)
Same-same (same (binary {b = false} {m = m} {k = j}) (binary {b = true} {m = n} {k = k}) h) =
    ground (arith, h)
Same-same (same (binary {b = false} {m = m} {k = j}) (binary {b = false} {m = n} {k = k}) h) =
    ground (arith, h)
Same-same (same_infinity {b = true}) = refl
Same-same (same_infinity {b = false}) = refl

same-Same : (a b : Number) → num_same a b ≡ true → Same a b
unfolding num_same
same-Same (integer true m) (integer true n) h = same whole whole (ground (arith, h))
same-Same (integer true m) (integer false n) h = same whole whole (ground (arith, h))
same-Same (integer true m) (float true n k) h = same whole binary (ground (arith, h))
same-Same (integer true m) (float false n k) h = same whole binary (ground (arith, h))
same-Same (integer false m) (integer true n) h = same whole whole (ground (arith, h))
same-Same (integer false m) (integer false n) h = same whole whole (ground (arith, h))
same-Same (integer false m) (float true n k) h = same whole binary (ground (arith, h))
same-Same (integer false m) (float false n k) h = same whole binary (ground (arith, h))
same-Same (float true m j) (integer true n) h = same binary whole (ground (arith, h))
same-Same (float true m j) (integer false n) h = same binary whole (ground (arith, h))
same-Same (float true m j) (float true n k) h = same binary binary (ground (arith, h))
same-Same (float true m j) (float false n k) h = same binary binary (ground (arith, h))
same-Same (float false m j) (integer true n) h = same binary whole (ground (arith, h))
same-Same (float false m j) (integer false n) h = same binary whole (ground (arith, h))
same-Same (float false m j) (float true n k) h = same binary binary (ground (arith, h))
same-Same (float false m j) (float false n k) h = same binary binary (ground (arith, h))
same-Same (infinity true) (infinity true) h = same_infinity
same-Same (infinity false) (infinity false) h = same_infinity
same-Same a b h = cc

less_iff : (a b : Number) → (num_less a b ≡ true) ↔ Below a b
less_iff a b = (less-Below a b, Below-less)

same_iff : (a b : Number) → (num_same a b ≡ true) ↔ Same a b
same_iff a b = (same-Same a b, Same-same)

or_iff : {A B : Type 0} (p q : Bool) → (p ≡ true) ↔ A → (q ≡ true) ↔ B → ((p || q) ≡ true) ↔ (A ⊎ B)
or_iff true q f g = (λ h. inl (f.0 refl), λ h. refl)
or_iff false q f g =
    (λ h. inr (g.0 h), λ h. elim h [ inl a ↦ absurd_false (f.1 a) | inr b ↦ g.1 b ])
  where
    absurd_false : false ≡ true → q ≡ true
    absurd_false e = cc

both_iff :
    {R : Number → Number → Type 0} (a b : Number) (p : Bool)
    → (p ≡ true) ↔ R a b
    → (p ≡ true) ↔ BothNumbers R (number a) (number_value b)
both_iff a b p f = (λ h. both (f.0 h), λ h. elim h [ both r ↦ f.1 r ])

same_text_self : (s : List ℕ) → same_text s s ≡ true
same_text_self [] = refl
same_text_self (c ∷ s) = ground (arith, same_text_self s)

same_text_path : (s t : List ℕ) → same_text s t ≡ true → s ≡ t
same_text_path [] [] h = refl
same_text_path (c ∷ s) (d ∷ t) h =
    let first : c ≡ d = ground arith in
    let rest = same_text_path s t (ground arith) in rw (first, rest) refl
same_text_path s t h = cc

SameValue-equal : {v : Json} {w : Scalar} → SameValue v w → equal v w ≡ true
unfolding equal
SameValue-equal nulls = refl
SameValue-equal (booleans {b = true}) = refl
SameValue-equal (booleans {b = false}) = refl
SameValue-equal (strings {s = s}) = same_text_self s
SameValue-equal (numbers h) = Same-same h

equal-SameValue : (v : Json) (w : Scalar) → equal v w ≡ true → SameValue v w
unfolding equal
equal-SameValue null null_value h = nulls
equal-SameValue (boolean true) (boolean_value true) h = booleans
equal-SameValue (boolean false) (boolean_value false) h = booleans
equal-SameValue (string s) (string_value t) h = rw (same_text_path s t h) strings
equal-SameValue (number a) (number_value b) h = numbers (same-Same a b h)
equal-SameValue v w h = cc

equal_iff : (v : Json) (w : Scalar) → (equal v w ≡ true) ↔ SameValue v w
equal_iff v w = (equal-SameValue v w, SameValue-equal)

not_iff : {A : Type 0} (p : Bool) → (p ≡ true) ↔ A → (not p ≡ true) ↔ (¬ A)
not_iff true f = (λ h. cc, λ n. absurd (n (f.0 refl)))
not_iff false f = (λ h a. false_true (f.1 a), λ n. refl)
  where
    false_true : false ≡ true → ⊥
    false_true e = cc

-- Only numbers are ordered.
ordered_iff :
    (op : CompareOp) (R : Number → Number → Type 0)
    → ((a b : Number) → (ordered op a b ≡ true) ↔ R a b)
    → (v : Json) (w : Scalar) → (ordered_values op v w ≡ true) ↔ BothNumbers R v w
ordered_iff op R f (number a) (number_value b) = both_iff a b (ordered op a b) (f a b)
ordered_iff op R f v w = (λ h. cc, λ h. elim h [ ])

-- A compare rule's test holds exactly when it should: for eq the value and the rule's are the same
-- (null, the same Boolean, the same text, or equal numbers), for ne they are not, and for lt, le, gt
-- and ge both are numbers and stand in that order, that of their fractions multiplied out, with the
-- infinities at the ends and nan in no order.
pub compare_values-Compares :
    (op : CompareOp) (v : Json) (w : Scalar) → (compare_values op v w ≡ true) ↔ Compares op v w
unfolding compare_values ordered
compare_values-Compares op_eq v w = equal_iff v w
compare_values-Compares op_ne v w = not_iff (equal v w) (equal_iff v w)
compare_values-Compares op_lt v w = ordered_iff op_lt Below less_iff v w
compare_values-Compares op_le v w =
    ordered_iff op_le (λ a b. Below a b ⊎ Same a b)
      (λ a b. or_iff (num_less a b) (num_same a b) (less_iff a b) (same_iff a b)) v w
compare_values-Compares op_gt v w = ordered_iff op_gt (λ a b. Below b a) (λ a b. less_iff b a) v w
compare_values-Compares op_ge v w =
    ordered_iff op_ge (λ a b. Below b a ⊎ Same a b)
      (λ a b. or_iff (num_less b a) (num_same a b) (less_iff b a) (same_iff a b)) v w
