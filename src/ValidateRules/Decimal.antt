-- ===== src/ValidateRules/Decimal.antt =====
-- The index of an array's element as a pointer writes it: a number in decimal.
use scrapeflow.Base.{
  ℕ, suc, ◌+◌, ◌-◌, ◌*◌, ◌^◌, ◌<◌, ◌≡◌, ◌↔◌, arith, true, some, List, [], ◌∷◌, all, length,
}
use mathlib.Core.Path.{subst}
use native.Mathlib.Nat.{pow-suc, add-mul}
use scrapeflow.ValidateRules.Pointer.{index_of, is_digit, int_from}

-- The characters are the digits of the number.
pub data Digits : List ℕ → ℕ → Type 0 where
  digit : {d : ℕ} → d < 10 → Digits ((48 + d) ∷ []) d
  digits :
      {d n : ℕ} {t : List ℕ} → d < 10 → Digits t n → Digits ((48 + d) ∷ t) (d * 10 ^ length t + n)

abbrev NoLeadingZero : List ℕ → Type 0
NoLeadingZero (c ∷ d ∷ t) = ¬ (c ≡ 48)
NoLeadingZero t = Unit

-- The text is the number in decimal: its digits, the first of several not a zero.
pub record IsIndex (t : List ℕ) (n : ℕ) : Type 0 where
  pub spelled : Digits t n
  pub leading : NoLeadingZero t

horner : (k d l n : ℕ) → (k * 10 + (48 + d - 48)) * 10 ^ l + n ≡ k * 10 ^ suc l + (d * 10 ^ l + n)
horner k d l n =
    let digit_only : 48 + d - 48 ≡ d = omega arith in
    rw (digit_only, pow-suc 10 l, add-mul (k * 10) d (10 ^ l)) (grind arith)

int_from-Digits : {t : List ℕ} {n : ℕ} (k : ℕ) → Digits t n → int_from k t ≡ k * 10 ^ length t + n
int_from-Digits k (digit h) = ground arith
int_from-Digits k (digits {d = d} {n = n} {t = t} h r) =
    rw (int_from-Digits (k * 10 + (48 + d - 48)) r) (horner k d (length t) n)

Digits-all : {t : List ℕ} {n : ℕ} → Digits t n → all is_digit t ≡ true
Digits-all (digit h) = ground (arith, h)
Digits-all (digits h r) = ground (arith, h, Digits-all r)

char_digit : (c : ℕ) → is_digit c ≡ true → (48 + (c - 48) ≡ c) × (c - 48 < 10)
char_digit c h = (ground arith, ground arith)

all-Digits : (c : ℕ) (t : List ℕ) → all is_digit (c ∷ t) ≡ true → (n : ℕ) × Digits (c ∷ t) n
all-Digits c [] h =
    let (same, small) = char_digit c (ground arith) in
    (c - 48, subst (λ x. Digits (x ∷ []) (c - 48)) same (digit small))
all-Digits c (d ∷ t) h =
    let (same, small) = char_digit c (ground arith) in
    let (n, rest) = all-Digits d t (ground arith) in
    (
      (c - 48) * 10 ^ length (d ∷ t) + n,
      subst (λ x. Digits (x ∷ d ∷ t) ((c - 48) * 10 ^ length (d ∷ t) + n)) same (digits small rest),
    )

index_of-IsIndex : (t : List ℕ) (n : ℕ) → index_of t ≡ some n → IsIndex t n
unfolding index_of
index_of-IsIndex [] n h = cc
index_of-IsIndex (c ∷ []) n h =
    let (same, small) = char_digit c (ground arith) in
    let value : c - 48 ≡ n = ground arith in
    record {
      spelled =
          subst (λ x. Digits (c ∷ []) x) value
            (subst (λ x. Digits (x ∷ []) (c - 48)) same (digit small));
      leading = tt;
    }
index_of-IsIndex (c ∷ d ∷ t) n h =
    let (k, written) = all-Digits c (d ∷ t) (ground arith) in
    let value : k ≡ n = read_value k written h in
    record {
      spelled = subst (λ x. Digits (c ∷ d ∷ t) x) value written;
      leading = λ e. ground arith;
    }
  where
    read_value : (k : ℕ) → Digits (c ∷ d ∷ t) k → index_of (c ∷ d ∷ t) ≡ some n → k ≡ n
    read_value k written h = ground (arith, int_from-Digits 0 written, Digits-all written)

one_digit : {c n : ℕ} → Digits (c ∷ []) n → index_of (c ∷ []) ≡ some n
unfolding index_of
one_digit (digit h) = ground (arith, h)
one_digit (digits h r) = elim r [ ]

IsIndex-index_of : {t : List ℕ} {n : ℕ} → IsIndex t n → index_of t ≡ some n
unfolding index_of
IsIndex-index_of {t = []} i = elim i.spelled [ ]
IsIndex-index_of {t = c ∷ []} i = one_digit i.spelled
IsIndex-index_of {t = c ∷ d ∷ t} i =
    ground (arith, i.leading, Digits-all i.spelled, int_from-Digits 0 i.spelled)

-- A token is read as an index exactly when it is the number in decimal, without a leading zero.
pub index_of_iff : (t : List ℕ) (n : ℕ) → (index_of t ≡ some n) ↔ IsIndex t n
index_of_iff t n = (index_of-IsIndex t n, IsIndex-index_of)
