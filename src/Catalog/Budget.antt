-- ===== src/Catalog/Budget.antt =====
-- The budget of a block against the schedule that the retry policy makes: the engine waits the
-- initial interval before the first retry and multiplies it by the coefficient each time, never
-- past the maximum.
use scrapeflow.Base.{
  ℕ, zero, suc, ◌+◌, ◌-◌, ◌*◌, ◌^◌, ◌≤◌, ◌<◌, ◌≡◌, refl, List, [], ◌∷◌, arith, length, min, All, ap,
  inl, inr, Bool-cases, leb, leb→le, leb→lt,
}
use native.Mathlib.Nat.{
  le-mul_of_pos_right, le_trans, min-eq_left, min-eq_right, mul-le-mul_right, pow-zero, pow-suc,
  mul-one, mul_assoc, zero-add, add-zero, add-suc,
}
use scrapeflow.Catalog.{Timing, waits, budget}

-- How long an attempt waited in its queue, and ran.
pub record Attempt : Type 0 where
  pub queued : ℕ
  pub ran : ℕ

abbrev pub Within : Timing → Attempt → Type 0
Within t a = (a.queued ≤ t.schedule_to_start) × (a.ran ≤ t.start_to_close)

-- The wait after attempt `n`, counted from 0.
abbrev pub interval : Timing → ℕ → ℕ
interval t zero = min t.initial_interval t.maximum_interval
interval t (suc n) = min (interval t n * t.backoff_coefficient) t.maximum_interval

-- The time from the first scheduling to the end of the last attempt, from attempt `n` on.
abbrev pub elapsed : Timing → ℕ → List Attempt → ℕ
elapsed t n [] = 0
elapsed t n (a ∷ []) = a.queued + a.ran
elapsed t n (a ∷ b ∷ rest) = a.queued + a.ran + interval t n + elapsed t (suc n) (b ∷ rest)

-- `k` attempts at their limits.
abbrev pub slowest : Timing → ℕ → List Attempt
slowest t zero = []
slowest t (suc k) = record { queued = t.schedule_to_start; ran = t.start_to_close } ∷ slowest t k

min_scaled : (a m c : ℕ) → 0 < c → min (min a m * c) m ≡ min (a * c) m
min_scaled a m c h = elim (Bool-cases (leb a m)) [
  | inl low ↦ rw (min-eq_left (leb→le a m low)) refl
  | inr high ↦
      let below : m ≤ a = omega (arith, leb→lt a m high) in
      rw (min-eq_right below) (
        rw (min-eq_right (le-mul_of_pos_right m h))
          (rw (min-eq_right (le_trans (le-mul_of_pos_right m h) (mul-le-mul_right c below))) refl))
]

interval_lem :
    (t : Timing) (n : ℕ)
    → 0 < t.backoff_coefficient
    → interval t n ≡ min (t.initial_interval * t.backoff_coefficient ^ n) t.maximum_interval
interval_lem t zero h = rw (pow-zero, mul-one) refl
interval_lem t (suc n) h =
    rw
      (
        interval_lem t n h,
        min_scaled (t.initial_interval * t.backoff_coefficient ^ n) t.maximum_interval
            t.backoff_coefficient h,
      )
      (rw (pow-suc, mul_assoc) refl)

elapsed_from :
    (t : Timing) (n : ℕ) (as' : List Attempt) (a : Attempt)
    → 0 < t.backoff_coefficient
    → All (Within t) (a ∷ as')
    → elapsed t n (a ∷ as') + waits t n
      ≤ suc (length as') * (t.schedule_to_start + t.start_to_close) + waits t (n + length as')
elapsed_from t n [] a h w = rw add-zero (omega arith)
elapsed_from t n (b ∷ rest) a h w =
    grind (arith, interval_lem t n h, elapsed_from t (suc n) rest b h w.1)

waits_mono : (t : Timing) (n k : ℕ) → waits t n ≤ waits t (n + k)
waits_mono t n zero = rw add-zero (omega arith)
waits_mono t n (suc k) = rw add-suc (omega (arith, waits_mono t n k))

elapsed-slowest :
    (t : Timing) (n k : ℕ)
    → 0 < t.backoff_coefficient
    → elapsed t n (slowest t (suc k)) + waits t n
      ≡ suc k * (t.schedule_to_start + t.start_to_close) + waits t (n + k)
elapsed-slowest t n zero h = rw add-zero (omega arith)
elapsed-slowest t n (suc k) h = grind (arith, interval_lem t n h, elapsed-slowest t (suc n) k h)

budget_covers :
    (t : Timing) (attempts : List Attempt)
    → 0 < t.backoff_coefficient
    → All (Within t) attempts
    → length attempts ≤ t.maximum_attempts
    → elapsed t 0 attempts ≤ budget t
unfolding budget
budget_covers t [] h w l = omega arith
budget_covers t (a ∷ as') h w l =
    let n = length as' in
    let k = t.maximum_attempts - 1 - n in
    let e : n + k ≡ t.maximum_attempts - 1 = omega arith in
    omega (
      arith,
      elapsed_from t 0 as' a h w,
      zero-add n,
      ap (waits t) (zero-add n),
      waits_mono t n k,
      ap (waits t) e,
      mul-le-mul_right (t.schedule_to_start + t.start_to_close) l,
    )

budget_reached :
    (t : Timing)
    → 0 < t.backoff_coefficient
    → 0 < t.maximum_attempts
    → elapsed t 0 (slowest t t.maximum_attempts) ≡ budget t
unfolding budget
budget_reached t h m = last_round (t.maximum_attempts - 1) (omega arith)
  where
    last_round :
        (k : ℕ) → t.maximum_attempts ≡ suc k → elapsed t 0 (slowest t t.maximum_attempts) ≡ budget t
    last_round k e =
        let e' : t.maximum_attempts - 1 ≡ k = omega arith in
        omega (
          arith,
          ap (λ n. elapsed t 0 (slowest t n)) e,
          elapsed-slowest t 0 k h,
          ap (waits t) (zero-add k),
          ap (waits t) e',
          ap (λ n. n * (t.schedule_to_start + t.start_to_close)) e,
        )

-- With a coefficient of at least 1, a block whose attempts keep to their limits, and are at most
-- `maximum_attempts`, ends within its budget; and the budget is no longer than that: the attempts
-- that use up every limit take all of it.
pub budget_exact :
    (t : Timing) (attempts : List Attempt)
    → 0 < t.backoff_coefficient
    → 0 < t.maximum_attempts
    → All (Within t) attempts
    → length attempts ≤ t.maximum_attempts
    → (elapsed t 0 attempts ≤ budget t) × (elapsed t 0 (slowest t t.maximum_attempts) ≡ budget t)
budget_exact t attempts h m w l = (budget_covers t attempts h w l, budget_reached t h m)
