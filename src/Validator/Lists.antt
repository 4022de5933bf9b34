-- ===== src/Validator/Lists.antt =====
-- What an empty list of problems says of the lists it was made of.
use scrapeflow.Base.{
  ◌≡◌, refl, Bool, true, not, List, [], ◌∷◌, ◌++◌, map, arith, All, filter, Bool-cases, inl, inr,
}

pub append-nil-inv {ℓ} : {A : Type ℓ} (xs ys : List A) → xs ++ ys ≡ [] → (xs ≡ []) × (ys ≡ [])
append-nil-inv [] ys h = (refl, h)
append-nil-inv (x ∷ xs) ys h = cc

pub map-nil-inv {ℓ κ} :
    {A : Type ℓ} {B : Type κ} (f : A → B) (xs : List A) → map f xs ≡ [] → xs ≡ []
map-nil-inv f [] h = refl
map-nil-inv f (x ∷ xs) h = cc

-- What a filter leaves out passes.
pub filter-nil-All {ℓ} :
    {A : Type ℓ} (p : A → Bool) (xs : List A)
    → filter (λ x. not (p x)) xs ≡ []
    → All (λ x. p x ≡ true) xs
filter-nil-All p [] h = tt
filter-nil-All p (x ∷ xs) h = elim (Bool-cases (p x)) [
  | inl e ↦ (e, filter-nil-All p xs (ground arith))
  | inr e ↦ ground arith
]
