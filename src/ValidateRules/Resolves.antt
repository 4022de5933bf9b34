-- ===== src/ValidateRules/Resolves.antt =====
-- What resolve finds, against the definition of a JSON Pointer's evaluation.
use scrapeflow.Base.{
  arith, All, ◌<◌, ℕ, ◌≡◌, ◌↔◌, refl, some, List, [], ◌∷◌, Option-cases, inl, inr,
}
use scrapeflow.ValidateRules.Json.{Json, object, array, Elements, Members, get}
use scrapeflow.ValidateRules.Decimal.{IsIndex, index_of_iff}
use scrapeflow.ValidateRules.RoundTrip.{print, tokens-print}
use scrapeflow.ValidateRules.Pointer.{index_of, nth, enter, follow, tokens, resolve}

-- The token leads from one value to another.
pub data Leads : Json → List ℕ → Json → Type 0 where
  by_key : {ms : Members} {t : List ℕ} {v : Json} → get ms t ≡ some v → Leads (object ms) t v
  by_index :
      {es : Elements} {t : List ℕ} {n : ℕ} {v : Json}
      → IsIndex t n
      → nth es n ≡ some v
      → Leads (array es) t v

-- The tokens, one behind the other, lead to the value.
pub data Points : Json → List (List ℕ) → Json → Type 0 where
  here : {v : Json} → Points v [] v
  then :
      {u v w : Json} {t : List ℕ} {ts : List (List ℕ)}
      → Leads u t v
      → Points v ts w
      → Points u (t ∷ ts) w

Leads-enter : {u v : Json} {t : List ℕ} → Leads u t v → enter u t ≡ some v
unfolding enter
Leads-enter (by_key h) = h
Leads-enter (by_index {t = t} {n = n} i h) = rw ((index_of_iff t n).1 i, enter) h

array_Leads :
    (es : Elements) (t : List ℕ) (v : Json) → enter (array es) t ≡ some v → Leads (array es) t v
unfolding enter
array_Leads es t v h = elim (Option-cases (index_of t)) [
  | inl e ↦ absurd (ground arith)
  | inr (n, e) ↦ by_index ((index_of_iff t n).0 e) (ground arith)
]

enter-Leads : (u : Json) (t : List ℕ) (v : Json) → enter u t ≡ some v → Leads u t v
unfolding enter
enter-Leads Json.null t v h = cc
enter-Leads (Json.boolean b) t v h = cc
enter-Leads (Json.number n) t v h = cc
enter-Leads (Json.string s) t v h = cc
enter-Leads (array es) t v h = array_Leads es t v h
enter-Leads (object ms) t v h = by_key h

Points-follow : {u v : Json} {ts : List (List ℕ)} → Points u ts v → follow u ts ≡ some v
unfolding follow
Points-follow here = refl
Points-follow (then l p) = rw (Leads-enter l, follow) (Points-follow p)

follow-Points : (ts : List (List ℕ)) (u v : Json) → follow u ts ≡ some v → Points u ts v
unfolding follow
follow-Points [] u v h = let e : u ≡ v = ground arith in rw e here
follow-Points (t ∷ ts) u v h = elim (Option-cases (enter u t)) [
  | inl e ↦ absurd (ground arith)
  | inr (w, e) ↦ then (enter-Leads u t w e) (follow-Points ts w v (ground arith))
]

-- resolve finds a value exactly where the pointer's tokens lead to it, one by one: a key of an object,
-- or the index of an element of an array, written in decimal without a leading zero.
pub resolve-Points :
    (doc : Json) (pointer : List ℕ) (v : Json)
    → (resolve doc pointer ≡ some v) ↔ Points doc (tokens pointer) v
unfolding resolve
resolve-Points doc pointer v = (follow-Points (tokens pointer) doc v, Points-follow)

-- The value at the end of the tokens that the pointer writes.
abbrev pub PointsTo : Json → List ℕ → Json → Type 0
PointsTo doc pointer v = (ts : List (List ℕ)) × (pointer ≡ print ts) × Points doc ts v

-- The pointer is one of RFC 6901, of ASCII characters.
abbrev pub IsPointer : List ℕ → Type 0
IsPointer pointer = (ts : List (List ℕ)) × (pointer ≡ print ts) × All (λ c. c < 128) pointer

pub resolve-PointsTo :
    (doc : Json) (pointer : List ℕ) (v : Json)
    → IsPointer pointer
    → (resolve doc pointer ≡ some v) ↔ PointsTo doc pointer v
unfolding resolve
resolve-PointsTo doc pointer v (ts, written, ascii) = (
  λ h. (ts, written, follow-Points ts doc v (found ts written h)),
  λ (us, e, p). rw (e, tokens-print us) (Points-follow p),
)
  where
    found :
        (us : List (List ℕ))
        → pointer ≡ print us
        → resolve doc pointer ≡ some v
        → follow doc us ≡ some v
    found us e h = rw (tokens-print us) at (rw e at h)
