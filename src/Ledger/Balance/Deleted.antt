-- ===== src/Ledger/Balance/Deleted.antt =====
-- A ledger without one of its rows.
use scrapeflow.Base.{
  ℕ, ◌+◌, ◌≡◌, ◌⊎◌, refl, sym, true, false, List, [], ◌∷◌, arith, ◌==◌, if◌then◌else◌, Bool-cases,
  ==_iff, inl, inr, ==_self,
}
use mathlib.Core.Path.{subst}
use scrapeflow.Ledger.{StorageObject, has_key, delete_row}
use scrapeflow.Ledger.Balance.{held, HasUniqueKeys}

abbrev pub Among : StorageObject → List StorageObject → Type 0
Among o [] = ⊥
Among o (x ∷ xs) = (o ≡ x) ⊎ Among o xs

abbrev charge : ℕ → StorageObject → ℕ
charge user o = if o.user_id == user then o.bytes else 0

-- Deleting an absent key changes nothing.
delete_row_absent :
    (key : ℕ) (rows : List StorageObject) → has_key key rows ≡ false → delete_row key rows ≡ rows
delete_row_absent key [] h = refl
delete_row_absent key (o ∷ rows) h = ground (arith, delete_row_absent key rows)

has_key-Among :
    (o : StorageObject) (rows : List StorageObject)
    → Among o rows
    → has_key o.object_key rows ≡ true
has_key-Among o [] h = absurd h
has_key-Among o (x ∷ rows) (inl e) = rw e (rw (==_self x.object_key))
has_key-Among o (x ∷ rows) (inr h) = ground (arith, has_key-Among o rows h)

held-delete_row_head :
    (user : ℕ) (x : StorageObject) (rows : List StorageObject)
    → has_key x.object_key rows ≡ false
    → held user (delete_row x.object_key (x ∷ rows)) + charge user x ≡ held user (x ∷ rows)
held-delete_row_head user x rows new =
    rw (==_self x.object_key, delete_row_absent x.object_key rows new) (omega arith)

-- A deleted row takes its bytes with it.
pub held-delete_row :
    (user : ℕ) (o : StorageObject) (rows : List StorageObject)
    → HasUniqueKeys rows
    → Among o rows
    → held user (delete_row o.object_key rows) + charge user o ≡ held user rows
held-delete_row user o [] u h = absurd h
held-delete_row user o (x ∷ rows) u (inl e) =
    subst
      (λ y. held user (delete_row y.object_key (x ∷ rows)) + charge user y ≡ held user (x ∷ rows))
      (sym e) (held-delete_row_head user x rows u.0)
held-delete_row user o (x ∷ rows) u (inr h) = ground (
  arith,
  held-delete_row user o rows u.1 h,
  has_key-Among o rows h,
  ==_iff x.object_key o.object_key,
)

has_key-delete_row :
    (key k : ℕ) (rows : List StorageObject)
    → has_key k rows ≡ false
    → has_key k (delete_row key rows) ≡ false
has_key-delete_row key k [] h = refl
has_key-delete_row key k (x ∷ rows) h = ground (arith, has_key-delete_row key k rows)

pub delete_row-HasUniqueKeys :
    (key : ℕ) (rows : List StorageObject) → HasUniqueKeys rows → HasUniqueKeys (delete_row key rows)
delete_row-HasUniqueKeys key [] u = tt
delete_row-HasUniqueKeys key (x ∷ rows) u = elim (Bool-cases (x.object_key == key)) [
  | inl e ↦ rw e (delete_row-HasUniqueKeys key rows u.1)
  | inr e ↦
      rw e (has_key-delete_row key x.object_key rows u.0, delete_row-HasUniqueKeys key rows u.1)
]

-- The other rows stay.
pub Among-delete_row :
    (key : ℕ) (o : StorageObject) (rows : List StorageObject)
    → (o.object_key == key) ≡ false
    → Among o rows
    → Among o (delete_row key rows)
Among-delete_row key o [] ne h = absurd h
Among-delete_row key o (x ∷ rows) ne (inl e) = rw (← e) (rw ne (inl refl))
Among-delete_row key o (x ∷ rows) ne (inr h) = elim (Bool-cases (x.object_key == key)) [
  | inl same ↦ rw same (Among-delete_row key o rows ne h)
  | inr other ↦ rw other (inr (Among-delete_row key o rows ne h))
]
