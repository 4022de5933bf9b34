-- ===== src/Quota/Usage.antt =====
-- The storage counter as the ledger moves it.
use scrapeflow.Base.{
  ℕ, ◌+◌, ◌-◌, ◌≡◌, refl, inl, inr, Option, none, some, arith, ◌==◌, if◌then◌else◌, Bool-cases,
  ==_iff,
}
use scrapeflow.Quota.{
  Quotas, UserQuota, increment_storage_bytes, decrement_storage_bytes, incremented, decremented,
}

-- The counter of a row; a user with no row holds nothing.
abbrev pub row_used : Option UserQuota → ℕ
row_used none = 0
row_used (some q) = q.storage_bytes_used

row_used-incremented :
    (size : ℕ) (o : Option UserQuota) → (incremented size o).storage_bytes_used ≡ row_used o + size
row_used-incremented size none = omega arith
row_used-incremented size (some q) = refl

row_used-decremented :
    (size : ℕ) (o : Option UserQuota) → (decremented size o).storage_bytes_used ≡ row_used o - size
row_used-decremented size none = omega arith
row_used-decremented size (some q) = refl

pub used-increment :
    (user size : ℕ) (quotas : Quotas) (v : ℕ)
    → row_used (increment_storage_bytes user size quotas v)
      ≡ (if v == user then row_used (quotas v) + size else row_used (quotas v))
unfolding increment_storage_bytes
used-increment user size quotas v = elim (Bool-cases (v == user)) [
  | inl e ↦ rw (e, (==_iff v user).0 e) (row_used-incremented size (quotas user))
  | inr e ↦ rw e
]

pub used-decrement :
    (user size : ℕ) (quotas : Quotas) (v : ℕ)
    → row_used (decrement_storage_bytes user size quotas v)
      ≡ (if v == user then row_used (quotas v) - size else row_used (quotas v))
unfolding decrement_storage_bytes
used-decrement user size quotas v = elim (Bool-cases (v == user)) [
  | inl e ↦ rw (e, (==_iff v user).0 e) (row_used-decremented size (quotas user))
  | inr e ↦ rw e
]
