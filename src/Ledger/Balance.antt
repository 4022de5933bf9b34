-- ===== src/Ledger/Balance.antt =====
-- The counter and the rows agree.
pub mod Deleted
pub mod Release
use scrapeflow.Base.{
  ℕ, zero, suc, ◌+◌, ◌-◌, ◌≤◌, ◌≡◌, refl, ap, Bool, true, false, not, ◌&&◌, ◌||◌, Option, none,
  some, List, [], ◌∷◌, ◌++◌, arith, ltb, ◌==◌, if◌then◌else◌, filter, any, sum_by, Bool-cases,
  ==_iff, inl, inr, All, ==_self,
}
use scrapeflow.Quota.{Quotas}
use scrapeflow.Quota.Usage.{row_used, used-increment, used-decrement}
use scrapeflow.Ledger.{
  StorageObject, Ledger, Minio, has_key, record_object, record_objects, ReleaseOutcome, release_row,
  release_from, release_objects, objects_for_user, no_outcome, delete_row,
}

-- The bytes of the rows that a user holds.
abbrev pub held : ℕ → List StorageObject → ℕ
held user rows = sum_by (λ o. if o.user_id == user then o.bytes else 0) rows

-- UNIQUE (object_key)
abbrev pub HasUniqueKeys : List StorageObject → Type 0
HasUniqueKeys [] = Unit
HasUniqueKeys (o ∷ rows) = (has_key o.object_key rows ≡ false) × HasUniqueKeys rows

-- The counter of every user is the sum of the user's rows, and of the bytes charged before there
-- were rows (`legacy`).
pub record IsBalanced (legacy : ℕ → ℕ) (l : Ledger) : Type 0 where
  pub unique : HasUniqueKeys l.objects
  pub counted : (user : ℕ) → row_used (l.quotas user) ≡ held user l.objects + legacy user

module _ (o : StorageObject) (l : Ledger) where
  record_object_old : has_key o.object_key l.objects ≡ true → record_object o l ≡ (l, false)
  unfolding record_object
  record_object_old h = rw h

  has_key-record_object : has_key o.object_key (record_object o l).0.objects ≡ true
  unfolding record_object
  has_key-record_object = elim (Bool-cases (has_key o.object_key l.objects)) [
    | inl old ↦ rw old old
    | inr new ↦ rw (new, ==_self o.object_key)
  ]

  module _ (legacy : ℕ → ℕ) (b : IsBalanced legacy l) where
    record_object-counted :
        (user : ℕ)
        → has_key o.object_key l.objects ≡ false
        → row_used ((record_object o l).0.quotas user)
          ≡ held user (record_object o l).0.objects + legacy user
    unfolding record_object
    record_object-counted user new =
        ground (arith, b.counted user, used-increment o.user_id o.bytes l.quotas user)

    record_object-HasUniqueKeys :
        has_key o.object_key l.objects ≡ false → HasUniqueKeys (record_object o l).0.objects
    unfolding record_object
    record_object-HasUniqueKeys new = rw new (new, b.unique)

-- A recorded object keeps the counter equal to the rows and the keys unique, whether it is new or
-- the retry of one that is recorded.
pub record_object-IsBalanced :
    (legacy : ℕ → ℕ) (o : StorageObject) (l : Ledger)
    → IsBalanced legacy l
    → IsBalanced legacy (record_object o l).0
record_object-IsBalanced legacy o l b = elim (Bool-cases (has_key o.object_key l.objects)) [
  | inl old ↦ rw (record_object_old o l old) b
  | inr new ↦ record {
    unique = record_object-HasUniqueKeys o l legacy b new;
    counted = λ user. record_object-counted o l legacy b user new;
  }
]

-- A batch of recorded objects keeps every user's counter equal to the bytes of that user's rows,
-- and the object keys unique.
pub record_objects-IsBalanced :
    (legacy : ℕ → ℕ) (os : List StorageObject) (l : Ledger)
    → IsBalanced legacy l
    → IsBalanced legacy (record_objects os l)
unfolding record_objects
record_objects-IsBalanced legacy [] l b = b
record_objects-IsBalanced legacy (o ∷ os) l b =
    record_objects-IsBalanced legacy os (record_object o l).0
      (record_object-IsBalanced legacy o l b)

has_key-keeps :
    (key : ℕ) (o : StorageObject) (l : Ledger)
    → has_key key l.objects ≡ true
    → has_key key (record_object o l).0.objects ≡ true
unfolding record_object
has_key-keeps key o l h = ground arith

-- A key that is held stays held while more is recorded.
pub has_key-record_objects :
    (key : ℕ) (os : List StorageObject) (l : Ledger)
    → has_key key l.objects ≡ true
    → has_key key (record_objects os l).objects ≡ true
unfolding record_objects
has_key-record_objects key [] l h = h
has_key-record_objects key (o ∷ os) l h =
    has_key-record_objects key os (record_object o l).0 (has_key-keeps key o l h)

-- All of the keys are held.
abbrev pub AllHeld : List StorageObject → Ledger → Type 0
AllHeld os l = All (λ o. has_key o.object_key l.objects ≡ true) os

record_objects_held :
    (os : List StorageObject) (l : Ledger) → AllHeld os l → record_objects os l ≡ l
unfolding record_objects
record_objects_held [] l h = refl
record_objects_held (o ∷ os) l h = rw (record_object_old o l h.0) (record_objects_held os l h.1)

pub record_objects-AllHeld :
    (os : List StorageObject) (l : Ledger) → AllHeld os (record_objects os l)
unfolding record_objects
record_objects-AllHeld [] l = tt
record_objects-AllHeld (o ∷ os) l = (
  has_key-record_objects o.object_key os (record_object o l).0 (has_key-record_object o l),
  record_objects-AllHeld os (record_object o l).0,
)

-- A retried activity charges nothing: recording the same objects once more leaves the rows and
-- every counter as the first time left them.
pub record_objects_retry :
    (os : List StorageObject) (l : Ledger)
    → record_objects os (record_objects os l) ≡ record_objects os l
record_objects_retry os l =
    record_objects_held os (record_objects os l) (record_objects-AllHeld os l)
