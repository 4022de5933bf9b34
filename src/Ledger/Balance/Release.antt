-- ===== src/Ledger/Balance/Release.antt =====
-- Released objects leave the counter together with their rows.
use scrapeflow.Base.{
  ℕ, ◌+◌, ◌≡◌, refl, ◌∙◌, Bool, false, List, [], ◌∷◌, arith, ◌==◌, filter, Bool-cases, ==_iff, inl,
  inr, All, length,
}
use scrapeflow.Quota.Usage.{row_used, used-decrement}
use scrapeflow.Ledger.{
  StorageObject, Ledger, Minio, has_key, ReleaseOutcome, release_row, release_from, release_objects,
  objects_for_user, no_outcome,
}
use scrapeflow.Ledger.Balance.{held, HasUniqueKeys, IsBalanced}
use scrapeflow.Ledger.Balance.Deleted.{
  Among, Among-delete_row, delete_row-HasUniqueKeys, held-delete_row,
}

module _ (legacy : ℕ → ℕ) (m : Minio) where
  release_row-counted :
      (row : StorageObject) (l : Ledger) (out : ReleaseOutcome) (user : ℕ)
      → IsBalanced legacy l
      → Among row l.objects
      → row_used ((release_row m row (l, out)).0.quotas user)
        ≡ held user (release_row m row (l, out)).0.objects + legacy user
  unfolding release_row
  release_row-counted row l out user b h = ground (
    arith,
    b.counted user,
    used-decrement row.user_id row.bytes l.quotas user,
    held-delete_row user row l.objects b.unique h,
  )

  release_row-HasUniqueKeys :
      (row : StorageObject) (l : Ledger) (out : ReleaseOutcome)
      → IsBalanced legacy l
      → HasUniqueKeys (release_row m row (l, out)).0.objects
  unfolding release_row
  release_row-HasUniqueKeys row l out b = elim (Bool-cases (m.removes row.object_key)) [
    | inl e ↦ rw e (delete_row-HasUniqueKeys row.object_key l.objects b.unique)
    | inr e ↦ rw e b.unique
  ]

  release_row-IsBalanced :
      (row : StorageObject) (l : Ledger) (out : ReleaseOutcome)
      → IsBalanced legacy l
      → Among row l.objects
      → IsBalanced legacy (release_row m row (l, out)).0
  release_row-IsBalanced row l out b h = record {
    unique = release_row-HasUniqueKeys row l out b;
    counted = λ user. release_row-counted row l out user b h;
  }

  release_row-Among :
      (row o : StorageObject) (l : Ledger) (out : ReleaseOutcome)
      → (o.object_key == row.object_key) ≡ false
      → Among o l.objects
      → Among o (release_row m row (l, out)).0.objects
  unfolding release_row
  release_row-Among row o l out ne h = elim (Bool-cases (m.removes row.object_key)) [
    | inl e ↦ rw e (Among-delete_row row.object_key o l.objects ne h)
    | inr e ↦ rw e h
  ]

  -- The rows still to be released stay in the table.
  release_row-All :
      (row : StorageObject) (rows : List StorageObject) (l : Ledger) (out : ReleaseOutcome)
      → has_key row.object_key rows ≡ false
      → All (λ o. Among o l.objects) rows
      → All (λ o. Among o (release_row m row (l, out)).0.objects) rows
  release_row-All row [] l out new h = tt
  release_row-All row (o ∷ rows) l out new h = (
    release_row-Among row o l out (ground arith) h.0,
    release_row-All row rows l out (ground arith) h.1,
  )

  release_from-IsBalanced :
      (rows : List StorageObject) (l : Ledger) (out : ReleaseOutcome)
      → HasUniqueKeys rows
      → All (λ o. Among o l.objects) rows
      → IsBalanced legacy l
      → IsBalanced legacy (release_from m rows (l, out)).0
  unfolding release_from
  release_from-IsBalanced [] l out u h b = b
  release_from-IsBalanced (row ∷ rows) l out u h b =
      let s = release_row m row (l, out) in
      release_from-IsBalanced rows s.0 s.1 u.1 (release_row-All row rows l out u.0 h.1)
        (release_row-IsBalanced row l out b h.0)

-- Rows selected from the table by any test are rows of the table, with their keys still unique.
has_key-filter :
    (p : StorageObject → Bool) (k : ℕ) (rows : List StorageObject)
    → has_key k rows ≡ false
    → has_key k (filter p rows) ≡ false
has_key-filter p k [] h = refl
has_key-filter p k (x ∷ rows) h = ground (arith, has_key-filter p k rows)

filter-HasUniqueKeys :
    (p : StorageObject → Bool) (rows : List StorageObject)
    → HasUniqueKeys rows
    → HasUniqueKeys (filter p rows)
filter-HasUniqueKeys p [] u = tt
filter-HasUniqueKeys p (x ∷ rows) u = elim (Bool-cases (p x)) [
  | inl e ↦ rw e (has_key-filter p x.object_key rows u.0, filter-HasUniqueKeys p rows u.1)
  | inr e ↦ rw e (filter-HasUniqueKeys p rows u.1)
]

Among-weaken :
    (x : StorageObject) (rows os : List StorageObject)
    → All (λ o. Among o rows) os
    → All (λ o. Among o (x ∷ rows)) os
Among-weaken x rows [] h = tt
Among-weaken x rows (o ∷ os) h = (inr h.0, Among-weaken x rows os h.1)

filter-Among :
    (p : StorageObject → Bool) (rows : List StorageObject) → All (λ o. Among o rows) (filter p rows)
filter-Among p [] = tt
filter-Among p (x ∷ rows) = elim (Bool-cases (p x)) [
  | inl e ↦ rw e (inl refl, Among-weaken x rows (filter p rows) (filter-Among p rows))
  | inr e ↦ rw e (Among-weaken x rows (filter p rows) (filter-Among p rows))
]

-- Releasing any selection of the table's rows, whatever MinIO refuses to remove, keeps every user's
-- counter equal to the bytes of that user's rows plus what was charged before there were rows, and
-- the keys unique.
pub release_objects-IsBalanced :
    (legacy : ℕ → ℕ) (m : Minio) (p : StorageObject → Bool) (l : Ledger)
    → IsBalanced legacy l
    → IsBalanced legacy (release_objects m (filter p l.objects) l).0
unfolding release_objects
release_objects-IsBalanced legacy m p l b =
    release_from-IsBalanced legacy m (filter p l.objects) l no_outcome
      (filter-HasUniqueKeys p l.objects b.unique) (filter-Among p l.objects) b

module _ (legacy : ℕ → ℕ) (m : Minio) (user : ℕ) where
  release_row_freed :
      (row : StorageObject) (l : Ledger) (out : ReleaseOutcome)
      → IsBalanced legacy l
      → Among row l.objects
      → row.user_id ≡ user
      → row_used (l.quotas user) + out.freed_bytes
        ≡ row_used ((release_row m row (l, out)).0.quotas user)
          + (release_row m row (l, out)).1.freed_bytes
  unfolding release_row
  release_row_freed row l out b h mine = ground (
    arith,
    b.counted user,
    used-decrement row.user_id row.bytes l.quotas user,
    held-delete_row user row l.objects b.unique h,
  )

  release_row_counts :
      (row : StorageObject) (l : Ledger) (out : ReleaseOutcome)
      → (release_row m row (l, out)).1.released + (release_row m row (l, out)).1.failed
        ≡ out.released + out.failed + 1
  unfolding release_row
  release_row_counts row l out = ground arith

  release_from_freed :
      (rows : List StorageObject) (l : Ledger) (out : ReleaseOutcome)
      → HasUniqueKeys rows
      → All (λ o. Among o l.objects) rows
      → All (λ o. o.user_id ≡ user) rows
      → IsBalanced legacy l
      → let s = release_from m rows (l, out) in
        (row_used (l.quotas user) + out.freed_bytes ≡ row_used (s.0.quotas user) + s.1.freed_bytes)
        × (s.1.released + s.1.failed ≡ out.released + out.failed + length rows)
  unfolding release_from
  release_from_freed [] l out u h mine b = (refl, omega arith)
  release_from_freed (row ∷ rows) l out u h mine b =
      let s = release_row m row (l, out) in
      let ih =
        release_from_freed rows s.0 s.1 u.1 (release_row-All legacy m row rows l out u.0 h.1) mine.1
          (release_row-IsBalanced legacy m row l out b h.0) in
      (
        release_row_freed row l out b h.0 mine.0 ∙ ih.0,
        omega (arith, ih.1, release_row_counts row l out),
      )

  filter_mine :
      (rows : List StorageObject)
      → All (λ o. o.user_id ≡ user) (filter (λ o. o.user_id == user) rows)
  filter_mine [] = tt
  filter_mine (x ∷ rows) = elim (Bool-cases (x.user_id == user)) [
    | inl e ↦ rw e ((==_iff x.user_id user).0 e, filter_mine rows)
    | inr e ↦ rw e (filter_mine rows)
  ]

  -- Releasing what a user holds takes exactly the freed bytes off the user's counter, and reports
  -- each of the user's objects as released or as failed.
  pub release_objects_freed :
      (l : Ledger)
      → IsBalanced legacy l
      → let s = release_objects m (objects_for_user user l) l in
        (row_used (l.quotas user) ≡ row_used (s.0.quotas user) + s.1.freed_bytes)
        × (s.1.released + s.1.failed ≡ length (objects_for_user user l))
  unfolding release_objects objects_for_user
  release_objects_freed l b =
      let mine = λ (o : StorageObject). o.user_id == user in
      let r =
        release_from_freed (filter mine l.objects) l no_outcome
          (filter-HasUniqueKeys mine l.objects b.unique) (filter-Among mine l.objects)
          (filter_mine l.objects) b in
      (omega (arith, r.0), omega (arith, r.1))
