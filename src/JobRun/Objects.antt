-- ===== src/JobRun/Objects.antt =====
-- Which objects of the bucket the ledger does not hold, and that discarding leaves none.
use scrapeflow.Base.{
  ℕ, ◌≡◌, Bool, true, false, ◌||◌, List, [], ◌∷◌, map, arith, ◌==◌, if◌then◌else◌, contains, update,
  Bool-cases, Option-cases, ==_iff, inl, inr, ◌∙◌,
}
use scrapeflow.Ledger.{StorageObject, Ledger, Minio, delete_minio_object, has_key, record_objects}
use scrapeflow.Ledger.Balance.{has_key-record_objects, record_objects-AllHeld, AllHeld}
use scrapeflow.Quota.{Settings}
use scrapeflow.JobRun.Running.{
  State, RecordJobObjectsInput, record_job_objects, discard_each, discard_unrecorded, StoredObject,
  paths, row_of, JobRun,
}

-- Every object of the bucket is a row of the ledger, or is one of `keys`.
abbrev pub HoldsOnly : List ℕ → State → Type 0
HoldsOnly keys s =
    (k : ℕ) → s.bucket k ≡ true → (has_key k s.ledger.objects || contains k keys) ≡ true

-- Nothing is stored that is not charged.
abbrev pub IsClean : State → Type 0
IsClean s = HoldsOnly [] s

-- MinIO removes what it is asked to remove.
abbrev pub Removes : Minio → Type 0
Removes m = (k : ℕ) → m.removes k ≡ true

module _ (m : Minio) (removes : Removes m) (recorded : List StorageObject) where
  -- An object that discarding leaves, if each such object was recorded or named, is recorded.
  discard_each-recorded :
      (keys : List ℕ) (bucket : ℕ → Bool) (k : ℕ)
      → (bucket k ≡ true → (has_key k recorded || contains k keys) ≡ true)
      → discard_each m recorded keys bucket k ≡ true
      → has_key k recorded ≡ true
  unfolding discard_each delete_minio_object
  discard_each-recorded [] bucket k h held = ground (arith, h held)
  discard_each-recorded (path ∷ rest) bucket k h held =
      discard_each-recorded rest
        (if has_key path recorded
          then bucket
          else if delete_minio_object m path
          then update bucket path false
          else bucket)
        k (λ held'. ground (arith, h, removes path, ==_iff path k)) held

  -- Discarding touches the keys named only.
  discard_each-other :
      (keys : List ℕ) (bucket : ℕ → Bool) (k : ℕ)
      → contains k keys ≡ false
      → discard_each m recorded keys bucket k ≡ bucket k
  unfolding discard_each delete_minio_object
  discard_each-other [] bucket k n = λ x. bucket k
  discard_each-other (path ∷ rest) bucket k n =
      discard_each-other rest
        (if has_key path recorded
          then bucket
          else if delete_minio_object m path
          then update bucket path false
          else bucket)
        k (ground arith)
      ∙ kept
    where
      kept :
          (if has_key path recorded
              then bucket
              else if delete_minio_object m path
              then update bucket path false
              else bucket)
            k
          ≡ bucket k
      kept = ground arith

-- Discarding the keys that were not recorded leaves only recorded objects.
pub discard_unrecorded-IsClean :
    (m : Minio) (keys : List ℕ) (s : State)
    → Removes m
    → HoldsOnly keys s
    → IsClean (discard_unrecorded m keys s)
unfolding discard_unrecorded
discard_unrecorded-IsClean m keys s removes h k held =
    ground (arith, discard_each-recorded m removes s.ledger.objects keys s.bucket k (h k) held)

held_of_contains :
    (user k : ℕ) (run : JobRun) (objects : List StoredObject) (l : Ledger)
    → AllHeld (map (row_of user run) objects) l
    → contains k (paths objects) ≡ true
    → has_key k l.objects ≡ true
held_of_contains user k run [] l h c = cc
held_of_contains user k run (o ∷ os) l h c = elim (Bool-cases (o.path == k)) [
  | inl e ↦ rw (← (==_iff o.path k).0 e) h.0
  | inr e ↦ held_of_contains user k run os l h.1 (ground arith)
]

-- Recording the keys does too.
pub record_objects-IsClean :
    (user : ℕ) (run : JobRun) (objects : List StoredObject) (s : State) (k : ℕ)
    → HoldsOnly (paths objects) s
    → s.bucket k ≡ true
    → (has_key k (record_objects (map (row_of user run) objects) s.ledger).objects || contains k [])
      ≡ true
record_objects-IsClean user run objects s k h held =
    let rows = map (row_of user run) objects in
    elim (Bool-cases (has_key k s.ledger.objects)) [
      | inl e ↦ rw (has_key-record_objects k rows s.ledger e)
      | inr e ↦ rw (
          held_of_contains user k run objects (record_objects rows s.ledger)
            (record_objects-AllHeld rows s.ledger) (ground (arith, h k)))
    ]

-- record_job_objects, on every branch: a stopped run, a missing row and the storage limit discard.
pub record_job_objects-IsClean :
    (settings : Settings) (m : Minio) (i : RecordJobObjectsInput) (now : ℕ) (s : State)
    → Removes m
    → HoldsOnly (paths i.objects) s
    → IsClean (record_job_objects settings m i now s).0
unfolding record_job_objects
record_job_objects-IsClean settings m i now s removes h k held =
    let dropped = discard_unrecorded-IsClean m (paths i.objects) s removes h k in
    elim (Option-cases s.run) [
      | inl e ↦ ground (arith, dropped)
      | inr (run, e) ↦ ground (arith, dropped, record_objects-IsClean s.user_id run i.objects s k h)
    ]

-- What became of the objects of a call: `t` holds in its ledger each of `keys` that is still in the
-- bucket, and every other object is in the bucket as it was in `s`.
pub record IsSettled (keys : List ℕ) (s t : State) : Type 0 where
  pub charged :
      (k : ℕ) → contains k keys ≡ true → t.bucket k ≡ true → has_key k t.ledger.objects ≡ true
  pub others : (k : ℕ) → contains k keys ≡ false → t.bucket k ≡ s.bucket k

discard_unrecorded-IsSettled :
    (m : Minio) (keys : List ℕ) (s : State)
    → Removes m
    → IsSettled keys s (discard_unrecorded m keys s)
unfolding discard_unrecorded
discard_unrecorded-IsSettled m keys s removes = record {
  charged = λ k named held.
      discard_each-recorded m removes s.ledger.objects keys s.bucket k (λ h. ground arith) held;
  others = λ k n. discard_each-other m removes s.ledger.objects keys s.bucket k n;
}

-- With a MinIO that removes what it is asked to remove: after record_job_objects, on every branch (a
-- stopped run, a missing row and the storage limit discard), each object of its input that is in the
-- bucket is a row of the ledger, and the other objects of the bucket, of this run or another, are
-- untouched.
pub record_job_objects-IsSettled :
    (settings : Settings) (m : Minio) (i : RecordJobObjectsInput) (now : ℕ) (s : State)
    → Removes m
    → IsSettled (paths i.objects) s (record_job_objects settings m i now s).0
unfolding record_job_objects
record_job_objects-IsSettled settings m i now s removes = record {
  charged = λ k named held. elim (Option-cases s.run) [
    | inl e ↦ ground (arith, dropped.charged k named)
    | inr (run, e) ↦ ground (arith, dropped.charged k named, recorded run k named)
  ];
  others = λ k n. elim (Option-cases s.run) [
    | inl e ↦ ground (arith, dropped.others k n)
    | inr (run, e) ↦ ground (arith, dropped.others k n)
  ];
}
  where
    dropped : IsSettled (paths i.objects) s (discard_unrecorded m (paths i.objects) s)
    dropped = discard_unrecorded-IsSettled m (paths i.objects) s removes

    recorded :
        (run : JobRun) (k : ℕ)
        → contains k (paths i.objects) ≡ true
        → has_key k (record_objects (map (row_of s.user_id run) i.objects) s.ledger).objects ≡ true
    recorded run k named =
        let rows = map (row_of s.user_id run) i.objects in
        held_of_contains s.user_id k run i.objects (record_objects rows s.ledger)
          (record_objects-AllHeld rows s.ledger) named
