-- ===== src/PipelineMirror/Charge.antt =====
-- Charging a block's objects, and the answer that lets a block start.
use scrapeflow.Base.{
  ℕ, ◌≡◌, ◌↔◌, ◌⊎◌, List, none, some, map, arith, ◌==◌, count, Option-cases, inl, inr,
}
use scrapeflow.Quota.{Settings}
use scrapeflow.Ledger.{StorageObject, record_objects}
use scrapeflow.Ledger.Balance.{IsBalanced, record_objects-IsBalanced, record_objects_retry}
use scrapeflow.PipelineMirror.{record_storage, StoredObject, row_of, find_block}
use scrapeflow.PipelineMirror.Mirrors.{
  RunStatus, PipelineRun, State, MirrorStatus, MirrorBlockInput, mirror_block_status, returned,
}

-- A block may start exactly when its run is running, no cancel was requested, and the run has one
-- block of that id: then and only then the mirror answers `running` to a mirror of `running`.
pub mirror_block_starts :
    (s : State) (i : MirrorBlockInput) (now : ℕ) (run : PipelineRun)
    → s.run ≡ some run
    → i.status ≡ MirrorStatus.running
    → ((mirror_block_status i now s).1 ≡ returned RunStatus.running) ↔ (
        (run.status ≡ RunStatus.running)
        × (run.cancel_requested_at ≡ none)
        × (count (λ b. b.block_id == i.block_id) s.blocks ≡ 1))
unfolding mirror_block_status
mirror_block_starts s i now run h m =
    (λ e. (ground arith, ground arith, ground arith), λ (a, b, c). ground arith)

module _ (settings : Settings) (block : ℕ) (objects : List StoredObject) where
  -- A retried `record_storage` changes nothing: whatever the state, the second call leaves it as
  -- the first one did, and a run or block that is missing leaves it as it was.
  pub record_storage_retry :
      (s : State)
      → (record_storage settings block objects (record_storage settings block objects s).0).0
        ≡ (record_storage settings block objects s).0
  unfolding record_storage
  record_storage_retry s = elim (Option-cases s.run) [
    | inl e ↦ ground arith
    | inr (run, e) ↦ elim (Option-cases (find_block block s.blocks)) [
      | inl f ↦ ground arith
      | inr (b, f) ↦
          ground (arith, record_objects_retry (map (row_of run.user_id b.id) objects) s.ledger)
    ]
  ]

  -- The ledger after is the one before, or has some objects recorded.
  charged :
      (s : State)
      → ((record_storage settings block objects s).0.ledger ≡ s.ledger)
        ⊎ ((rows : List StorageObject) × ((record_storage settings block objects s).0.ledger
              ≡ record_objects rows s.ledger))
  unfolding record_storage
  charged s = elim (Option-cases s.run) [
    | inl e ↦ inl (ground arith)
    | inr (run, e) ↦ elim (Option-cases (find_block block s.blocks)) [
      | inl f ↦ inl (ground arith)
      | inr (b, f) ↦ inr (map (row_of run.user_id b.id) objects, ground arith)
    ]
  ]

  -- Charging a block keeps every user's counter equal to the bytes of that user's rows.
  pub record_storage-IsBalanced :
      (legacy : ℕ → ℕ) (s : State)
      → IsBalanced legacy s.ledger
      → IsBalanced legacy (record_storage settings block objects s).0.ledger
  record_storage-IsBalanced legacy s h = elim (charged s) [
    | inl e ↦ rw e h
    | inr (rows, e) ↦ rw e (record_objects-IsBalanced legacy rows s.ledger h)
  ]
