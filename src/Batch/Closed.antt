-- ===== src/Batch/Closed.antt =====
-- finish_batch leaves nothing open, and what it leaves stays.
use scrapeflow.Base.{
  ℕ, ◌≡◌, ◌∙◌, refl, arith, Bool, true, false, ◌&&◌, ◌||◌, List, [], ◌∷◌, map, ◌==◌, if◌then◌else◌,
  count, length, All,
}
use scrapeflow.JobRun.Running.{is_active}
use scrapeflow.Batch.{
  close_item, is_closed, is_cancelled, settle, finish_batch, cancel_batch, start, Transaction,
  start_batch, mirror, finish, cancel, commit, commits,
}
use scrapeflow.Batch.Items.{
  Item, BatchStatus, State, is_completed, recount, notify, Write, write, is_written, mirror_run,
}
use scrapeflow.Batch.Counted.{IsCounted, length-map}

abbrev pub IsOver : Item → Type 0
IsOver i = is_active i.run.status ≡ false

-- Nothing is left to do, and the batch says so.
pub record IsClosed (s : State) : Type 0 where
  pub over : All IsOver s.items
  pub terminal : is_closed s.batch.status || is_cancelled s.batch.status ≡ true

write_over : (w : Write) (i : Item) → IsOver i → is_written w i ≡ false
unfolding write
write_over w i h = ground arith

unwritten :
    (id : ℕ) (w : Write) (items : List Item)
    → All IsOver items
    → count (λ i. (i.run.id == id) && is_written w i) items ≡ 0
unwritten id w [] a = refl
unwritten id w (i ∷ items) a = ground (arith, write_over w i a.0, unwritten id w items a.1)

close_item_over : (b : Bool) (now : ℕ) (i : Item) → IsOver (close_item b now i)
unfolding close_item
close_item_over b now i = ground arith

closed_over : (b : Bool) (now : ℕ) (items : List Item) → All IsOver (map (close_item b now) items)
closed_over b now [] = tt
closed_over b now (i ∷ items) = (close_item_over b now i, closed_over b now items)

closed_same :
    (b : Bool) (now : ℕ) (items : List Item)
    → All IsOver items
    → map (close_item b now) items ≡ items
unfolding close_item
closed_same b now [] a = refl
closed_same b now (i ∷ items) a = ground (arith, a.0, closed_same b now items a.1)

-- What a later transaction may not change.
abbrev pub Same : State → State → Type 0
Same s t = (t.items ≡ s.items) × (t.batch.status ≡ s.batch.status) × (t.deliveries ≡ s.deliveries)

pub commit-Same : (s : State) (t : Transaction) → IsClosed s → Same s (commit s t)
unfolding commit start mirror_run cancel_batch finish_batch settle recount notify
commit-Same s start_batch h =
    (ground (arith, h.terminal), ground (arith, h.terminal), ground (arith, h.terminal))
commit-Same s (mirror id w) h =
    let unchanged = unwritten id w s.items h.over in
    (ground (arith, unchanged), ground (arith, unchanged), ground (arith, unchanged))
commit-Same s (finish asked now) h =
    let same = closed_same true now s.items h.over in
    (
      ground (arith, h.terminal, same),
      ground (arith, h.terminal, same),
      ground (arith, h.terminal, same),
    )
commit-Same s cancel h =
    (ground (arith, h.terminal), ground (arith, h.terminal), ground (arith, h.terminal))

pub commit-IsClosed : (s : State) (t : Transaction) → IsClosed s → IsClosed (commit s t)
commit-IsClosed s t h =
    let (items, status, deliveries) = commit-Same s t h in
    record { over = rw items h.over; terminal = rw status h.terminal }

commits-Same : (s : State) (ts : List Transaction) → IsClosed s → Same s (commits s ts)
unfolding commits
commits-Same s [] h = (refl, refl, refl)
commits-Same s (t ∷ ts) h =
    let (i, b, d) = commit-Same s t h in
    let (i', b', d') = commits-Same (commit s t) ts (commit-IsClosed s t h) in
    (i' ∙ i, b' ∙ b, d' ∙ d)

-- The status that the items ask for.
abbrev pub verdict : Bool → List Item → BatchStatus
verdict true items = BatchStatus.cancelled
verdict false items =
    if count is_completed items == length items
    then BatchStatus.completed
    else BatchStatus.partial_failure

pub finish_batch-IsClosed :
    (asked : Bool) (now : ℕ) (s : State)
    → IsCounted s
    → is_closed s.batch.status ≡ false
    → let t = (finish_batch asked now s).0 in
      IsClosed t × (t.batch.status ≡ verdict (asked || is_cancelled s.batch.status) t.items)
unfolding finish_batch settle recount notify
finish_batch-IsClosed asked now s h o =
    let by_cancel = asked || is_cancelled s.batch.status in
    let over = closed_over by_cancel now s.items in
    let long = length-map (close_item by_cancel now) s.items in
    (
      record { over = ground (arith, o, over); terminal = ground (arith, o) },
      ground (arith, o, h.total, long),
    )

-- On a batch that has not closed, finish_batch ends every run that is still active and gives the
-- batch its outcome: cancelled when it was asked to or the batch was, else completed when all items
-- are completed, else partial_failure. Whatever mirrors, finishes and cancels commit after leave the
-- items, their runs, the outcome and the webhook rows as they are.
pub finish_batch-final :
    (asked : Bool) (now : ℕ) (s : State) (ts : List Transaction)
    → IsCounted s
    → is_closed s.batch.status ≡ false
    → let t = (finish_batch asked now s).0 in
      IsClosed t
      × (t.batch.status ≡ verdict (asked || is_cancelled s.batch.status) t.items)
      × Same t (commits t ts)
finish_batch-final asked now s ts h o =
    let (closed, outcome) = finish_batch-IsClosed asked now s h o in
    (closed, outcome, commits-Same (finish_batch asked now s).0 ts closed)
