-- ===== src/Batch/Counted.antt =====
-- The counters of a batch against its items, and its items against their runs.
use scrapeflow.Base.{
  ℕ, ◌≤◌, ◌≡◌, refl, arith, Bool, false, ◌&&◌, ◌||◌, List, [], ◌∷◌, ◌++◌, map, ◌==◌, if◌then◌else◌,
  count, length, All, if_ind, Bool-cases, inl, inr,
}
use scrapeflow.Batch.{
  close_item, first_run, is_closed, is_cancelled, settle, finish_batch, cancel_item, cancel_batch,
  start, Transaction, start_batch, mirror, finish, cancel, commit, commits,
}
use scrapeflow.Batch.Items.{
  Item, BatchStatus, State, is_completed, is_failed, recount, notify, item_status, mirror_item,
  Write, mirrored, is_written, mirror_run,
}

abbrev pub IsMirrored : Item → Type 0
IsMirrored i = i.status ≡ item_status i.run.status

pub record IsCounted (s : State) : Type 0 where
  pub completed : s.batch.completed ≡ count is_completed s.items
  pub failed : s.batch.failed ≡ count is_failed s.items
  pub total : s.batch.total ≡ length s.items
  pub items : All IsMirrored s.items
  pub deliveries : length s.deliveries ≤ (if is_closed s.batch.status then 1 else 0)

module _ (f : Item → Item) where
  pub length-map : (items : List Item) → length (map f items) ≡ length items
  length-map [] = refl
  length-map (i ∷ items) = omega (arith, length-map items)

  All-map :
      ((i : Item) → IsMirrored i → IsMirrored (f i))
      → (items : List Item) → All IsMirrored items
      → All IsMirrored (map f items)
  All-map keep [] a = tt
  All-map keep (i ∷ items) a = (keep i a.0, All-map keep items a.1)

mirrored-IsMirrored : (w : Write) (i : Item) → IsMirrored i → IsMirrored (mirrored w i)
unfolding mirror_item
mirrored-IsMirrored w i h = ground arith

close_item-IsMirrored :
    (b : Bool) (now : ℕ) (i : Item) → IsMirrored i → IsMirrored (close_item b now i)
unfolding close_item
close_item-IsMirrored b now i h = ground arith

cancel_item-IsMirrored : (i : Item) → IsMirrored i → IsMirrored (cancel_item i)
cancel_item-IsMirrored i h = ground arith

recounted :
    (s : State) (items : List Item)
    → All IsMirrored items
    → length items ≡ length s.items
    → IsCounted s
    → IsCounted (recount (record s { items = items }))
unfolding recount
recounted s items a l h = record {
  completed = refl;
  failed = refl;
  total = omega (arith, h.total, l);
  items = a;
  deliveries = h.deliveries;
}

notified : (s : State) → IsCounted s → IsCounted (notify s)
unfolding notify
notified s h = record {
  completed = h.completed;
  failed = h.failed;
  total = h.total;
  items = h.items;
  deliveries = h.deliveries;
}

start-IsCounted : (s : State) → IsCounted s → IsCounted (start s)
unfolding start
start-IsCounted s h = record {
  completed = ground (arith, h.completed);
  failed = ground (arith, h.failed);
  total = ground (arith, h.total);
  items = ground (arith, h.items);
  deliveries = ground (arith, h.deliveries);
}

mirror_run-IsCounted :
    (id : ℕ) (w : Write) (s : State) → IsCounted s → IsCounted (mirror_run id w s)
unfolding mirror_run
mirror_run-IsCounted id w s h =
    let f = λ (i : Item). if i.run.id == id then mirrored w i else i in
    let kept =
      All-map f (λ i m. if_ind IsMirrored (i.run.id == id) _ _ (mirrored-IsMirrored w i m) m)
        s.items h.items in
    if_ind IsCounted (count (λ i. (i.run.id == id) && is_written w i) s.items == 0) _ _ h (
      notified (recount (record s { items = map f s.items }))
        (recounted s (map f s.items) kept (length-map f s.items) h))

first_delivered :
    (items : List Item) (ds : List ℕ) → length ds ≤ 0 → length (first_run items ++ ds) ≤ 1
first_delivered [] ds h = omega (arith, h)
first_delivered (i ∷ items) ds h = omega (arith, h)

settle-IsCounted :
    (b : Bool) (now : ℕ) (s : State)
    → IsCounted s
    → is_closed s.batch.status ≡ false
    → IsCounted (settle b now s)
unfolding settle
settle-IsCounted b now s h o = record {
  completed = ground (arith, h.completed);
  failed = ground (arith, h.failed);
  total = ground (arith, h.total);
  items = ground (arith, h.items);
  deliveries =
      let none_yet : length s.deliveries ≤ 0 = ground (arith, h.deliveries, o) in
      ground (arith, none_yet, first_delivered s.items s.deliveries none_yet);
}

finish_batch-IsCounted :
    (asked : Bool) (now : ℕ) (s : State) → IsCounted s → IsCounted (finish_batch asked now s).0
unfolding finish_batch
finish_batch-IsCounted asked now s h =
    let by_cancel = asked || is_cancelled s.batch.status in
    let f = close_item by_cancel now in
    let items = map f s.items in
    let closed = recount (record s { items = items }) in
    let counted =
      recounted s items (All-map f (close_item-IsMirrored by_cancel now) s.items h.items)
        (length-map f s.items) h in
    elim (Bool-cases (is_closed s.batch.status)) [
      | inl over ↦ rw over h
      | inr not_over ↦ rw not_over (
          notified (settle by_cancel now closed)
            (settle-IsCounted by_cancel now closed counted (unfold recount in not_over)))
    ]

cancelled-IsCounted :
    (s : State)
    → IsCounted s
    → is_closed s.batch.status ≡ false
    → IsCounted (record s { batch = record s.batch { status = BatchStatus.cancelled } })
cancelled-IsCounted s h o = record {
  completed = h.completed;
  failed = h.failed;
  total = h.total;
  items = h.items;
  deliveries = ground (arith, h.deliveries, o);
}

cancel_batch-IsCounted : (s : State) → IsCounted s → IsCounted (cancel_batch s)
unfolding cancel_batch
cancel_batch-IsCounted s h =
    let items = map cancel_item s.items in
    let t : State = record s { batch = record s.batch { status = BatchStatus.cancelled } } in
    elim (Bool-cases (is_closed s.batch.status)) [
      | inl over ↦ rw over h
      | inr not_over ↦
          let done = notified (recount (record t { items = items })) (
            recounted t items (All-map cancel_item cancel_item-IsMirrored s.items h.items)
              (length-map cancel_item s.items) (cancelled-IsCounted s h not_over)) in
          rw not_over (if_ind IsCounted (is_cancelled s.batch.status) _ _ h done)
    ]

-- Through every sequence of mirrors, finishes and cancels, completed and failed count the items of
-- that status, total all of them; each item has its run's status (processing as running); and at
-- most one webhook row is written, none while the batch is open or when it was cancelled.
pub commits-IsCounted : (s : State) (ts : List Transaction) → IsCounted s → IsCounted (commits s ts)
unfolding commits commit
commits-IsCounted s [] h = h
commits-IsCounted s (t ∷ ts) h = commits-IsCounted (commit s t) ts (one t)
  where
    one : (t : Transaction) → IsCounted (commit s t)
    one start_batch = start-IsCounted s h
    one (mirror id w) = mirror_run-IsCounted id w s h
    one (finish asked now) = finish_batch-IsCounted asked now s h
    one cancel = cancel_batch-IsCounted s h
