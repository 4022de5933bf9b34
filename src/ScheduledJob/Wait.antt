-- ===== src/ScheduledJob/Wait.antt =====
-- The waiting loop ends.
use scrapeflow.Base.{
  ℕ, zero, suc, ◌+◌, ◌*◌, ◌≤◌, ◌≡◌, refl, arith, Bool, true, false, Option, none, some, leb, min,
  Bool-cases, inl, inr,
}
use scrapeflow.Quota.{QuotaType, monthly_runs, concurrent_jobs, storage_bytes}
use scrapeflow.ScheduledJob.{
  State, Job, Verdict, Meters, Ask, find_run, skip, fail, wait, insert, meter, admit_scheduled_run,
  wait_first, wait_max, wait_cap, is_waiting, loop, run,
}

-- The last chance is never answered by another wait.
last_chance_answers :
    (exceeded : Meters) (run_id now : ℕ) (s : State)
    → is_waiting (admit_scheduled_run exceeded true run_id now s).1 ≡ false
unfolding admit_scheduled_run meter skip fail insert
last_chance_answers exceeded run_id now s = ground arith

-- A call that admits a tick whose run is not there found no meter exceeded.
only_room_admits :
    (exceeded : Meters) (last_chance : Bool) (run_id now : ℕ) (s : State)
    → (admit_scheduled_run exceeded last_chance run_id now s).1 ≡ Verdict.admitted
    → find_run run_id s.runs ≡ none
    → (q : QuotaType) → exceeded q ≡ false
unfolding admit_scheduled_run meter skip fail wait insert
only_room_admits exceeded last_chance run_id now s h new monthly_runs = ground arith
only_room_admits exceeded last_chance run_id now s h new storage_bytes = ground arith
only_room_admits exceeded last_chance run_id now s h new concurrent_jobs = ground arith

-- The tick of a live job whose run is not there yet, when nothing but the slots is full.
pub record IsCrowded (exceeded : Meters) (run_id : ℕ) (s : State) (job : Job) : Type 0 where
  pub present : s.job ≡ some job
  pub is_v2 : job.is_v2 ≡ true
  pub is_active : job.is_active ≡ true
  pub has_cron : job.has_cron ≡ true
  pub unrun : find_run run_id s.runs ≡ none
  pub runs_left : exceeded monthly_runs ≡ false
  pub storage_left : exceeded storage_bytes ≡ false
  pub no_slot : exceeded concurrent_jobs ≡ true

-- The job's row says that the tick was skipped for want of a slot; no run and no delivery is written.
abbrev pub slot_skipped : Job → ℕ → State → State
slot_skipped job now s = record s {
  job = some (record job {
    schedule_skipped_at = some now;
    schedule_skip_reason = some concurrent_jobs;
    schedule_waiting_since = none;
  });
}

crowded_skips :
    (exceeded : Meters) (run_id now : ℕ) (s : State) (job : Job)
    → IsCrowded exceeded run_id s job
    → admit_scheduled_run exceeded true run_id now s ≡ (slot_skipped job now s, Verdict.skipped)
unfolding admit_scheduled_run meter skip
crowded_skips exceeded run_id now s job c = ground (
  arith, c.present, c.unrun, c.is_v2, c.is_active, c.has_cron, c.runs_left, c.storage_left,
  c.no_slot,
)

-- The tick's answer `o` is that of a call made at `now`, which found the tables as `met`.
pub record IsAnswered (asks : ℕ → Ask) (run_id started : ℕ) (o : Option (State × Verdict))
    : Type 0 where
  pub now : ℕ
  pub met : State
  pub returned :
      o
      ≡ some (admit_scheduled_run (asks now).exceeded (leb (started + wait_cap) now) run_id now met)
  pub answered :
      is_waiting
        (admit_scheduled_run (asks now).exceeded (leb (started + wait_cap) now) run_id now met).1
      ≡ false
  pub admitted :
      (t : State)
      → o ≡ some (t, Verdict.admitted)
      → find_run run_id met.runs ≡ none
      → (q : QuotaType) → (asks now).exceeded q ≡ false
  pub capped :
      (job : Job)
      → started + wait_cap ≤ now
      → IsCrowded (asks now).exceeded run_id met job
      → o ≡ some (slot_skipped job now met, Verdict.skipped)

module _ (asks : ℕ → Ask) (run_id started : ℕ) where
  abbrev asked : ℕ → State → State × Verdict
  asked now s =
      let ask = asks now in
      admit_scheduled_run ask.exceeded (leb (started + wait_cap) now) run_id now (ask.others s)

  asked-capped :
      (now : ℕ) (s : State) (job : Job)
      → started + wait_cap ≤ now
      → IsCrowded (asks now).exceeded run_id ((asks now).others s) job
      → asked now s ≡ (slot_skipped job now ((asks now).others s), Verdict.skipped)
  asked-capped now s job late c =
      let last : leb (started + wait_cap) now ≡ true = ground arith in
      rw last (crowded_skips (asks now).exceeded run_id now ((asks now).others s) job c)

  loop_answers :
      (n now delay : ℕ) (s : State)
      → is_waiting (asked now s).1 ≡ false
      → loop asks run_id started (suc n) now delay s ≡ some (asked now s)
  loop_answers n now delay s h = unfold loop in rw h refl

  asked-IsAnswered :
      (now : ℕ) (s : State)
      → is_waiting (asked now s).1 ≡ false
      → IsAnswered asks run_id started (some (asked now s))
  asked-IsAnswered now s h = record {
    now = now;
    met = (asks now).others s;
    returned = refl;
    answered = h;
    admitted = λ t e.
        only_room_admits (asks now).exceeded (leb (started + wait_cap) now) run_id now
          ((asks now).others s) (cc e);
    capped = λ job late c. rw (asked-capped now s job late c) refl;
  }

  loop-IsAnswered' :
      (n now delay : ℕ) (s : State)
      → is_waiting (asked now s).1 ≡ false
      → IsAnswered asks run_id started (loop asks run_id started (suc n) now delay s)
  loop-IsAnswered' n now delay s h = rw (loop_answers n now delay s h) (asked-IsAnswered now s h)

  loop_waits :
      (n now delay : ℕ) (s : State)
      → is_waiting (asked now s).1 ≡ true
      → loop asks run_id started (suc n) now delay s
        ≡ loop asks run_id started n
            (now + (asks now).took + delay)
            (min (delay * 2) wait_max)
            (asked now s).0
  loop_waits n now delay s h = unfold loop in rw h refl

  -- A wait lasts 15 seconds at least, so the calls left reach the cap.
  loop-IsAnswered :
      (n now delay : ℕ) (s : State)
      → started + wait_cap ≤ now + 15 * n
      → 15 ≤ delay
      → IsAnswered asks run_id started (loop asks run_id started (suc n) now delay s)
  loop-IsAnswered zero now delay s h d =
      let last : leb (started + wait_cap) now ≡ true = ground (arith, h) in
      loop-IsAnswered' zero now delay s
        (rw last (last_chance_answers (asks now).exceeded run_id now ((asks now).others s)))
  loop-IsAnswered (suc n) now delay s h d = elim (Bool-cases (is_waiting (asked now s).1)) [
    | inr answered ↦ loop-IsAnswered' (suc n) now delay s answered
    | inl waits ↦
        let later =
          loop-IsAnswered n (now + (asks now).took + delay) (min (delay * 2) wait_max)
            (asked now s).0 (omega (arith, h, d)) (omega (arith, d)) in
        rw (loop_waits (suc n) now delay s waits) later
  ]

  -- A tick is answered by one of its first `calls` calls, whatever the meters say and however long
  -- the calls take: its answer is that of admit_scheduled_run at some time, is not waiting, and admits
  -- a run that was not there only where no meter was exceeded; 24 hours or more after the start, with
  -- a live job, no run yet and only the slots full, it skips the tick for want of a slot and writes no
  -- run.
  pub run-IsAnswered : (s : State) → IsAnswered asks run_id started (run asks run_id started s)
  unfolding run
  run-IsAnswered s = loop-IsAnswered 5761 started wait_first s (omega arith) (omega arith)
