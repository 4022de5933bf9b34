-- ===== src/WebhookBlock/Stopped.antt =====
-- A webhook block of a run that was cancelled, or is over, before a retry.
use scrapeflow.Base.{
  ℕ, suc, ◌<◌, ◌≡◌, ◌≢◌, refl, arith, List, [], ◌∷◌, String, Option, none, some, true, ltb,
}
use scrapeflow.PipelineMirror.Mirrors.{
  RunStatus, State, PipelineRun, MirrorStatus, mirror_block_status, refuses_start, cancel_requested,
  Answer, returned, no_run, no_block,
}
use scrapeflow.PipelineMirror.Status.{HasStopped}
use scrapeflow.PipelineMirror.Reaches.{Reaches-stopped}
use scrapeflow.Temporal.Commits.{Reaches-commits}
use scrapeflow.Temporal.{commits, DbCall, Ending, answers, timed_out, timed_out_after, Called}
use scrapeflow.WebhookBlock.{
  WebhookInput, Attempt, AttemptEnd, mirror, mirror_input, after_start, deliver_webhook,
  after_attempt, attempts_from, delivered, final, retried,
}
use scrapeflow.WebhookBlock.Attempts.{mirror-Reaches, after_start-Reaches}

module _ (i : WebhookInput) (s : State) (stopped : HasStopped s) where
  mirror_block_refuses :
      (now : ℕ) (run : PipelineRun)
      → s.run ≡ some run
      → (mirror_block_status (mirror_input i MirrorStatus.running none) now s).1
        ≢ returned RunStatus.running
  unfolding mirror_block_status refuses_start cancel_requested
  mirror_block_refuses now run h = ground (arith, stopped.2)

module _ (i : WebhookInput) (s : State) (stopped : HasStopped s) where
  -- The mirror answers anything but running, when it answers.
  mirror_refuses :
      (c : DbCall) (ending : Ending)
      → (mirror i MirrorStatus.running none (record c { ending = ending }) s).1
        ≢ some (returned RunStatus.running)
  mirror_refuses c answers h =
      let later = Reaches-stopped {ends = true} s _ (Reaches-commits s c.meanwhile) stopped in
      mirror_block_refuses i (commits c.meanwhile s) later c.now later.0 later.1 (cc)
  mirror_refuses c timed_out h = cc
  mirror_refuses c timed_out_after h = cc

  mirror_stopped : (c : DbCall) → HasStopped (mirror i MirrorStatus.running none c s).0
  mirror_stopped c =
      Reaches-stopped {ends = true} s _ (mirror-Reaches i MirrorStatus.running none s c) stopped

module _ (str : ℕ → String) (i : WebhookInput) (n : ℕ) where
  unsent :
      (a : Attempt) (m : Option (Answer RunStatus)) (s : State)
      → m ≢ some (returned RunStatus.running)
      → (after_start str i n a m s).1 ≡ 0
  unfolding after_start
  unsent a (some (returned RunStatus.running)) s h = absurd (h refl)
  unsent a (some (returned RunStatus.completed)) s h = refl
  unsent a (some (returned RunStatus.failed)) s h = refl
  unsent a (some (returned RunStatus.cancelled)) s h = refl
  unsent a (some no_run) s h = refl
  unsent a (some no_block) s h = refl
  unsent a none s h = refl

  deliver_webhook_unsent :
      (a : Attempt) (s : State)
      → 1 < n
      → HasStopped s
      → ((deliver_webhook str i n a s).1 ≡ 0) × HasStopped (deliver_webhook str i n a s).0
  deliver_webhook_unsent a s l h =
      let (s', started) = mirror i MirrorStatus.running none a.start s in
      let later : ltb 1 n ≡ true = ground arith in
      unfold deliver_webhook in
      rw later (
        unsent a started s' (mirror_refuses i s h a.start a.start.ending),
        Reaches-stopped {ends = true} s' _ (after_start-Reaches str i n a started s')
            (mirror_stopped i s h a.start),
      )

module _ (str : ℕ → String) (i : WebhookInput) where
  after_attempt_unsent :
      (n : ℕ) (a : Attempt) (s t : State) (sent more : ℕ) (end : AttemptEnd)
      (outcome : Called (Unit {0}))
      → sent ≡ 0
      → more ≡ 0
      → (after_attempt i n a (s, sent, end) (t, more, outcome)).1 ≡ 0
  after_attempt_unsent n a s t sent more delivered outcome h m = h
  after_attempt_unsent n a s t sent more (final e) outcome h m = h
  after_attempt_unsent n a s t sent more (retried message) outcome h m = ground arith

  -- Once the run's cancel was requested, or the run is over, no retry of a webhook block sends a
  -- request.
  pub retries-unsent :
      (n : ℕ) (as' : List Attempt) (s : State)
      → 1 < n
      → HasStopped s
      → (attempts_from str i n as' s).1 ≡ 0
  unfolding attempts_from
  retries-unsent n [] s l h = refl
  retries-unsent n (a ∷ later) s l h =
      let (t, sent, end) = deliver_webhook str i n a s in
      let (u, more, outcome) = attempts_from str i (suc n) later t in
      let (none_sent, stopped) = deliver_webhook_unsent str i n a s l h in
      after_attempt_unsent n a t u sent more end outcome none_sent
        (retries-unsent (suc n) later t (omega arith) stopped)
