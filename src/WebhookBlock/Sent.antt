-- ===== src/WebhookBlock/Sent.antt =====
-- How many requests leave.
use scrapeflow.Base.{
  ℕ, suc, ◌+◌, ◌≤◌, ◌<◌, arith, List, [], ◌∷◌, String, Option, none, some, Bool, true, false,
  if_ind, ltb,
}
use scrapeflow.PipelineMirror.Mirrors.{
  RunStatus, State, MirrorStatus, Answer, returned, no_run, no_block,
}
use scrapeflow.Temporal.{Called}
use scrapeflow.WebhookBlock.{
  WebhookInput, Attempt, AttemptEnd, mirror, post, checked_post, after_start, deliver_webhook,
  after_attempt, attempts_from, delivered, final, retried,
}

module _ (str : ℕ → String) (i : WebhookInput) (n : ℕ) where
  post_sent :
      (a : Attempt) (error : Option String) (s : State)
      → (post str i n (record a { error = error }) s).1 ≤ 1
  unfolding post
  post_sent a none s = omega arith
  post_sent a (some error) s =
      if_ind (λ (o : State × ℕ × AttemptEnd). o.1 ≤ 1) (ltb n i.maximum_attempts) _ _ (omega arith)
        (omega arith)

  checked_post_sent :
      (a : Attempt) (blocked : Option String) (decrypts : Bool) (s : State)
      → (checked_post str i n (record a { blocked = blocked; decrypts = decrypts }) s).1 ≤ 1
  unfolding checked_post
  checked_post_sent a (some reason) d s = omega arith
  checked_post_sent a none true s = post_sent a a.error s
  checked_post_sent a none false s = omega arith

  after_start_sent :
      (a : Attempt) (m : Option (Answer RunStatus)) (s : State) → (after_start str i n a m s).1 ≤ 1
  unfolding after_start
  after_start_sent a (some (returned RunStatus.running)) s =
      checked_post_sent a a.blocked a.decrypts s
  after_start_sent a (some (returned RunStatus.completed)) s = omega arith
  after_start_sent a (some (returned RunStatus.failed)) s = omega arith
  after_start_sent a (some (returned RunStatus.cancelled)) s = omega arith
  after_start_sent a (some no_run) s = omega arith
  after_start_sent a (some no_block) s = omega arith
  after_start_sent a none s = omega arith

  deliver_webhook_sent : (a : Attempt) (s : State) → (deliver_webhook str i n a s).1 ≤ 1
  unfolding deliver_webhook
  deliver_webhook_sent a s =
      let (s', started) = mirror i MirrorStatus.running none a.start s in
      if_ind (λ (o : State × ℕ × AttemptEnd). o.1 ≤ 1) (ltb 1 n) _ _ (after_start_sent a started s')
        (checked_post_sent a a.blocked a.decrypts s)

module _ (str : ℕ → String) (i : WebhookInput) where
  after_attempt_sent :
      (n : ℕ) (a : Attempt) (s t : State) (sent more : ℕ) (end : AttemptEnd)
      (outcome : Called (Unit {0}))
      → sent ≤ 1
      → n ≤ i.maximum_attempts
      → (n < i.maximum_attempts → more + suc n ≤ suc i.maximum_attempts)
      → (after_attempt i n a (s, sent, end) (t, more, outcome)).1 + n ≤ suc i.maximum_attempts
  after_attempt_sent n a s t sent more delivered outcome h m f = omega arith
  after_attempt_sent n a s t sent more (final e) outcome h m f = omega arith
  after_attempt_sent n a s t sent more (retried message) outcome h m f = ground (arith, f)

  sent_from :
      (n : ℕ) (as' : List Attempt) (s : State)
      → n ≤ i.maximum_attempts
      → (attempts_from str i n as' s).1 + n ≤ suc i.maximum_attempts
  unfolding attempts_from
  sent_from n [] s m = omega arith
  sent_from n (a ∷ later) s m =
      let (t, sent, end) = deliver_webhook str i n a s in
      let (u, more, outcome) = attempts_from str i (suc n) later t in
      after_attempt_sent n a t u sent more end outcome (deliver_webhook_sent str i n a s) m
        (λ l. sent_from (suc n) later t l)

  -- A webhook block sends at most maximum_attempts requests.
  pub attempts-sent :
      (as' : List Attempt) (s : State)
      → 1 ≤ i.maximum_attempts
      → (attempts_from str i 1 as' s).1 ≤ i.maximum_attempts
  attempts-sent as' s m = omega (arith, sent_from 1 as' s m)
