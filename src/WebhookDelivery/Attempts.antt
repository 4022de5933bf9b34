-- ===== src/WebhookDelivery/Attempts.antt =====
-- How often and how long a row is attempted.
use scrapeflow.Base.{
  ℕ, zero, suc, ◌+◌, ◌-◌, ◌≤◌, ◌<◌, ◌≡◌, ◌≢◌, ◌⊎◌, refl, ap, Option, none, some, arith, leb, inl,
  inr, Bool-cases,
}
use scrapeflow.WebhookDelivery.{
  Error, ssrf_blocked, error_of, Status, Delivery, Reply, blocked, http, unreachable, OutcomeStatus,
  AttemptOutcome, backoff, attempt_webhook_delivery, deliver, outcome_status, post,
}

-- The waits after attempts a + 1, ..., a + n.
abbrev pub total_wait : ℕ → ℕ → ℕ
total_wait zero a = 0
total_wait (suc n) a = backoff (a + 1) + total_wait n (a + 1)

-- What one attempt does to a pending row `d`: it settles it, with the outcome that its status says,
-- or counts one attempt below the limit and asks to be called again after the backoff.
abbrev Attempted : ℕ → Delivery → Delivery → AttemptOutcome → Type 0
Attempted limit d d' o =
    ((d'.status ≢ Status.pending)
      × (d'.attempts ≤ d.attempts + 1)
      × (o.status ≡ outcome_status d'.status))
    ⊎ ((d'.status ≡ Status.pending)
        × (o.status ≡ OutcomeStatus.retry)
        × (d'.attempts ≡ d.attempts + 1)
        × (d'.attempts < limit)
        × (o.retry_in_seconds ≡ backoff (d.attempts + 1)))

module _ (limit now : ℕ) (d : Delivery) (p : d.status ≡ Status.pending) where
  posted :
      (e : Option Error) (o : AttemptOutcome)
      → (o.status
          ≡ outcome_status (post limit now e (record d { attempts = d.attempts + 1 })).status)
      → (o.retry_in_seconds
          ≡ (post limit now e (record d { attempts = d.attempts + 1 })).next_attempt_at - now)
      → Attempted limit d (post limit now e (record d { attempts = d.attempts + 1 })) o
  unfolding post
  posted none o s r = inl (ground arith, ground arith, ground arith)
  posted (some x) o s r = elim (Bool-cases (leb limit (d.attempts + 1))) [
    | inl e ↦ inl (ground arith, ground arith, ground arith)
    | inr e ↦ inr (ground arith, ground arith, ground arith, ground arith, ground arith)
  ]

  attempted :
      (reply : Reply)
      → let t = attempt_webhook_delivery limit now reply (some d) in
        (d' : Delivery) × (t.0 ≡ some d') × Attempted limit d d' t.1
  unfolding attempt_webhook_delivery
  attempted (blocked error) = (
    record d { status = Status.exhausted; last_error = some (ssrf_blocked error) },
    ground arith,
    inl (ground arith, ground arith, ground arith),
  )
  attempted (http code) = (
    post limit now (error_of (http code)) (record d { attempts = d.attempts + 1 }),
    ground arith,
    posted (error_of (http code)) _ (ground arith) (ground arith),
  )
  attempted (unreachable error) = (
    post limit now (error_of (unreachable error)) (record d { attempts = d.attempts + 1 }),
    ground arith,
    posted (error_of (unreachable error)) _ (ground arith) (ground arith),
  )

-- The workflow is done with the row: no longer pending, after at most `limit` attempts, at most
-- `wait` seconds of sleep after `now`, and it returns what the row says.
abbrev pub IsSettled : ℕ → ℕ → ℕ → Option Delivery × ℕ × Option OutcomeStatus → Type 0
IsSettled limit now wait r =
    (d : Delivery) × (r.0 ≡ some d)
    × (d.status ≢ Status.pending)
    × (d.attempts ≤ limit)
    × (r.1 ≤ now + wait)
    × (r.2 ≡ some (outcome_status d.status))

-- The step of the loop, on what the attempt did.
module _ (limit fuel : ℕ) (replies : ℕ → Reply) (n now : ℕ) (d : Delivery)
    (p : d.status ≡ Status.pending) where
  deliver_settled :
      (d' : Delivery)
      → let t = attempt_webhook_delivery limit now (replies n) (some d) in
        t.0 ≡ some d'
        → d'.status ≢ Status.pending
        → t.1.status ≡ outcome_status d'.status
        → deliver limit (suc fuel) replies n now (some d)
          ≡ (some d', now, some (outcome_status d'.status))
  unfolding deliver
  deliver_settled d' e s o = ground arith

  deliver_retried :
      (d' : Delivery)
      → let t = attempt_webhook_delivery limit now (replies n) (some d) in
        t.0 ≡ some d'
        → t.1.status ≡ OutcomeStatus.retry
        → deliver limit (suc fuel) replies n now (some d)
          ≡ deliver limit fuel replies (suc n) (now + t.1.retry_in_seconds) (some d')
  unfolding deliver
  deliver_retried d' e o = rw (o, deliver) (rw e)

-- The loop, given what the rest of it does after a retry.
module _ (limit fuel : ℕ) (replies : ℕ → Reply) (n now : ℕ) (d : Delivery)
    (p : d.status ≡ Status.pending) (wait : ℕ) where
  abbrev reply : Option Delivery × AttemptOutcome
  reply = attempt_webhook_delivery limit now (replies n) (some d)

  loop-IsSettled :
      ((d' : Delivery) × (reply.0 ≡ some d') × Attempted limit d d' reply.1)
      → d.attempts < limit
      → ((d' : Delivery)
          → d'.status ≡ Status.pending
          → d'.attempts ≡ d.attempts + 1
          → d'.attempts < limit
          → reply.1.retry_in_seconds ≡ backoff (d.attempts + 1)
          → IsSettled limit now wait
              (deliver limit fuel replies (suc n) (now + reply.1.retry_in_seconds) (some d')))
      → IsSettled limit now wait (deliver limit (suc fuel) replies n now (some d))
  loop-IsSettled (d', e, inl (s, a, o)) l rest =
      rw (deliver_settled limit fuel replies n now d p d' e s o)
        (d', refl, s, omega arith, omega arith, refl)
  loop-IsSettled (d', e, inr (s, o, a, b, w)) l rest =
      rw (deliver_retried limit fuel replies n now d p d' e o) (rest d' s a b w)

-- A pending row with `fuel` attempts left to the limit is settled by the workflow within that many
-- attempts, whatever the receiver and the address check answer: the workflow ends and returns the
-- row's final status, the row is delivered or exhausted, it has not been attempted past the limit,
-- and the sleeps add up to at most the backoffs between its attempts.
pub deliver-IsSettled :
    (limit fuel : ℕ) (replies : ℕ → Reply) (n now : ℕ) (d : Delivery)
    → d.status ≡ Status.pending
    → d.attempts + suc fuel ≡ limit
    → IsSettled limit now
        (total_wait fuel d.attempts)
        (deliver limit (suc fuel) replies n now (some d))
deliver-IsSettled limit zero replies n now d p left =
    loop-IsSettled limit zero replies n now d p (total_wait zero d.attempts)
      (attempted limit now d p (replies n)) (omega arith) (λ d' s a b w. absurd (omega arith))
deliver-IsSettled limit (suc fuel) replies n now d p left =
    loop-IsSettled limit (suc fuel) replies n now d p (total_wait (suc fuel) d.attempts)
      (attempted limit now d p (replies n)) (omega arith)
      λ d' s a b w.
        let r = (attempt_webhook_delivery limit now (replies n) (some d)).1.retry_in_seconds in
        let (x, e, t, c, m, o) =
          deliver-IsSettled limit fuel replies (suc n) (now + r) d' s (omega arith) in
        (x, e, t, c, omega (arith, m, w, ap (total_wait fuel) a), o)
