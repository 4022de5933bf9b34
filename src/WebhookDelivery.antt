-- ===== src/WebhookDelivery.antt =====
-- One webhook_deliveries row: attempt_webhook_delivery and its backoff
-- (api/app/workflows/activities/webhook_deliveries.py), and the loop of WebhookDeliveryWorkflow
-- (api/app/workflows/webhook_delivery.py). How the receiver answers and whether the address check
-- refuses are parameters of each attempt. Times are whole seconds; the payload and its signature
-- are not modelled.
pub mod Attempts
mod Examples
use scrapeflow.Base.{
  ℕ, zero, suc, ◌+◌, ◌-◌, ◌≡◌, Bool, true, false, Option, none, some, List, [], ◌∷◌, String, ltb,
  leb, if◌then◌else◌, length, min,
}

pub data Status : Type 0 where
  pending delivered exhausted : Status

-- last_error, by where it comes from.
pub data Error : Type 0 where
  ssrf_blocked : String → Error
  http_status : ℕ → Error
  raised : String → Error

pub record Delivery : Type 0 where
  pub status : Status
  pub attempts : ℕ
  pub last_error : Option Error
  pub next_attempt_at : ℕ
  pub delivered_at : Option ℕ

abbrev backoff_seconds : List ℕ
backoff_seconds = 0 ∷ 30 ∷ 300 ∷ 1800 ∷ 7200 ∷ []

abbrev nth : List ℕ → ℕ → ℕ
nth [] i = 0
nth (x ∷ xs) zero = x
nth (x ∷ xs) (suc i) = nth xs i

-- BACKOFF_SECONDS[min(attempts, len(BACKOFF_SECONDS) - 1)]
unfoldable pub backoff : ℕ → ℕ
backoff attempts = nth backoff_seconds (min attempts (length backoff_seconds - 1))

-- `limit` is settings.webhook_max_attempts.
unfoldable pub apply_backoff : ℕ → ℕ → Error → Delivery → Delivery
apply_backoff limit now error d =
    let d' = record d { last_error = some error } in
    if leb limit d.attempts
    then record d' { status = Status.exhausted }
    else record d' { next_attempt_at = now + backoff d.attempts }

-- What the network does in one attempt.
pub data Reply : Type 0 where
  -- validate_no_ssrf_core raises
  blocked : String → Reply
  -- the receiver's status code
  http : ℕ → Reply
  -- the POST raises
  unreachable : String → Reply

pub data OutcomeStatus : Type 0 where
  delivered exhausted retry gone : OutcomeStatus

pub record AttemptOutcome : Type 0 where
  pub status : OutcomeStatus
  pub retry_in_seconds : ℕ

abbrev pub outcome_status : Status → OutcomeStatus
outcome_status Status.pending = OutcomeStatus.retry
outcome_status Status.delivered = OutcomeStatus.delivered
outcome_status Status.exhausted = OutcomeStatus.exhausted

abbrev pub error_of : Reply → Option Error
error_of (blocked e) = some (ssrf_blocked e)
error_of (http code) = if ltb code 300 then none else some (http_status code)
error_of (unreachable e) = some (raised e)

-- The POST and what follows it, `d` with the attempt counted.
unfoldable pub post : ℕ → ℕ → Option Error → Delivery → Delivery
unfolding apply_backoff
post limit now none d = record d { status = Status.delivered; delivered_at = some now }
post limit now (some error) d = apply_backoff limit now error d

unfoldable pub attempt_webhook_delivery :
    ℕ → ℕ → Reply → Option Delivery → Option Delivery × AttemptOutcome
unfolding post
attempt_webhook_delivery limit now reply none =
    (none, record { status = OutcomeStatus.gone; retry_in_seconds = 0 })
attempt_webhook_delivery limit now reply (some d) = elim d.status [
  | Status.pending ↦ elim reply [
    | blocked error ↦ (
      some (record d { status = Status.exhausted; last_error = some (ssrf_blocked error) }),
      record { status = OutcomeStatus.exhausted; retry_in_seconds = 0 },
    )
    | answer ↦
        let d' = post limit now (error_of answer) (record d { attempts = d.attempts + 1 }) in
        (
          some d',
          record { status = outcome_status d'.status; retry_in_seconds = d'.next_attempt_at - now },
        )
  ]
  | _ ↦ (some d, record { status = OutcomeStatus.gone; retry_in_seconds = 0 })
]

-- The workflow: attempt, and sleep while the outcome is retry. `replies n` is the network's answer
-- to attempt n; each attempt runs when its sleep ends. `none` is a workflow still waiting when the
-- fuel is spent; with it comes the row and the time.
unfoldable pub deliver :
    ℕ → ℕ → (ℕ → Reply) → ℕ → ℕ → Option Delivery → Option Delivery × ℕ × Option OutcomeStatus
deliver limit zero replies n now row = (row, now, none)
deliver limit (suc fuel) replies n now row =
    let (row', outcome) = attempt_webhook_delivery limit now (replies n) row in
    elim outcome.status [
      | OutcomeStatus.retry ↦
          deliver limit fuel replies (suc n) (now + outcome.retry_in_seconds) row'
      | other ↦ (row', now, some other)
    ]
