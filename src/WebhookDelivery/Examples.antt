-- ===== src/WebhookDelivery/Examples.antt =====
-- A receiver that answers 500 for ever: five attempts, then the row is exhausted.
use scrapeflow.Base.{ℕ, ◌≡◌, refl, none, some}
use scrapeflow.WebhookDelivery.{
  Status, Delivery, Reply, http, OutcomeStatus, deliver, attempt_webhook_delivery, backoff,
}
use scrapeflow.WebhookDelivery.Attempts.{IsSettled, deliver-IsSettled, total_wait}

abbrev fresh : Delivery
fresh = record {
  status = Status.pending;
  attempts = 0;
  last_error = none;
  next_attempt_at = 0;
  delivered_at = none;
}

abbrev broken : ℕ → Reply
broken n = http 500

deliver-IsSettled_example : IsSettled 5 100 (total_wait 4 0) (deliver 5 5 broken 0 100 (some fresh))
deliver-IsSettled_example = deliver-IsSettled 5 4 broken 0 100 fresh refl refl

-- 30 + 300 + 1800 + 7200 seconds.
all_waits : total_wait 4 0 ≡ 9330
unfolding backoff
all_waits = refl

gives_up : (deliver 5 5 broken 0 100 (some fresh)).2 ≡ some OutcomeStatus.exhausted
unfolding deliver attempt_webhook_delivery backoff
gives_up = refl
