-- ===== src/Catalog/Examples.antt =====
-- The webhook's budget: 5 attempts of 80 s, and waits of 30, 300, 3000 and 7200 s.
use scrapeflow.Base.{◌≡◌, ◌≤◌, refl, none, List, [], ◌∷◌, arith}
use scrapeflow.Catalog.{Timing, webhook_config, timing, budget, run_need_seconds, clean_config}
use scrapeflow.Catalog.Budget.{Attempt, elapsed, slowest, budget_exact}

abbrev webhook_timing : Timing
webhook_timing = record {
  start_to_close = 20;
  maximum_attempts = 5;
  initial_interval = 30;
  backoff_coefficient = 10;
  maximum_interval = 7200;
  heartbeat = none;
  schedule_to_start = 60;
  host_slot = 0;
}

webhook_timing_eq : timing (webhook_config (record { url = 1; secret = none })) ≡ webhook_timing
unfolding timing
webhook_timing_eq = refl

webhook_budget : budget webhook_timing ≡ 10930
unfolding budget
webhook_budget = refl

run_need : run_need_seconds (timing clean_config ∷ webhook_timing ∷ []) ≡ 11425
unfolding run_need_seconds timing
run_need = refl

abbrev two_attempts : List Attempt
two_attempts = record { queued = 60; ran = 11 } ∷ record { queued = 0; ran = 20 } ∷ []

budget_exact_example :
    (elapsed webhook_timing 0 two_attempts ≤ budget webhook_timing)
    × (elapsed webhook_timing 0 (slowest webhook_timing 5) ≡ budget webhook_timing)
budget_exact_example =
    budget_exact webhook_timing two_attempts (omega arith) (omega arith) (omega arith) (omega arith)
