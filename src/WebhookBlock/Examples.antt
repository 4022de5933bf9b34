-- ===== src/WebhookBlock/Examples.antt =====
-- Two attempts, of which the second is delivered; and a retry of a cancelled run.
use scrapeflow.Base.{
  ℕ, ◌≡◌, refl, inr, arith, String, Option, none, some, List, [], ◌∷◌, true, false,
}
use scrapeflow.PipelineMirror.Mirrors.{RunStatus, BlockStatus, State, mirror_block_status}
use scrapeflow.Temporal.{answers, commits}
use scrapeflow.WebhookBlock.{WebhookInput, Attempt, attempts_from}
use scrapeflow.WebhookBlock.Stopped.{retries-unsent}

abbrev state : Option ℕ → State
state requested = record {
  run = some (record {
    user_id = 7;
    status = RunStatus.running;
    cancel_requested_at = requested;
    result_path = none;
    error = none;
    finished_at = none;
  });
  blocks =
      record {
        id = 100;
        block_id = 1;
        status = BlockStatus.running;
        input_ref = none;
        output_ref = none;
        error = none;
        started_at = none;
        finished_at = none;
      }
      ∷ [];
  ledger = record { objects = []; quotas = λ u. none };
  notices = [];
}

abbrev input : WebhookInput
input = record { block_id = 1; result_path = 12; maximum_attempts = 5 }

abbrev attempt : Option String → Attempt
attempt error = record {
  start = record { meanwhile = []; now = 5; ending = answers };
  blocked = none;
  decrypts = true;
  error = error;
  wait = record { meanwhile = []; now = 5; ending = answers };
  interrupted = false;
}

abbrev attempts : List Attempt
attempts = attempt (some "HTTP 500") ∷ attempt none ∷ []

two_sent : (attempts_from (λ n. "7") input 1 attempts (state none)).1 ≡ 2
unfolding attempts_from mirror_block_status commits
two_sent = refl

retries-unsent_example : (attempts_from (λ n. "7") input 2 attempts (state (some 3))).1 ≡ 0
retries-unsent_example =
    retries-unsent (λ n. "7") input 2 attempts (state (some 3)) (omega arith) (_, refl, inr refl)
