-- ===== src/WebhookBlock.antt =====
-- The Webhook block's activity (api/app/workflows/activities/webhook.py): one attempt, and the
-- attempts of one block under the retry policy. The SSRF check, the decryption and the POST are not
-- in the model: an attempt comes with how each ended.
pub mod Attempts
pub mod Sent
pub mod Stopped
mod Examples
use Prim.Native.String.{◌++◌ as ◌<>◌}
use scrapeflow.Base.{
  ℕ, suc, ◌+◌, Bool, true, false, not, String, Option, none, some, List, [], ◌∷◌, ltb,
  if◌then◌else◌,
}
use scrapeflow.PipelineMirror.Mirrors.{
  RunStatus, State, Answer, returned, no_run, no_block, MirrorStatus, MirrorBlockInput,
  mirror_block_status,
}
use scrapeflow.Temporal.{
  Exc, cancelled_error, run_cancelled, activity_error, Called, got, threw, answers, timed_out,
  timed_out_after, DbCall, commits,
}

pub record WebhookInput : Type 0 where
  pub block_id : ℕ
  pub result_path : ℕ
  pub maximum_attempts : ℕ

-- What an attempt meets.
pub record Attempt : Type 0 where
  pub start : DbCall
  -- ssrf_blocked, with its reason
  pub blocked : Option String
  pub decrypts : Bool
  -- none: a status below 300
  pub error : Option String
  pub wait : DbCall
  -- A cancel of the workflow ends the wait that follows.
  pub interrupted : Bool

pub data AttemptEnd : Type 0 where
  delivered : AttemptEnd
  -- a non-retryable ApplicationError
  final : Exc → AttemptEnd
  retried : String → AttemptEnd

abbrev mirror_input : WebhookInput → MirrorStatus → Option String → MirrorBlockInput
mirror_input i status error = record {
  block_id = i.block_id;
  status = status;
  input_ref = elim status [ MirrorStatus.running ↦ some i.result_path | _ ↦ none ];
  output_ref = none;
  error = error;
}

-- The mirror is called inside the activity; `none` is an error of the database.
abbrev mirror :
    WebhookInput → MirrorStatus → Option String → DbCall → State → State × Option (Answer RunStatus)
mirror i status error c s =
    let s' = commits c.meanwhile s in
    let (done, answer) = mirror_block_status (mirror_input i status error) c.now s' in
    elim c.ending [
      | answers ↦ (done, some answer)
      | timed_out ↦ (s', none)
      | timed_out_after ↦ (done, none)
    ]

-- An attempt that a mirror ended: only a missing row is final.
abbrev mirror_end : Option (Answer RunStatus) → (RunStatus → AttemptEnd) → AttemptEnd
mirror_end none next = retried "database error"
mirror_end (some (returned status)) next = next status
mirror_end (some no_run) next = final (activity_error "no run" false)
mirror_end (some no_block) next = final (activity_error "no block" false)

-- The POST and what follows; with the number of requests that left.
unfoldable pub post : (ℕ → String) → WebhookInput → ℕ → Attempt → State → State × ℕ × AttemptEnd
post str i n a s = elim a.error [
  | none ↦ (s, 1, delivered)
  | some error ↦
      let message = "attempt " <> (str n <> (": " <> error)) in
      let (s', waiting) = mirror i MirrorStatus.waiting (some message) a.wait s in
      if ltb n i.maximum_attempts
      then (s', 1, mirror_end waiting (λ status. retried error))
      else (s, 1, retried error)
]

unfoldable pub checked_post :
    (ℕ → String) → WebhookInput → ℕ → Attempt → State → State × ℕ × AttemptEnd
unfolding post
checked_post str i n a s = elim a.blocked [
  | some reason ↦ (s, 0, final (activity_error ("ssrf_blocked: " <> reason) false))
  | none ↦
      if a.decrypts
      then post str i n a s
      else (s, 0, final (activity_error "the webhook secret cannot be decrypted" false))
]

unfoldable pub after_start :
    (ℕ → String)
    → WebhookInput
    → ℕ
    → Attempt
    → Option (Answer RunStatus)
    → State
    → State × ℕ × AttemptEnd
unfolding checked_post
after_start str i n a (some (returned RunStatus.running)) s = checked_post str i n a s
after_start str i n a (some (returned other)) s = (s, 0, final run_cancelled)
after_start str i n a failure s = (s, 0, mirror_end failure (λ status. delivered))

-- Attempt `n`, from 1; the workflow mirrored running before the first.
unfoldable pub deliver_webhook :
    (ℕ → String) → WebhookInput → ℕ → Attempt → State → State × ℕ × AttemptEnd
unfolding after_start
deliver_webhook str i n a s =
    let (s', started) = mirror i MirrorStatus.running none a.start s in
    if ltb 1 n then after_start str i n a started s' else checked_post str i n a s

-- What follows attempt `n`: it is the last at maximum_attempts, and a cancel ends the wait for the
-- next, which is `later`.
abbrev pub after_attempt :
    WebhookInput
    → ℕ
    → Attempt
    → State × ℕ × AttemptEnd
    → State × ℕ × Called (Unit {0})
    → State × ℕ × Called (Unit {0})
after_attempt i n a (s, sent, delivered) later = (s, sent, got tt)
after_attempt i n a (s, sent, final e) later = (s, sent, threw e)
after_attempt i n a (s, sent, retried message) (t, more, outcome) =
    if not (ltb n i.maximum_attempts)
    then (s, sent, threw (activity_error message true))
    else if a.interrupted
    then (s, sent, threw cancelled_error)
    else (t, sent + more, outcome)

-- The engine's attempts from the `n`th on; where they end without an outcome, the schedule-to-close
-- timeout has run out.
unfoldable pub attempts_from :
    (ℕ → String) → WebhookInput → ℕ → List Attempt → State → State × ℕ × Called (Unit {0})
unfolding deliver_webhook
attempts_from str i n [] s = (s, 0, threw (activity_error "activity timed out" false))
attempts_from str i n (a ∷ later) s =
    let done = deliver_webhook str i n a s in
    after_attempt i n a done (attempts_from str i (suc n) later done.0)
