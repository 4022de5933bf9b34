-- ===== src/Temporal.antt =====
-- How an activity call ends for its workflow: what api/app/workflows/pipeline.py reads of Temporal's
-- exceptions, and of the app-DB activities' answers (api/app/workflows/activities/db.py). When a call
-- fails is up to the engine, so it comes with the call, as data. The text of the engine's own errors
-- is left out.
pub mod Commits
use Prim.Native.String.{◌++◌ as ◌<>◌}
use scrapeflow.Base.{ℕ, Bool, true, false, String, List, map}
use scrapeflow.PipelineMirror.{steps, cancel}
use scrapeflow.PipelineMirror.Mirrors.{State, Answer, returned, no_run, no_block}

pub data Exc : Type 0 where
  -- CancelledError: Temporal's as a cause, or asyncio's
  cancelled_error : Exc
  -- an ActivityError caused by an ApplicationError of type RUN_CANCELLED_ERROR
  run_cancelled : Exc
  -- another ActivityError: its message, and whether retry_state is MAXIMUM_ATTEMPTS_REACHED
  activity_error : String → Bool → Exc
  application_error : String → Exc
  -- another Exception: `type(exc).__name__: exc`
  other_error : String → Exc

abbrev pub is_cancellation : Exc → Bool
is_cancellation cancelled_error = true
is_cancellation run_cancelled = true
is_cancellation _ = false

-- `str` is Python's, of a number.
unfoldable pub failure_message : (ℕ → String) → Exc → ℕ → String
failure_message str (activity_error message true) attempts =
    message <> (" (gave up after " <> (str attempts <> " attempts)"))
failure_message str (activity_error message false) attempts = message
failure_message str (application_error message) attempts = message
failure_message str (other_error message) attempts = "internal error: " <> message
failure_message str _ attempts = ""

pub data Called {ℓ} (A : Type ℓ) : Type ℓ where
  got : A → Called A
  threw : Exc → Called A

abbrev pub called : {A : Type 0} → Answer A → Called A
called (returned a) = got a
called no_run = threw (activity_error "no run" false)
called no_block = threw (activity_error "no block" false)

-- An app-DB activity answers, or its schedule-to-close timeout runs out: the last attempt has
-- committed, or not.
pub data Ending : Type 0 where
  answers timed_out timed_out_after : Ending

-- The other writer of a run's row while the workflow runs: a cancel_run of the API, by this user.
pub record ApiCancel : Type 0 where
  pub user : ℕ
  pub now : ℕ

unfoldable pub commits : List ApiCancel → State → State
unfolding steps
commits cs s = steps s (map (λ c. cancel c.user c.now) cs)

-- A call as the workflow meets it: what commits before it, its time, and its end.
pub record DbCall : Type 0 where
  pub meanwhile : List ApiCancel
  pub now : ℕ
  pub ending : Ending

unfoldable pub db : {A : Type 0} → (State → State × Answer A) → DbCall → State → State × Called A
unfolding commits
db activity c s =
    let s' = commits c.meanwhile s in
    let (done, answer) = activity s' in
    elim c.ending [
      | answers ↦ (done, called answer)
      | timed_out ↦ (s', threw (activity_error "activity timed out" false))
      | timed_out_after ↦ (done, threw (activity_error "activity timed out" false))
    ]
