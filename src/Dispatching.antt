-- ===== src/Dispatching.antt =====
-- app/domain/dispatching.py: what one delivery attempt does to its row.
pub mod Table
pub mod Budget
use remindo.Prelude.{ℕ, ◌-◌, Bool, true, false, Option, none, some, if◌then◌else◌, String}
use remindo.Time.{Moment}
use remindo.Contracts.{
  DeliveryStatus, OccurrenceStatus, ErrorClass, retry_after, forbidden, bad_request, transient,
  Result, ok, err, ◌>>=◌, is_terminal_occurrence,
}
use remindo.Retry.{should_retry, next_attempt}

pub data AbortReason : Type 0 where
  occurrence_closed user_blocked context_missing : AbortReason

-- The code that the row carries: an abort's own, or the name of the exception's type.
pub data ErrorCode : Type 0 where
  aborted : AbortReason → ErrorCode
  raised : String → ErrorCode

pub record Verdict : Type 0 where
  pub status : DeliveryStatus
  pub attempts : ℕ
  pub next_attempt_at : Option Moment
  pub error_code : Option ErrorCode
  pub blocks_user : Bool

unfoldable pub is_retry : Verdict → Bool
is_retry v = elim v.next_attempt_at [ none ↦ false | some m ↦ true ]

unfoldable pub check_deliverable : OccurrenceStatus → Bool → Option AbortReason
check_deliverable status user_is_blocked =
    if is_terminal_occurrence status
    then some occurrence_closed
    else if user_is_blocked
    then some user_blocked
    else none

-- max(attempts - 1, 0)
abbrev pub refund : ℕ → ℕ
refund attempts = attempts - 1

abbrev pub abort_status : AbortReason → DeliveryStatus
abort_status user_blocked = DeliveryStatus.blocked
abort_status occurrence_closed = DeliveryStatus.failed
abort_status context_missing = DeliveryStatus.failed

unfoldable pub decide_abort : AbortReason → ℕ → Verdict
decide_abort reason attempts = record {
  status = abort_status reason;
  attempts = refund attempts;
  next_attempt_at = none;
  error_code = some (aborted reason);
  blocks_user = false;
}

unfoldable pub decide_success : Verdict
decide_success = record {
  status = DeliveryStatus.sent;
  attempts = 0;
  next_attempt_at = none;
  error_code = none;
  blocks_user = false;
}

abbrev pub kept_attempts : ErrorClass → ℕ → ℕ
kept_attempts retry_after attempts = refund attempts
kept_attempts _ attempts = attempts

-- The verdict on an error that gets another attempt.
unfoldable pub decide_retry : ℕ → ErrorClass → Moment → String → Option ℕ → Result Verdict
decide_retry attempts error_class now error_code after = do
  moment ← next_attempt attempts error_class now after
  ok (record {
    status = DeliveryStatus.pending;
    attempts = kept_attempts error_class attempts;
    next_attempt_at = some moment;
    error_code = some (raised error_code);
    blocks_user = false;
  })

unfoldable pub decide_failure : ℕ → ErrorClass → Moment → String → Option ℕ → Result Verdict
unfolding decide_retry
decide_failure attempts forbidden now error_code after = ok (record {
  status = DeliveryStatus.blocked;
  attempts = attempts;
  next_attempt_at = none;
  error_code = some (raised error_code);
  blocks_user = true;
})
decide_failure attempts error_class now error_code after =
    if should_retry attempts error_class
    then decide_retry attempts error_class now error_code after
    else ok (record {
      status = DeliveryStatus.failed;
      attempts = attempts;
      next_attempt_at = none;
      error_code = some (raised error_code);
      blocks_user = false;
    })
