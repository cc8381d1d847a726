-- ===== src/Retry.antt =====
-- app/domain/retry.py: the delivery retry policy.
pub mod Backoff
use remindo.Prelude.{ℕ, ◌+◌, ◌-◌, ◌*◌, ◌^◌, Bool, true, false, Option, none, some, min, max, ltb}
use remindo.Time.{Moment, Duration, second, minute}
use remindo.Contracts.{
  ErrorClass, retry_after, forbidden, bad_request, transient, Result, ok, err, value_error,
}

abbrev pub base_backoff : Duration
base_backoff = 30 * second

abbrev pub max_backoff : Duration
max_backoff = 30 * minute

abbrev pub max_attempts : ℕ
max_attempts = 5

-- error_class in FATAL_ERRORS
abbrev pub is_fatal : ErrorClass → Bool
is_fatal forbidden = true
is_fatal bad_request = true
is_fatal retry_after = false
is_fatal transient = false

unfoldable pub should_retry : ℕ → ErrorClass → Bool
should_retry attempts forbidden = false
should_retry attempts bad_request = false
should_retry attempts retry_after = true
should_retry attempts transient = ltb attempts max_attempts

-- min(BASE_BACKOFF * 2 ** exponent, MAX_BACKOFF)
unfoldable pub backoff : ℕ → Duration
backoff attempts = min (base_backoff * 2 ^ min (max attempts 1 - 1) 16) max_backoff

-- max(retry_after or 0, 0) + 1 seconds; a missing or negative value is 0.
abbrev pub flood_pause : Option ℕ → Duration
flood_pause none = 1 * second
flood_pause (some s) = (s + 1) * second

-- A fatal error has no next attempt: ValueError.
unfoldable pub next_attempt : ℕ → ErrorClass → Moment → Option ℕ → Result Moment
unfolding backoff
next_attempt attempts forbidden now after = err value_error
next_attempt attempts bad_request now after = err value_error
next_attempt attempts retry_after now after = ok (now + flood_pause after)
next_attempt attempts transient now after = ok (now + backoff attempts)
