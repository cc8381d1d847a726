-- ===== src/Dispatching/Table.antt =====
-- The error table: every failed attempt has a verdict, and what it says.
use remindo.Prelude.{
  ℕ, zero, suc, ◌+◌, ◌-◌, ◌*◌, ◌<◌, ◌≡◌, refl, ◌↔◌, Bool, true, false, Option, none, some, arith,
  String, ltb, Bool-cases, inl, inr,
}
use remindo.Time.{Moment, Duration, second, minute}
use remindo.Contracts.{
  DeliveryStatus, ErrorClass, retry_after, forbidden, bad_request, transient, ok,
}
use remindo.Retry.{should_retry, next_attempt, backoff, max_attempts}
use remindo.Retry.Backoff.{backoff_bounds}
use remindo.Dispatching.{Verdict, raised, decide_failure, kept_attempts, is_retry}

-- If there is a next attempt, it lies ahead.
abbrev pub IsAfter : Moment → Option Moment → Type 0
IsAfter now none = Unit
IsAfter now (some m) = now < m

-- A status that a cycle has a counter for.
abbrev pub is_counted : DeliveryStatus → Bool
is_counted DeliveryStatus.sent = true
is_counted DeliveryStatus.pending = true
is_counted DeliveryStatus.failed = true
is_counted DeliveryStatus.blocked = true
is_counted _ = false

-- The verdict goes with the error's class.
pub record FollowsTable (attempts : ℕ) (c : ErrorClass) (now : Moment) (v : Verdict) : Type 0 where
  -- only a user who blocked the bot is marked so
  pub blocked : (v.blocks_user ≡ true) ↔ (c ≡ forbidden)
  pub status_blocked : (v.status ≡ DeliveryStatus.blocked) ↔ (c ≡ forbidden)
  -- a delivery goes back into the queue exactly when the policy grants another attempt
  pub queued : (v.status ≡ DeliveryStatus.pending) ↔ (should_retry attempts c ≡ true)
  pub counted : is_counted v.status ≡ true
  pub again : (is_retry v ≡ true) ↔ (should_retry attempts c ≡ true)
  -- only what was sent leaves no code
  pub told : v.error_code ≡ none → v.status ≡ DeliveryStatus.sent
  pub later : IsAfter now v.next_attempt_at
  -- flood control gives the charge back, nothing else does
  pub charged : v.attempts ≡ kept_attempts c attempts

-- Every failed attempt has a verdict, whatever the class of its error, and it follows the table.
pub decide_failure-FollowsTable :
    (attempts : ℕ) (c : ErrorClass) (now : Moment) (code : String) (after : Option ℕ)
    → (v : Verdict) × (decide_failure attempts c now code after ≡ ok v)
      × FollowsTable attempts c now v
unfolding decide_failure should_retry next_attempt is_retry
decide_failure-FollowsTable attempts forbidden now code after = (_, refl, ground arith)
decide_failure-FollowsTable attempts bad_request now code after = (_, refl, ground arith)
decide_failure-FollowsTable attempts retry_after now code none = (_, refl, ground arith)
decide_failure-FollowsTable attempts retry_after now code (some s) = (_, refl, ground arith)
decide_failure-FollowsTable attempts transient now code after =
    elim (Bool-cases (ltb attempts max_attempts)) [
      | inl more ↦ rw more (_, refl, ground (arith, backoff_bounds attempts))
      | inr over ↦ rw over (_, refl, ground arith)
    ]

-- The waits of the policy, written out: half a minute after the first failure, doubled three times.
unfoldable pub transient_wait : ℕ → Option Duration
transient_wait zero = some (30 * second)
transient_wait (suc zero) = some (30 * second)
transient_wait (suc (suc zero)) = some (1 * minute)
transient_wait (suc (suc (suc zero))) = some (2 * minute)
transient_wait (suc (suc (suc (suc zero)))) = some (4 * minute)
transient_wait (suc (suc (suc (suc (suc n))))) = none

-- The table of tech.md 7.2, a constructor per row. The delay of flood control is the one that it asked
-- for and a second.
pub data IsRow (attempts : ℕ) (now : Moment) (code : String)
    : ErrorClass → Option ℕ → Verdict → Type 0 where
  blocked_by_user :
      {after : Option ℕ}
      → IsRow attempts now code forbidden after (record {
        status = DeliveryStatus.blocked;
        attempts = attempts;
        next_attempt_at = none;
        error_code = some (raised code);
        blocks_user = true;
      })
  rejected :
      {after : Option ℕ}
      → IsRow attempts now code bad_request after (record {
        status = DeliveryStatus.failed;
        attempts = attempts;
        next_attempt_at = none;
        error_code = some (raised code);
        blocks_user = false;
      })
  flooded :
      (seconds : ℕ)
      → IsRow attempts now code retry_after (some seconds) (record {
        status = DeliveryStatus.pending;
        attempts = attempts - 1;
        next_attempt_at = some (now + (seconds * second + 1 * second));
        error_code = some (raised code);
        blocks_user = false;
      })
  flooded_unsaid : IsRow attempts now code retry_after none (record {
    status = DeliveryStatus.pending;
    attempts = attempts - 1;
    next_attempt_at = some (now + 1 * second);
    error_code = some (raised code);
    blocks_user = false;
  })
  waiting :
      {after : Option ℕ} (wait : Duration)
      → transient_wait attempts ≡ some wait
      → IsRow attempts now code transient after (record {
        status = DeliveryStatus.pending;
        attempts = attempts;
        next_attempt_at = some (now + wait);
        error_code = some (raised code);
        blocks_user = false;
      })
  used_up :
      {after : Option ℕ}
      → transient_wait attempts ≡ none
      → IsRow attempts now code transient after (record {
        status = DeliveryStatus.failed;
        attempts = attempts;
        next_attempt_at = none;
        error_code = some (raised code);
        blocks_user = false;
      })

-- Every failed attempt has a verdict, and it is the row of the table for the error's class: blocked for a user
-- who blocked the bot, failed for a bad request and for the fifth transient failure, and otherwise
-- back in the queue, with the attempt refunded after flood control, at the moment that the row names.
pub decide_failure-IsRow :
    (attempts : ℕ) (c : ErrorClass) (now : Moment) (code : String) (after : Option ℕ)
    → (v : Verdict) × (decide_failure attempts c now code after ≡ ok v)
      × IsRow attempts now code c after v
unfolding decide_failure should_retry next_attempt backoff transient_wait
decide_failure-IsRow attempts forbidden now code after = (_, refl, blocked_by_user)
decide_failure-IsRow attempts bad_request now code after = (_, refl, rejected)
decide_failure-IsRow attempts retry_after now code none = (_, refl, flooded_unsaid)
decide_failure-IsRow attempts retry_after now code (some s) =
    let e : (s + 1) * second ≡ s * second + 1 * second = omega arith in (_, rw e refl, flooded s)
decide_failure-IsRow zero transient now code after = (_, refl, waiting (30 * second) refl)
decide_failure-IsRow (suc zero) transient now code after = (_, refl, waiting (30 * second) refl)
decide_failure-IsRow (suc (suc zero)) transient now code after =
    (_, refl, waiting (1 * minute) refl)
decide_failure-IsRow (suc (suc (suc zero))) transient now code after =
    (_, refl, waiting (2 * minute) refl)
decide_failure-IsRow (suc (suc (suc (suc zero)))) transient now code after =
    (_, refl, waiting (4 * minute) refl)
decide_failure-IsRow (suc (suc (suc (suc (suc n))))) transient now code after =
    let over : ltb (suc (suc (suc (suc (suc n))))) max_attempts ≡ false = ground arith in
    (_, rw over refl, used_up refl)
