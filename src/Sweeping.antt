-- ===== src/Sweeping.antt =====
-- app/domain/sweeping.py: what one sweep of the reaper does to a delivery.
pub mod Repeat
use remindo.Prelude.{ℕ, ◌+◌, Bool, true, false, Option, none, some, ltb, leb, if◌then◌else◌}
use remindo.Time.{Moment, minutes}
use remindo.QuietHours.{QuietHours, shift}
use remindo.Contracts.{OccurrenceStatus, is_terminal_occurrence}

pub record RepeatPlan : Type 0 where
  pub next_attempt_at : Moment

unfoldable pub is_overdue : OccurrenceStatus → Moment → Moment → Bool
is_overdue status expires_at now =
    if is_terminal_occurrence status then false else ltb expires_at now

-- The tests that follow the two for `None`.
unfoldable pub plan_repeat : Moment → ℕ → ℕ → ℕ → Moment → QuietHours → Moment → Option RepeatPlan
plan_repeat sent_at repeat_after_minutes repeats_sent max_repeats expires_at quiet now =
    let moment = shift quiet now in
    if leb max_repeats repeats_sent
    then none
    else if ltb now (sent_at + minutes repeat_after_minutes)
    then none
    else if leb expires_at moment
    then none
    else some (record { next_attempt_at = moment })

unfoldable pub decide_repeat :
    Option Moment → Option ℕ → ℕ → ℕ → Moment → QuietHours → Moment → Option RepeatPlan
unfolding plan_repeat
decide_repeat sent_at none repeats_sent max_repeats expires_at quiet now = none
decide_repeat none (some n) repeats_sent max_repeats expires_at quiet now = none
decide_repeat (some sent) (some n) repeats_sent max_repeats expires_at quiet now =
    plan_repeat sent n repeats_sent max_repeats expires_at quiet now
