-- ===== src/Reactions.antt =====
-- app/domain/reactions.py: whether a tap counts and what it writes.
pub mod Tap
use remindo.Prelude.{
  ℕ, ◌+◌, Bool, true, false, ◌&&◌, ◌||◌, Option, none, some, ltb, leb, if◌then◌else◌,
}
use remindo.Time.{Moment, minutes}
use remindo.QuietHours.{QuietHours, shift}
use remindo.Contracts.{
  DeliveryStatus, OccurrenceStatus, ActionKind, done, snooze, skip, auto_expire,
  is_terminal_delivery, is_terminal_occurrence, Result, ok, err, value_error,
}

pub data RejectReason : Type 0 where
  already_handled expired : RejectReason

pub record Reaction : Type 0 where
  pub kind : ActionKind
  pub status : DeliveryStatus
  pub reacted_at : Option Moment
  pub snoozed_until : Option Moment

unfoldable pub is_terminal : Reaction → Bool
is_terminal r = is_terminal_delivery r.status

abbrev pub is_snoozed : DeliveryStatus → Bool
is_snoozed DeliveryStatus.snoozed = true
is_snoozed _ = false

abbrev pub is_snooze : ActionKind → Bool
is_snooze snooze = true
is_snooze _ = false

abbrev pub is_later_than : Moment → Option Moment → Bool
is_later_than now none = false
is_later_than now (some until) = ltb now until

unfoldable pub is_postponed : DeliveryStatus → Option Moment → Moment → Bool
is_postponed status snoozed_until now = is_snoozed status && is_later_than now snoozed_until

unfoldable pub check_reactable :
    ActionKind
    → DeliveryStatus
    → OccurrenceStatus
    → Moment
    → Option Moment
    → Moment
    → Option RejectReason
unfolding is_postponed
check_reactable kind delivery_status occurrence_status expires_at snoozed_until now =
    if is_terminal_delivery delivery_status
    then some already_handled
    else if is_terminal_occurrence occurrence_status || leb expires_at now
    then some expired
    else if is_snooze kind && is_postponed delivery_status snoozed_until now
    then some already_handled
    else none

unfoldable pub postpone : Moment → ℕ → QuietHours → Moment → Moment
postpone now snooze_minutes quiet expires_at =
    let requested = now + minutes snooze_minutes in
    let postponed = shift quiet requested in
    if leb expires_at postponed then requested else postponed

unfoldable pub decide_reaction : ActionKind → Moment → ℕ → QuietHours → Moment → Result Reaction
decide_reaction snooze now snooze_minutes quiet expires_at =
    if ltb snooze_minutes 1
    then err value_error
    else ok (record {
      kind = snooze;
      status = DeliveryStatus.snoozed;
      reacted_at = none;
      snoozed_until = some (postpone now snooze_minutes quiet expires_at);
    })
decide_reaction done now snooze_minutes quiet expires_at = ok (record {
  kind = done;
  status = DeliveryStatus.done;
  reacted_at = some now;
  snoozed_until = none;
})
decide_reaction skip now snooze_minutes quiet expires_at = ok (record {
  kind = skip;
  status = DeliveryStatus.skipped;
  reacted_at = some now;
  snoozed_until = none;
})
decide_reaction auto_expire now snooze_minutes quiet expires_at = err value_error

-- `_OCCURRENCE_ROLLUP.get(kind)`
abbrev pub rollup : ActionKind → Option OccurrenceStatus
rollup done = some OccurrenceStatus.done
rollup skip = some OccurrenceStatus.skipped
rollup snooze = none
rollup auto_expire = none

unfoldable pub roll_up_occurrence : ActionKind → Bool → Option OccurrenceStatus
roll_up_occurrence kind every_delivery_terminal =
    if every_delivery_terminal then rollup kind else none
