-- ===== src/Reactions/Tap.antt =====
-- When a tap counts, and that an accepted tap cannot be accepted again.
use remindo.Prelude.{ℕ, ◌+◌, ◌≤◌, ◌<◌, ◌≡◌, ◌↔◌, ◌⊎◌, true, false, ◌&&◌, Option, none, some, arith}
use remindo.Time.{Moment, minutes}
use remindo.QuietHours.{QuietHours, shift}
use remindo.Contracts.{
  DeliveryStatus, OccurrenceStatus, ActionKind, done, snooze, skip, auto_expire,
  is_terminal_delivery, is_terminal_occurrence, ok,
}
use remindo.Reactions.{
  already_handled, Reaction, check_reactable, postpone, decide_reaction, is_postponed, is_snooze,
  is_later_than,
}

-- A tap counts exactly when the delivery and the occurrence are open, the occurrence has not run
-- out, and it does not postpone a delivery that is postponed already.
pub check_reactable-none :
    (k : ActionKind) (d : DeliveryStatus) (o : OccurrenceStatus) (expires : Moment)
    (s : Option Moment) (now : Moment)
    → (check_reactable k d o expires s now ≡ none) ↔ (
        (is_terminal_delivery d ≡ false)
        × (is_terminal_occurrence o ≡ false)
        × (now < expires)
        × ((is_snooze k && is_postponed d s now) ≡ false))
unfolding check_reactable
check_reactable-none k d o expires s now = ground arith

-- Late beats lost: a snooze comes back after the requested pause, and silence moves it only as far
-- as the occurrence lives.
pub postpone_bounds :
    (now n : ℕ) (q : QuietHours) (expires : Moment)
    → now + minutes n ≤ shift q (now + minutes n)
    → (now + minutes n ≤ postpone now n q expires)
      × ((postpone now n q expires ≡ now + minutes n) ⊎ (postpone now n q expires < expires))
unfolding postpone
postpone_bounds now n q expires h = ground arith

-- The row after an accepted tap: the snooze mark stays where the reaction sets none.
abbrev pub written_snooze : Option Moment → Option Moment → Option Moment
written_snooze old none = old
written_snooze old (some m) = some m

-- After an accepted tap the same tap is answered with `already_handled`: at once, and for a snooze
-- until it runs out.
pub tap_twice :
    (k : ActionKind) (o : OccurrenceStatus) (now n : ℕ) (q : QuietHours) (expires later : Moment)
    (old : Option Moment) (r : Reaction)
    → decide_reaction k now n q expires ≡ ok r
    → is_terminal_occurrence o ≡ false
    → later < expires
    → (k ≡ snooze → is_later_than later r.snoozed_until ≡ true)
    → check_reactable k r.status o expires (written_snooze old r.snoozed_until) later
      ≡ some already_handled
unfolding decide_reaction check_reactable is_postponed
tap_twice done o now n q expires later old r e t l s = ground arith
tap_twice skip o now n q expires later old r e t l s = ground arith
tap_twice auto_expire o now n q expires later old r e t l s = ground arith
tap_twice snooze o now n q expires later old r e t l s = ground (arith, s)
