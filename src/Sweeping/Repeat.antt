-- ===== src/Sweeping/Repeat.antt =====
-- When an unanswered reminder comes back.
use remindo.Prelude.{ℕ, ◌+◌, ◌≤◌, ◌<◌, ◌≡◌, ◌↔◌, true, Option, none, some, arith}
use remindo.Time.{Moment, minutes}
use remindo.QuietHours.{QuietHours, shift}
use remindo.Contracts.{OccurrenceStatus}
use remindo.Sweeping.{RepeatPlan, decide_repeat, is_overdue}

-- A repeat is planned exactly when there is budget left, the pause since the send is over and the
-- silence ends before the occurrence; it is planned for the end of the silence.
pub decide_repeat-some :
    (sent : Moment) (n repeats max_repeats : ℕ) (expires : Moment) (q : QuietHours) (now : Moment)
    (p : RepeatPlan)
    → (decide_repeat (some sent) (some n) repeats max_repeats expires q now ≡ some p) ↔ (
        (p.next_attempt_at ≡ shift q now)
        × (repeats < max_repeats)
        × (sent + minutes n ≤ now)
        × (shift q now < expires))
unfolding decide_repeat
decide_repeat-some sent n repeats max_repeats expires q now p = ground arith

-- An occurrence is never both overdue and open to a repeat that goes out before it ends.
pub overdue_no_repeat :
    (status : OccurrenceStatus) (sent : Option Moment) (n : Option ℕ) (repeats max_repeats : ℕ)
    (expires : Moment) (q : QuietHours) (now : Moment)
    → now ≤ shift q now
    → is_overdue status expires now ≡ true
    → decide_repeat sent n repeats max_repeats expires q now ≡ none
unfolding decide_repeat is_overdue
overdue_no_repeat status sent none repeats max_repeats expires q now h o = ground arith
overdue_no_repeat status none (some n) repeats max_repeats expires q now h o = ground arith
overdue_no_repeat status (some s) (some n) repeats max_repeats expires q now h o = ground arith
