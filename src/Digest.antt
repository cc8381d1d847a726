-- ===== src/Digest.antt =====
-- app/domain/digest.py: when the weekly digest is due and which week it covers.
pub mod Weekly
use remindo.Prelude.{
  ℕ, ◌+◌, ◌-◌, ◌*◌, ◌%◌, Bool, true, false, Option, none, some, ltb, leb, if◌then◌else◌,
}
use remindo.Time.{Moment, Naive, Date, day, hour, combine, date_of, isoweekday}
use remindo.Time.Zone.{Zone, astimezone}
use remindo.Recurrence.{to_utc}
use remindo.QuietHours.{QuietHours, shift}

abbrev pub days_in_week : ℕ
days_in_week = 7

pub record DigestWindow : Type 0 where
  pub start : Moment
  pub end : Moment

-- (today - weekday) % DAYS_IN_WEEK, which Python takes to the residue also below zero
unfoldable pub days_behind : ℕ → ℕ → ℕ
days_behind today weekday =
    if leb weekday today
    then (today - weekday) % days_in_week
    else (days_in_week - (weekday - today) % days_in_week) % days_in_week

unfoldable pub candidate_of : Date → ℕ → ℕ → Naive
unfolding days_behind
candidate_of local_day weekday at =
    combine (local_day - days_behind (isoweekday local_day) weekday) (at * hour)

unfoldable pub last_digest_moment : Moment → Zone → ℕ → ℕ → Moment
unfolding candidate_of astimezone
last_digest_moment now z weekday at =
    let candidate = candidate_of (date_of (astimezone z now)) weekday at in
    if ltb now (to_utc candidate z)
    then to_utc (candidate - days_in_week * day) z
    else to_utc candidate z

unfoldable pub digest_window : Moment → Zone → DigestWindow
unfolding astimezone
digest_window moment z = record {
  start = to_utc (astimezone z moment - days_in_week * day) z;
  end = moment;
}

-- sent_at is not None and sent_at >= moment
abbrev pub is_covered : Option Moment → Moment → Bool
is_covered none moment = false
is_covered (some sent) moment = leb moment sent

unfoldable pub digest_due_at : Moment → Zone → ℕ → ℕ → Option Moment → QuietHours → Option Moment
unfolding shift
digest_due_at now z weekday at sent_at quiet =
    let moment = last_digest_moment now z weekday at in
    if is_covered sent_at moment
    then none
    else if ltb now (shift quiet moment)
    then none
    else some moment
