-- ===== src/QuietHours.antt =====
-- app/domain/quiet_hours.py: a delivery moment inside the silence moves to its end.
pub mod Shift
use remindo.Prelude.{
  ℕ, ◌+◌, Bool, true, false, ◌&&◌, ◌||◌, Option, none, some, ltb, leb, ◌==◌, if◌then◌else◌,
}
use remindo.Time.{Moment, Time, Date, day, combine, date_of, time_of}
use remindo.Time.Zone.{Zone, to_instant, astimezone}
use remindo.Recurrence.{to_utc}

unfoldable pub is_quiet : Time → Time → Time → Bool
is_quiet moment_local quiet_start quiet_end =
    if quiet_start == quiet_end
    then false
    else if ltb quiet_start quiet_end
    then leb quiet_start moment_local && ltb moment_local quiet_end
    else leb quiet_start moment_local || ltb moment_local quiet_end

unfoldable pub resolve_end : Moment → Zone → Date → Time → Moment
resolve_end fire_at z end_date quiet_end =
    let naive = combine end_date quiet_end in
    let candidate = to_utc naive z in
    let later = to_instant z true naive in
    if ltb fire_at candidate
    then candidate
    else if ltb fire_at later
    then later
    else to_utc (naive + day) z

-- The local date on which the silence around `local` ends.
unfoldable pub end_date : ℕ → Time → Time → Date
end_date local quiet_start quiet_end =
    if ltb quiet_end quiet_start && leb quiet_start (time_of local)
    then date_of local + 1
    else date_of local

unfoldable pub apply_quiet_hours : Moment → Zone → Option Time → Option Time → Moment
apply_quiet_hours fire_at z none quiet_end = fire_at
apply_quiet_hours fire_at z (some quiet_start) none = fire_at
apply_quiet_hours fire_at z (some quiet_start) (some quiet_end) =
    let local = astimezone z fire_at in
    if is_quiet (time_of local) quiet_start quiet_end
    then resolve_end fire_at z (end_date local quiet_start quiet_end) quiet_end
    else fire_at

pub record QuietHours : Type 0 where
  pub tz : Zone
  pub start : Option Time
  pub end : Option Time

unfoldable pub covers_between : Zone → Option Time → Option Time → Moment → Bool
covers_between z none end moment = false
covers_between z (some start) none moment = false
covers_between z (some start) (some end) moment = is_quiet (time_of (astimezone z moment)) start end

unfoldable pub covers : QuietHours → Moment → Bool
covers q moment = covers_between q.tz q.start q.end moment

unfoldable pub shift : QuietHours → Moment → Moment
shift q moment = apply_quiet_hours moment q.tz q.start q.end
