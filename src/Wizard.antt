-- ===== src/Wizard.antt =====
-- app/domain/reminders.py: what the creation wizard accepts. `int(text)` is Python's and a parameter;
-- a text that it refuses and a number below zero are both none, since both raise the same error.
pub mod Builders
use remindo.Prelude.{
  ℕ, ◌+◌, ◌-◌, ◌*◌, ◌%◌, Bool, true, false, ◌&&◌, Option, none, some, List, [], ◌∷◌, Text, ltb, leb,
  ◌==◌, if◌then◌else◌, length, all_of, set_of, sorted, words, join_words,
}
use remindo.Time.{Moment, Naive, Date, Time, minute, day, combine, date_of}
use remindo.Time.Zone.{Zone, astimezone}
use remindo.Contracts.{Result, ok, err, ◌>>=◌, validation}
use remindo.Schedules.{
  Schedule, MissingDay, once, interval, daily, weekly, monthly, within, times_max_length,
  weekdays_max_length, month_days_max_length, interval_min_minutes, interval_max_minutes,
}
use remindo.Recurrence.{to_utc, next_occurrences}
use remindo.Planning.{boundary}

abbrev pub wizard_max_days_ahead : ℕ
wizard_max_days_ahead = 366

abbrev pub reminder_title_max_length : ℕ
reminder_title_max_length = 120

unfoldable pub normalize_reminder_title : (ℕ → Bool) → Text → Result Text
unfolding words join_words
normalize_reminder_title is_space raw =
    let title = join_words (words is_space raw) in
    if within 1 reminder_title_max_length (length title) then ok title else err validation

abbrev pub reminder_note_max_length : ℕ
reminder_note_max_length = 1000

-- raw.strip()
unfoldable pub strip_left : (ℕ → Bool) → Text → Text
strip_left is_space [] = []
strip_left is_space (c ∷ t) = let rest = strip_left is_space t in if is_space c then rest else c ∷ t

abbrev pub put_unless_last : (ℕ → Bool) → ℕ → Text → Text
put_unless_last is_space c [] = if is_space c then [] else c ∷ []
put_unless_last is_space c (d ∷ t) = c ∷ d ∷ t

unfoldable pub strip_right : (ℕ → Bool) → Text → Text
strip_right is_space [] = []
strip_right is_space (c ∷ t) = put_unless_last is_space c (strip_right is_space t)

abbrev pub note_of : Text → Result (Option Text)
note_of [] = ok none
note_of (c ∷ t) =
    if ltb reminder_note_max_length (length (c ∷ t)) then err validation else ok (some (c ∷ t))

unfoldable pub normalize_note : (ℕ → Bool) → Option Text → Result (Option Text)
unfolding strip_left strip_right
normalize_note is_space none = ok none
normalize_note is_space (some raw) = note_of (strip_right is_space (strip_left is_space raw))

unfoldable pub local_today : Moment → Zone → Date
unfolding astimezone
local_today now z = date_of (astimezone z now)

-- `parse_user_date` from the parsed date on: none is a text that is no date.
abbrev pub user_date : Option Date → Date → ℕ → Result Date
user_date none today max_days_ahead = err validation
user_date (some d) today max_days_ahead =
    if within today (today + max_days_ahead) d then ok d else err validation

-- `_wall_time`
abbrev pub wall_time : Time → Result Time
wall_time t = if t % minute == 0 then ok t else err validation

-- {_wall_time(value) for value in values}
unfoldable pub wall_times : List Time → Result (List Time)
wall_times [] = ok []
wall_times (t ∷ times) = wall_time t >>= λ first. wall_times times >>= λ rest. ok (first ∷ rest)

abbrev pub bounded_set : ℕ → List ℕ → Result (List ℕ)
unfolding set_of sorted
bounded_set high values =
    let unique = set_of values in
    if within 1 high (length unique) then ok (sorted unique) else err validation

-- `_times`
unfoldable pub times_of : List Time → Result (List Time)
unfolding wall_times bounded_set
times_of values = wall_times values >>= λ times. bounded_set times_max_length times

-- `_day_numbers`
unfoldable pub day_numbers : List ℕ → ℕ → ℕ → Result (List ℕ)
unfolding set_of sorted
day_numbers values low high =
    let unique = set_of values in
    if length unique == 0
    then err validation
    else if all_of (within low high) unique
    then ok (sorted unique)
    else err validation

unfoldable pub build_once_schedule : Date → Time → Result Schedule
build_once_schedule d at = wall_time at >>= λ t. ok (once (combine d t))

unfoldable pub build_daily_schedule : List Time → Result Schedule
unfolding times_of
build_daily_schedule times = times_of times >>= λ ts. ok (daily ts 1)

unfoldable pub build_weekly_schedule : List Time → List ℕ → Result Schedule
unfolding times_of day_numbers
build_weekly_schedule times weekdays =
    times_of times >>= λ ts. day_numbers weekdays 1 weekdays_max_length >>= λ ds. ok (weekly ts ds)

-- The rule is one of the two by its type.
unfoldable pub build_monthly_schedule : List Time → List ℕ → MissingDay → Result Schedule
unfolding times_of day_numbers
build_monthly_schedule times days rule = times_of times >>= λ ts.
    day_numbers days 1 month_days_max_length >>= λ ds. ok (monthly ts ds rule)

unfoldable pub build_interval_schedule : ℕ → Time → Time → Result Schedule
build_interval_schedule every window_start window_end =
    if within interval_min_minutes interval_max_minutes every
    then (wall_time window_start >>= λ from.
        wall_time window_end >>= λ to. ok (interval every from to))
    else err validation

-- `_minutes`, `parse_user_interval`, `parse_user_snooze` and `parse_user_repeat`, from what `int` gives
unfoldable pub minutes_within : ℕ → ℕ → Option ℕ → Result ℕ
minutes_within low high none = err validation
minutes_within low high (some n) = if within low high n then ok n else err validation

unfoldable pub local_day_bounds : Date → Zone → Moment × Moment
local_day_bounds d z = (to_utc (combine d 0) z, to_utc (combine (d + 1) 0) z)

abbrev pub first_of : List Moment → Option Moment
first_of [] = none
first_of (m ∷ ms) = some m

unfoldable pub first_fire_at : Schedule → Zone → Moment → ℕ → Option Moment
unfolding next_occurrences
first_fire_at schedule z starts_at max_days_ahead =
    first_of
      (next_occurrences schedule z (starts_at - boundary) (starts_at + max_days_ahead * day) 1)
