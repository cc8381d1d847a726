-- ===== src/Schedules.antt =====
-- app/domain/schedules.py: the schedule contract and its wall-clock texts. A schedule is what
-- `parse_schedule` gives; `validate` is what pydantic checks and normalises of one that is well typed.
pub mod WallClock
pub mod Validation
use remindo.Prelude.{
  ℕ, ◌+◌, ◌*◌, ◌-◌, ◌/◌, ◌%◌, Bool, true, false, ◌&&◌, ◌||◌, Option, none, some, List, [], ◌∷◌,
  Text, ltb, leb, ◌==◌, if◌then◌else◌, length, all_of, set_of, sorted,
}
use remindo.Time.{Naive, Time, minute, hour, day}
use remindo.Contracts.{Result, ok, err, value_error}

-- "last_day" or "skip"
pub data MissingDay : Type 0 where
  last_day skip : MissingDay

pub data Schedule : Type 0 where
  once : (at : Naive) → Schedule
  interval : (every_minutes : ℕ) (window_start window_end : Time) → Schedule
  daily : (times : List Time) (every_n_days : ℕ) → Schedule
  weekly : (times : List Time) (weekdays : List ℕ) → Schedule
  monthly : (times : List Time) (days : List ℕ) (on_missing_day : MissingDay) → Schedule

abbrev pub times_max_length : ℕ
times_max_length = 12

abbrev pub weekdays_max_length : ℕ
weekdays_max_length = 7

abbrev pub month_days_max_length : ℕ
month_days_max_length = 31

abbrev pub interval_min_minutes : ℕ
interval_min_minutes = 5

abbrev pub interval_max_minutes : ℕ
interval_max_minutes = 1440

-- Minute-precise, and a time of day.
abbrev pub is_wall_time : Time → Bool
is_wall_time t = (t % minute == 0) && ltb t day

abbrev pub within : ℕ → ℕ → ℕ → Bool
within low high n = leb low n && leb n high

-- Field(min_length=1, max_length=TIMES_MAX_LENGTH) on items that `parse_hhmm` takes
abbrev pub times_fit : List Time → Bool
times_fit times = within 1 times_max_length (length times) && all_of is_wall_time times

-- The day lists of weekly and monthly schedules
abbrev pub days_fit : ℕ → List ℕ → Bool
days_fit high days = within 1 high (length days) && all_of (within 1 high) days

-- `_normalize_times` and its like
unfoldable pub normalize : List ℕ → List ℕ
unfolding set_of sorted
normalize values = sorted (set_of values)

unfoldable pub validate : Schedule → Result Schedule
unfolding normalize
validate (once at) = if at % minute == 0 then ok (once at) else err value_error
validate (interval every from to) =
    if within interval_min_minutes interval_max_minutes every
      && (is_wall_time from && is_wall_time to)
    then ok (interval every from to)
    else err value_error
validate (daily times n) =
    if times_fit times && within 1 366 n then ok (daily (normalize times) n) else err value_error
validate (weekly times weekdays) =
    if times_fit times && days_fit weekdays_max_length weekdays
    then ok (weekly (normalize times) (normalize weekdays))
    else err value_error
validate (monthly times days rule) =
    if times_fit times && days_fit month_days_max_length days
    then ok (monthly (normalize times) (normalize days) rule)
    else err value_error

-- What `\d` matches and `int` reads: the value of a Unicode digit.
abbrev pub Digits : Type 0
Digits = ℕ → Option ℕ

abbrev pub tens_and : ℕ → Option ℕ → Option ℕ
tens_and tens none = none
tens_and tens (some n) = some (tens * 10 + n)

-- [01]\d|2[0-3]
unfoldable pub hour_of : Digits → ℕ → ℕ → Option ℕ
hour_of digit_of h i =
    if (h == 48) || (h == 49)
    then tens_and (h - 48) (digit_of i)
    else if (h == 50) && within 48 51 i
    then some (20 + (i - 48))
    else none

-- [0-5]\d
unfoldable pub minute_of : Digits → ℕ → ℕ → Option ℕ
minute_of digit_of m n = if within 48 53 m then tens_and (m - 48) (digit_of n) else none

abbrev pub time_from : Option ℕ → Option ℕ → Result Time
time_from (some h) (some m) = ok (h * hour + m * minute)
time_from _ _ = err value_error

-- `$`, which also matches before a newline at the end
abbrev pub at_end : Text → Bool
at_end [] = true
at_end (c ∷ []) = c == 10
at_end (c ∷ d ∷ t) = false

-- `parse_hhmm` of a text
unfoldable pub parse_hhmm : Digits → Text → Result Time
unfolding hour_of minute_of
parse_hhmm digit_of (h ∷ i ∷ c ∷ m ∷ n ∷ rest) =
    if (c == 58) && at_end rest
    then time_from (hour_of digit_of h i) (minute_of digit_of m n)
    else err value_error
parse_hhmm digit_of _ = err value_error

-- f"{n:02d}" of a number below a hundred
abbrev pub two_digits : ℕ → Text → Text
two_digits n rest = (48 + n / 10) ∷ (48 + n % 10) ∷ rest

unfoldable pub format_hhmm : Time → Text
format_hhmm t = two_digits (t / hour) (58 ∷ two_digits (t % hour / minute) [])
