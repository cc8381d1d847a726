-- ===== src/Recurrence.antt =====
-- app/domain/recurrence.py: expansion of a schedule into firing moments. The proofs are below.
pub mod Resolve
pub mod Days
pub mod Collect
pub mod Expand
pub mod Kinds
use remindo.Prelude.{
  ℕ, zero, suc, ◌+◌, ◌-◌, ◌*◌, ◌/◌, ◌%◌, Bool, true, false, ◌&&◌, ◌||◌, List, [], ◌∷◌, map, ltb,
  leb, ◌==◌, if◌then◌else◌, length, take, elem, set_add, sorted,
}
use remindo.Time.{
  Moment, Naive, Date, Time, Duration, second, day, minutes, combine, date_of, isoweekday,
}
use remindo.Time.Calendar.{MonthDay, month_day}
use remindo.Time.Zone.{Zone, to_instant, astimezone}
use remindo.Schedules.{Schedule, MissingDay, once, interval, daily, weekly, monthly, last_day, skip}

-- 1970-01-01
abbrev pub day_epoch : Date
day_epoch = 719162

abbrev pub safety_buffer : ℕ
safety_buffer = 600

abbrev pub max_local_days : ℕ
max_local_days = 3660

-- The `while high - low > 1` loop, over the test that it makes of the middle.
unfoldable pub bisect : ℕ → (ℕ → Bool) → ℕ → ℕ → ℕ
bisect zero reached low high = high
bisect (suc fuel) reached low high =
    let mid = (low + high) / 2 in
    let left = bisect fuel reached low mid in
    let right = bisect fuel reached mid high in
    if ltb 1 (high - low) then (if reached mid then left else right) else high

-- The fuel is the length of the interval; each round shortens it.
unfoldable pub first_existing_moment : Naive → Zone → Moment → Moment → Moment
unfolding bisect astimezone
first_existing_moment naive z low high =
    let low_ts = low / second in
    let high_ts = high / second in
    bisect (high_ts - low_ts) (λ ts. leb naive (astimezone z (ts * second))) low_ts high_ts * second

unfoldable pub to_utc : Naive → Zone → Moment
to_utc naive z =
    let early = to_instant z false naive in
    let late = to_instant z true naive in
    if z.utcoffset false naive == z.utcoffset true naive
    then early
    else if ltb (z.utcoffset true naive) (z.utcoffset false naive)
    then early
    else first_existing_moment naive z late early

-- [to_utc(datetime.combine(day, moment), tz) for moment in times]
unfoldable pub at_times : Zone → Date → List Time → List Moment
at_times z d [] = []
at_times z d (t ∷ times) = to_utc (combine d t) z ∷ at_times z d times

-- `while current <= end`
unfoldable pub steps : ℕ → Moment → Moment → Duration → List Moment
steps zero current end step = []
steps (suc fuel) current end step =
    let rest = steps fuel (current + step) end step in
    if leb current end then current ∷ rest else []

-- The fuel counts the steps that fit; one more round finds that the loop is over.
unfoldable pub interval_moments : ℕ → Time → Time → Zone → Date → List Moment
interval_moments every_minutes window_start window_end z d =
    let start = to_utc (combine d window_start) z in
    let end_day = (if ltb window_start window_end then d else d + 1) in
    let end = to_utc (combine end_day window_end) z in
    let step = minutes every_minutes in
    if leb end start then start ∷ [] else steps ((end - start) / step + 1) start end step

-- The set `wanted` of `_monthly_moments`.
unfoldable pub wanted_days : ℕ → MissingDay → List ℕ → List ℕ
wanted_days days_in_month rule [] = []
wanted_days days_in_month last_day (w ∷ ws) =
    set_add (if leb w days_in_month then w else days_in_month)
      (wanted_days days_in_month last_day ws)
wanted_days days_in_month skip (w ∷ ws) =
    let rest = wanted_days days_in_month skip ws in
    if leb w days_in_month then set_add w rest else rest

unfoldable pub monthly_moments : List Time → List ℕ → MissingDay → Zone → Date → List Moment
monthly_moments times days rule z d =
    let m = month_day d in
    if elem m.mday (wanted_days m.month_length rule days) then at_times z d times else []

-- (day - epoch) % n is zero. Python's `%` of a negative number by a positive one is the residue.
unfoldable pub on_phase : Date → ℕ → Bool
on_phase d n = if ltb d day_epoch then (day_epoch - d) % n == 0 else (d - day_epoch) % n == 0

unfoldable pub moments_for_day : Schedule → Zone → Date → List Moment
moments_for_day (interval every from to) z d = interval_moments every from to z d
moments_for_day (daily times every_n_days) z d =
    if on_phase d every_n_days then at_times z d times else []
moments_for_day (weekly times weekdays) z d =
    if elem (isoweekday d) weekdays then at_times z d times else []
moments_for_day (monthly times days rule) z d = monthly_moments times days rule z d
moments_for_day (once at) z d = []

unfoldable pub days_from : ℕ → Date → List Date
days_from zero first = []
days_from (suc n) first = first ∷ days_from n (first + 1)

unfoldable pub local_days : Zone → Moment → Moment → List Date
unfolding days_from astimezone
local_days z after until =
    let first = date_of (astimezone z after - day) in
    let last = date_of (astimezone z until + day) in
    let span = (if ltb (last - first) max_local_days then last - first else max_local_days) in
    if ltb last first then [] else days_from (span + 1) first

-- after < moment <= until
abbrev pub in_range : Moment → Moment → Moment → Bool
in_range after until m = ltb after m && leb m until

-- One round of the loop over the moments of a day.
unfoldable pub collect_day : Moment → Moment → List Moment → List Moment → List Moment
unfolding set_add
collect_day after until [] found = found
collect_day after until (m ∷ ms) found =
    collect_day after until ms (if in_range after until m then set_add m found else found)

-- The loop over the days, with its `break`.
unfoldable pub collect :
    Schedule → Zone → Moment → Moment → ℕ → List Date → List Moment → List Moment
collect s z after until limit [] found = found
collect s z after until limit (d ∷ ds) found =
    let grown = collect_day after until (moments_for_day s z d) found in
    let rest = collect s z after until limit ds grown in
    if leb (limit + safety_buffer) (length grown) then grown else rest

-- Every kind of schedule but `once`.
unfoldable pub expand_days : Schedule → Zone → Moment → Moment → ℕ → List Moment
expand_days s z after until limit =
    take limit (sorted (collect s z after until limit (local_days z after until) []))

unfoldable pub expand : Schedule → Zone → Moment → Moment → ℕ → List Moment
expand (once at) z after until limit =
    if in_range after until (to_utc at z) then to_utc at z ∷ [] else []
expand other z after until limit = expand_days other z after until limit

unfoldable pub next_occurrences : Schedule → Zone → Moment → Moment → ℕ → List Moment
unfolding expand
next_occurrences s z after until limit =
    if (limit == 0) || leb until after then [] else expand s z after until limit
