-- ===== src/Time/Units.antt =====
-- Moments, dates, times of day and durations.
use remindo.Prelude.{ℕ, ◌+◌, ◌*◌, ◌/◌, ◌%◌, ◌<◌, ◌≡◌, arith}

abbrev pub Moment : Type 0
Moment = ℕ

abbrev pub Naive : Type 0
Naive = ℕ

abbrev pub Time : Type 0
Time = ℕ

abbrev pub Date : Type 0
Date = ℕ

abbrev pub Duration : Type 0
Duration = ℕ

abbrev pub second : Duration
second = 1000000

abbrev pub minute : Duration
minute = 60000000

abbrev pub hour : Duration
hour = 3600000000

abbrev pub day : Duration
day = 86400000000

-- timedelta(minutes=n)
abbrev pub minutes : ℕ → Duration
minutes n = n * minute

-- datetime.combine(d, t)
abbrev pub combine : Date → Time → Naive
combine d t = d * day + t

-- n.date() and n.time()
abbrev pub date_of : Naive → Date
date_of n = n / day

abbrev pub time_of : Naive → Time
time_of n = n % day

-- 0001-01-01 is a Monday.
abbrev pub isoweekday : Date → ℕ
isoweekday d = d % 7 + 1

pub combine_parts :
    (d : Date) (t : Time) → t < day → (date_of (combine d t) ≡ d) × (time_of (combine d t) ≡ t)
combine_parts d t h = omega arith
