-- ===== src/Time/Calendar.antt =====
-- The proleptic Gregorian calendar of `datetime.date` and `calendar.monthrange`.
use remindo.Prelude.{
  ℕ, ◌+◌, ◌-◌, ◌*◌, ◌/◌, ◌%◌, ◌≡◌, refl, Bool, not, ◌&&◌, ◌||◌, List, [], ◌∷◌, ltb, ◌==◌,
  if◌then◌else◌,
}

-- What `monthly` schedules read of a date.
pub record MonthDay : Type 0 where
  pub year : ℕ
  pub month : ℕ
  pub mday : ℕ
  pub month_length : ℕ

unfoldable pub is_leap : ℕ → Bool
is_leap y = (y % 4 == 0) && (not (y % 100 == 0) || (y % 400 == 0))

-- The year of a day number, and the day's place in it.
unfoldable pub year_day : ℕ → ℕ × ℕ
year_day d =
    let r = d % 146097 in
    let n100 = min3 (r / 36524) in
    let s = r - n100 * 36524 in
    let n4 = s / 1461 in
    let t = s % 1461 in
    let n1 = min3 (t / 365) in (d / 146097 * 400 + n100 * 100 + n4 * 4 + n1 + 1, t - n1 * 365)
  where
    min3 : ℕ → ℕ
    min3 n = if ltb 3 n then 3 else n

unfoldable pub month_lengths : ℕ → List ℕ
unfolding is_leap
month_lengths y =
    31 ∷ (if is_leap y then 29 else 28) ∷ 31 ∷ 30 ∷ 31 ∷ 30 ∷ 31 ∷ 31 ∷ 30 ∷ 31 ∷ 30 ∷ []

-- Walk the months up to the one that holds the day. December takes what is left.
unfoldable pub month_walk : ℕ → ℕ → List ℕ → ℕ → MonthDay
month_walk y m [] r = record { year = y; month = m; mday = r + 1; month_length = 31 }
month_walk y m (n ∷ ns) r =
    let rest = month_walk y (m + 1) ns (r - n) in
    if ltb r n then record { year = y; month = m; mday = r + 1; month_length = n } else rest

unfoldable pub month_day : ℕ → MonthDay
unfolding month_walk month_lengths year_day
month_day d = let (y, r) = year_day d in month_walk y 1 (month_lengths y) r

-- 2024-02-29 and 2023-12-31
leap_day : month_day 738944 ≡ record { year = 2024; month = 2; mday = 29; month_length = 29 }
unfolding month_day
leap_day = refl

new_years_eve : month_day 738884 ≡ record { year = 2023; month = 12; mday = 31; month_length = 31 }
unfolding month_day
new_years_eve = refl
