-- ===== src/Recurrence/Kinds.antt =====
-- The moments of one local day: `interval` and `monthly` schedules.
use remindo.Prelude.{
  ℕ, zero, suc, ◌+◌, ◌-◌, ◌*◌, ◌/◌, ◌≤◌, ◌<◌, ◌≡◌, ◌↔◌, ◌⊎◌, inl, inr, Bool, true, false, ◌&&◌,
  ◌||◌, List, [], ◌∷◌, arith, ltb, leb, ◌==◌, if◌then◌else◌, elem, elem-set_add, Bool-cases,
}
use remindo.Time.{Moment, Date, Time, Duration, minutes, combine}
use remindo.Time.Zone.{Zone}
use remindo.Time.Calendar.{month_day}
use remindo.Schedules.{MissingDay, last_day, skip}
use remindo.Recurrence.{to_utc, steps, interval_moments, wanted_days, at_times, monthly_moments}

steps_sound :
    (fuel : ℕ) (y current end : Moment) (step : Duration)
    → elem y (steps fuel current end step) ≡ true
    → (k : ℕ) × (y ≡ current + k * step) × (y ≤ end)
unfolding steps elem
steps_sound zero y current end step h = absurd (ground arith)
steps_sound (suc f) y current end step h = elim (Bool-cases (y == current)) [
  | inl e ↦ (0, ground arith, ground arith)
  | inr e ↦
      let (k, p, q) = steps_sound f y (current + step) end step (ground arith) in
      (k + 1, grind arith, q)
]

steps_complete :
    (fuel k : ℕ) (current end : Moment) (step : Duration)
    → end < current + fuel * step
    → current + k * step ≤ end
    → elem (current + k * step) (steps fuel current end step) ≡ true
unfolding steps elem
steps_complete zero k current end step h le = absurd (omega arith)
steps_complete (suc f) zero current end step h le = ground arith
steps_complete (suc f) (suc k) current end step h le =
    let e : current + suc k * step ≡ (current + step) + k * step = omega arith in
    rw e (ground (arith, steps_complete f k (current + step) end step (omega arith) (omega arith)))

-- The window of an interval schedule on a day: its first moment and its last possible one.
abbrev pub window_opens : Time → Zone → Date → Moment
window_opens from z d = to_utc (combine d from) z

abbrev pub window_closes : Time → Time → Zone → Date → Moment
window_closes from to z d = to_utc (combine (if ltb from to then d else d + 1) to) z

fuel_enough : (s e p : ℕ) → 0 < p → s < e → e < s + ((e - s) / p + 1) * p
fuel_enough s e p h l = grind arith

pub window_sound :
    (s e p : ℕ) (y : Moment)
    → elem y (if leb e s then s ∷ [] else steps ((e - s) / p + 1) s e p) ≡ true
    → (y ≡ s) ⊎ ((k : ℕ) × (y ≡ s + k * p) × (y ≤ e))
unfolding elem
window_sound s e p y h = elim (Bool-cases (leb e s)) [
  | inl c ↦ inl (ground arith)
  | inr c ↦ inr (steps_sound ((e - s) / p + 1) y s e p (ground arith))
]

window_complete :
    (s e p : ℕ) (y : Moment)
    → 0 < p
    → (y ≡ s) ⊎ ((k : ℕ) × (y ≡ s + k * p) × (y ≤ e))
    → elem y (if leb e s then s ∷ [] else steps ((e - s) / p + 1) s e p) ≡ true
unfolding elem steps
window_complete s e p y h (inl q) = ground arith
window_complete s e p y h (inr (k, q, le)) = elim (Bool-cases (leb e s)) [
  | inl c ↦ let same : y ≡ s = grind arith in rw (c, same) (ground arith)
  | inr c ↦
      rw (c, q)
        (steps_complete ((e - s) / p + 1) k s e p (fuel_enough s e p h (ground arith))
          (omega arith))
]

-- An interval schedule fires at its window's opening and at every whole number of steps after it,
-- up to the closing, and never else; a window of no length has its opening alone.
pub interval_moments_lem :
    (every : ℕ) (from to : Time) (z : Zone) (d : Date) (y : Moment)
    → 0 < every
    → elem y (interval_moments every from to z d) ≡ true
      ↔ (y ≡ window_opens from z d)
        ⊎ ((k : ℕ) × (y ≡ window_opens from z d + k * minutes every)
            × (y ≤ window_closes from to z d))
unfolding interval_moments
interval_moments_lem every from to z d y h = (
  window_sound (window_opens from z d) (window_closes from to z d) (minutes every) y,
  window_complete (window_opens from z d) (window_closes from to z d) (minutes every) y
      (omega arith),
)

-- Some wanted day lies past the end of the month.
pub any_above : ℕ → List ℕ → Bool
any_above n [] = false
any_above n (w ∷ ws) = ltb n w || any_above n ws

pub is_last_day : MissingDay → Bool
is_last_day last_day = true
is_last_day skip = false

elem-wanted_days :
    (x n : ℕ) (rule : MissingDay) (days : List ℕ)
    → elem x (wanted_days n rule days)
      ≡ ((elem x days && leb x n) || (is_last_day rule && (x == n) && any_above n days))
unfolding wanted_days elem is_last_day any_above
elem-wanted_days x n last_day [] = ground arith
elem-wanted_days x n skip [] = ground arith
elem-wanted_days x n last_day (w ∷ ws) = ground (
  arith,
  elem-set_add x (if leb w n then w else n) (wanted_days n last_day ws),
  elem-wanted_days x n last_day ws,
)
elem-wanted_days x n skip (w ∷ ws) =
    ground (arith, elem-set_add x w (wanted_days n skip ws), elem-wanted_days x n skip ws)

-- A monthly schedule fires on a day whose number it names, and, under "last_day", also on the last
-- day of a month that is too short for some day it names; on no other day.
pub monthly_moments_lem :
    (times : List Time) (days : List ℕ) (rule : MissingDay) (z : Zone) (d : Date)
    → let m = month_day d in
      monthly_moments times days rule z d ≡ (
        if (elem m.mday days && leb m.mday m.month_length)
          || (is_last_day rule && (m.mday == m.month_length) && any_above m.month_length days)
        then at_times z d times
        else [])
unfolding monthly_moments
monthly_moments_lem times days rule z d =
    rw (elem-wanted_days (month_day d).mday (month_day d).month_length rule days)
