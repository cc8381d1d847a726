-- ===== src/Tests/Recurrence.antt =====
-- Schedules and silence at concrete inputs.
use remindo.Prelude.{
  ℕ, ◌+◌, ◌-◌, ◌*◌, ◌<◌, ◌≤◌, ◌≡◌, ◌⊎◌, ◌↔◌, refl, true, false, ◌&&◌, ◌||◌, some, [], ◌∷◌, arith,
  elem, ltb, leb, ◌==◌, if◌then◌else◌, length,
}
use remindo.Time.{Moment, day, hour, minute, minutes, second}
use remindo.Time.Calendar.{month_day}
use remindo.Time.Zone.{
  to_instant, astimezone, spring_zone, fixed_zone-IsZone, spring_zone-IsZone, IsWholeSeconds,
  IsSteady,
}
use remindo.Schedules.{last_day}
use remindo.Prelude.{set_add}
use remindo.Recurrence.{
  to_utc, next_occurrences, interval_moments, monthly_moments, at_times, collect, collect_day,
  local_days, days_from, moments_for_day, on_phase,
}
use remindo.Recurrence.Resolve.{to_utc_existing, to_utc_gap}
use remindo.Recurrence.Expand.{Fires, IsExpansion, next_occurrences-IsExpansion}
use remindo.Recurrence.Kinds.{
  window_opens, window_closes, interval_moments_lem, monthly_moments_lem, is_last_day, any_above,
}
use remindo.QuietHours.{shift, covers}
use remindo.QuietHours.Shift.{IsWholeMinute, shift_exact}
use remindo.Tests.Data.{midnight, utc, night, mornings, mornings_fit}

to_utc_existing_example :
    (astimezone utc (to_utc (midnight + 9 * hour) utc) ≡ midnight + 9 * hour)
    × ((u : Moment)
        → day ≤ u
        → astimezone utc u ≡ midnight + 9 * hour
        → to_utc (midnight + 9 * hour) utc ≤ u)
to_utc_existing_example =
    to_utc_existing (fixed_zone-IsZone day (omega arith) (omega arith)) (midnight + 9 * hour)
      (omega arith) (omega arith)

spring_seconds : IsWholeSeconds (spring_zone midnight)
spring_seconds = record {
  multiple = λ f n. (
    if ltb n midnight
        then 86400
        else if ltb n (midnight + hour)
        then (if f then 90000 else 86400)
        else 90000,
    ground arith,
  );
}

spring-IsSteady : IsSteady (spring_zone midnight) 0
unfolding astimezone
spring-IsSteady = record { steady = λ u v e. ground arith; back = λ u v h. ground arith }

next_occurrences-IsExpansion_example :
    IsExpansion
      (Fires mornings (spring_zone midnight))
      (midnight - day)
      (midnight + 2 * day)
      10
      (next_occurrences mornings (spring_zone midnight) (midnight - day) (midnight + 2 * day) 10)
next_occurrences-IsExpansion_example =
    next_occurrences-IsExpansion mornings (midnight - day) (midnight + 2 * day) 10
      (spring_zone-IsZone midnight) spring_seconds spring-IsSteady (omega arith) mornings_fit
      (omega arith) (omega arith)

to_utc_gap_example :
    let r = to_utc (midnight + 30 * minute) (spring_zone midnight) in
    (midnight + 30 * minute ≤ astimezone (spring_zone midnight) r)
    × (astimezone (spring_zone midnight) (r - second) < midnight + 30 * minute)
    × (to_instant (spring_zone midnight) true (midnight + 30 * minute) < r)
    × (r ≤ to_instant (spring_zone midnight) false (midnight + 30 * minute))
to_utc_gap_example =
    to_utc_gap (spring_zone-IsZone midnight) (midnight + 30 * minute) (omega arith) spring_seconds
      refl (ground arith)

two_mornings :
    length (
      collect mornings utc midnight
        (midnight + 2 * day)
        10
        (local_days utc midnight (midnight + 2 * day))
        [])
    ≡ 2
unfolding collect collect_day local_days days_from astimezone moments_for_day on_phase at_times
    to_utc to_instant set_add elem
two_mornings = refl

-- From 22:00 to 02:00 every half hour.
interval_moments_lem_example :
    elem (midnight + 23 * hour) (interval_moments 30 (22 * hour) (2 * hour) utc 738884) ≡ true
    ↔ (midnight + 23 * hour ≡ window_opens (22 * hour) utc 738884)
      ⊎ ((k : ℕ) × (midnight + 23 * hour ≡ window_opens (22 * hour) utc 738884 + k * minutes 30)
          × (midnight + 23 * hour ≤ window_closes (22 * hour) (2 * hour) utc 738884))
interval_moments_lem_example =
    interval_moments_lem 30 (22 * hour) (2 * hour) utc 738884 (midnight + 23 * hour) (omega arith)

-- The 30th and the 31st, on 2024-02-29.
monthly_moments_lem_example :
    let m = month_day 738944 in
    monthly_moments (9 * hour ∷ []) (30 ∷ 31 ∷ []) last_day utc 738944 ≡ (
      if (elem m.mday (30 ∷ 31 ∷ []) && leb m.mday m.month_length)
        || (is_last_day last_day
            && (m.mday == m.month_length)
            && any_above m.month_length (30 ∷ 31 ∷ []))
      then at_times utc 738944 (9 * hour ∷ [])
      else [])
monthly_moments_lem_example = monthly_moments_lem (9 * hour ∷ []) (30 ∷ 31 ∷ []) last_day utc 738944

whole_end : IsWholeMinute (some (7 * hour))
whole_end = (refl, omega arith)

shift_exact_example :
    (covers night (shift night (midnight + 23 * hour)) ≡ false)
    × ((u : Moment)
        → midnight + 23 * hour ≤ u
        → u < shift night (midnight + 23 * hour)
        → covers night u ≡ true)
shift_exact_example =
    shift_exact day (some (22 * hour)) (some (7 * hour)) (midnight + 23 * hour) (omega arith)
      (omega arith) whole_end
