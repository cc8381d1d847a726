-- ===== src/Tests/Planning.antt =====
-- The planner at concrete inputs.
use remindo.Prelude.{
  ℕ, ◌+◌, ◌-◌, ◌*◌, ◌<◌, ◌≤◌, ◌≡◌, ◌⊎◌, ◌↔◌, refl, true, none, [], ◌∷◌, arith, elem, set_add,
  sorted, sorted_insert,
}
use remindo.Time.{Moment, day, hour}
use remindo.Time.Zone.{astimezone, to_instant}
use remindo.Recurrence.{
  to_utc, at_times, collect, collect_day, local_days, days_from, moments_for_day, on_phase, expand,
  expand_days, next_occurrences,
}
use remindo.Planning.{
  PlanBounds, PlanWindow, last_moment_of, plan_window, settle_plan, expand_window, is_empty,
}
use remindo.Planning.Window.{Before, Past, plan_window_range}
use remindo.Db.People.{list_accepted_user_ids}
use remindo.Db.Occurrences.{count_for_reminder}
use remindo.Services.Reactions.{quiet_hours_of}
use remindo.Services.Planning.{
  bounds_of, moments_of, write_rows, materialize_one, materialize_due, materialize_all, materialize,
  create_occurrences, create_deliveries, occurrence_row, close_plan,
}
use remindo.Services.Planning.Rows.{write_rows_twice}
use remindo.Services.Planning.Union.{planned}
use remindo.Services.Planning.Sound.{SomeMayPlan, materialize_sound}
use remindo.Db.Insert.{insert_rows, taken}
use remindo.Db.Occurrences
use remindo.Db.Table.{order_by, order_insert, get}
use remindo.Db.Reminders.{due_for_planning, is_due_for_planning}
use remindo.Services.Planning.Complete.{is_reached, write_rows_complete}
use remindo.Tests.Data.{midnight, no_silence, pills, alice, house}

abbrev bounds : PlanBounds
bounds = record {
  starts_at = midnight;
  planned_until = none;
  ends_at = none;
  max_occurrences = none;
  last_moment = none;
}

abbrev horizon : Moment
horizon = midnight + 2 * day

plan_window_range_example :
    let w = plan_window bounds horizon 0 500 in
    ((w.after < midnight + hour) × (midnight + hour ≤ w.until)) ↔ (
      (midnight ≤ midnight + hour)
      × Past none (midnight + hour)
      × (midnight + hour ≤ horizon)
      × Before (midnight + hour) none)
plan_window_range_example = plan_window_range bounds horizon 0 500 (midnight + hour) (omega arith)

abbrev window : PlanWindow
window = record { after = midnight - 1; until = horizon; limit = 500 }

planned_to_horizon :
    (settle_plan bounds window
      ((midnight + 9 * hour) ∷ (midnight + 33 * hour) ∷ [])
      2).planned_until
    ≡ horizon
unfolding settle_plan
planned_to_horizon = refl

write_rows_twice_example :
    let once =
      (write_rows 7 no_silence day ((midnight + 9 * hour) ∷ (midnight + 33 * hour) ∷ []) house).0 in
    let (twice, occurrences, deliveries) =
      write_rows 7 no_silence day ((midnight + 9 * hour) ∷ (midnight + 33 * hour) ∷ []) once in
    (twice.occurrences ≡ once.occurrences)
    × (twice.deliveries ≡ once.deliveries)
    × (occurrences ≡ 0)
    × (deliveries ≡ 0)
write_rows_twice_example =
    write_rows_twice 7 no_silence day ((midnight + 9 * hour) ∷ (midnight + 33 * hour) ∷ []) house

bob_accepted : elem 2 (list_accepted_user_ids 7 house.recipients) ≡ true
unfolding elem list_accepted_user_ids
bob_accepted = refl

write_rows_complete_example :
    is_reached 7
      (midnight + 33 * hour)
      2
      (write_rows 7 no_silence day ((midnight + 9 * hour) ∷ (midnight + 33 * hour) ∷ []) house).0
    ≡ true
write_rows_complete_example =
    write_rows_complete 7 no_silence day ((midnight + 9 * hour) ∷ (midnight + 33 * hour) ∷ []) house
      (midnight + 33 * hour) 2 (unfold elem in refl) bob_accepted

morning_planned :
    planned (materialize (2 * day) day 100 midnight house).0 7 (midnight + 9 * hour) ≡ true
unfolding materialize materialize_all materialize_due materialize_one close_plan moments_of
    bounds_of write_rows create_occurrences occurrence_row insert_rows due_for_planning
    is_due_for_planning order_by order_insert get plan_window last_moment_of expand_window is_empty
    next_occurrences expand expand_days collect collect_day local_days days_from astimezone
    moments_for_day on_phase at_times to_utc to_instant set_add elem sorted sorted_insert
    count_for_reminder create_deliveries taken Occurrences.conflicts
morning_planned = refl

materialize_sound_example :
    (planned house 7 (midnight + 9 * hour) ≡ true)
    ⊎ SomeMayPlan
        (midnight + 2 * day)
        7
        (midnight + 9 * hour)
        (due_for_planning (midnight + 2 * day) 100 house.reminders)
materialize_sound_example =
    materialize_sound (2 * day) day 100 midnight house 7 (midnight + 9 * hour) morning_planned

abbrev created : ℕ
created =
    (write_rows 7 (quiet_hours_of alice) day
      (moments_of pills horizon (count_for_reminder 7 house.occurrences)) house).1
