-- ===== src/Db/Reminders.antt =====
-- app/db/repositories/reminders.py, the class RemindersRepository.
use remindo.Prelude.{
  ℕ, Bool, true, false, ◌&&◌, ◌||◌, Option, none, some, List, ltb, leb, ◌==◌, take, keep_if,
}
use remindo.Time.{Moment}
use remindo.Contracts.{ReminderStatus}
use remindo.Db.{Reminder}
use remindo.Db.Table.{order_by, update}

abbrev pub id_of : Reminder → ℕ
id_of r = r.id

abbrev pub is_active : ReminderStatus → Bool
is_active ReminderStatus.active = true
is_active _ = false

-- planned_until IS NULL OR planned_until < horizon_end
abbrev pub runs_out : Moment → Option Moment → Bool
runs_out horizon_end none = true
runs_out horizon_end (some p) = ltb p horizon_end

unfoldable pub is_due_for_planning : Moment → Reminder → Bool
is_due_for_planning horizon_end r =
    is_active r.status && (leb r.starts_at horizon_end && runs_out horizon_end r.planned_until)

-- ORDER BY planned_until ASC NULLS FIRST
abbrev pub sooner : Option Moment → Option Moment → Bool
sooner none none = false
sooner none (some q) = true
sooner (some p) none = false
sooner (some p) (some q) = ltb p q

abbrev pub same_horizon : Option Moment → Option Moment → Bool
same_horizon none none = true
same_horizon (some p) (some q) = p == q
same_horizon none (some q) = false
same_horizon (some p) none = false

unfoldable pub due_for_planning : Moment → ℕ → List Reminder → List Reminder
unfolding is_due_for_planning
due_for_planning horizon_end limit t = take limit (
    order_by
      (λ a b.
        sooner a.planned_until b.planned_until
        || (same_horizon a.planned_until b.planned_until && ltb a.id b.id))
      (keep_if (is_due_for_planning horizon_end) t))

unfoldable pub set_planning_state : ℕ → Moment → ℕ → List Reminder → List Reminder
set_planning_state i planned_until fired_count t =
    update id_of i (λ r. record r { planned_until = some planned_until; fired_count = fired_count })
      t

-- The count is `max(fired_count, 0)`: the caller's subtraction stops at 0.
unfoldable pub reset_planning : ℕ → ℕ → List Reminder → List Reminder
reset_planning i fired_count t =
    update id_of i (λ r. record r { planned_until = none; fired_count = fired_count }) t

unfoldable pub set_status : ℕ → ReminderStatus → List Reminder → List Reminder
set_status i status t = update id_of i (λ r. record r { status = status }) t
