-- ===== src/Planning.antt =====
-- app/domain/planning.py: which window one planner cycle materialises.
pub mod Window
use remindo.Prelude.{
  ℕ, ◌+◌, ◌-◌, Bool, true, false, ◌&&◌, ◌||◌, Option, none, some, List, [], ◌∷◌, min, max, ltb, leb,
  ◌==◌, if◌then◌else◌, length, last_of,
}
use remindo.Time.{Moment, Duration}
use remindo.Time.Zone.{Zone}
use remindo.Schedules.{Schedule, once}
use remindo.Recurrence.{to_utc, next_occurrences}

-- `BOUNDARY` of app/domain/reminders.py: a microsecond.
abbrev pub boundary : Duration
boundary = 1

abbrev pub max_occurrences_per_cycle : ℕ
max_occurrences_per_cycle = 500

pub record PlanBounds : Type 0 where
  pub starts_at : Moment
  pub planned_until : Option Moment
  pub ends_at : Option Moment
  pub max_occurrences : Option ℕ
  pub last_moment : Option Moment

pub record PlanWindow : Type 0 where
  pub after : Moment
  pub until : Moment
  pub limit : ℕ

unfoldable pub is_empty : PlanWindow → Bool
is_empty w = (w.limit == 0) || leb w.until w.after

pub record PlanOutcome : Type 0 where
  pub planned_until : Moment
  pub exhausted : Bool

unfoldable pub last_moment_of : Schedule → Zone → Option Moment
last_moment_of (once at) z = some (to_utc at z)
last_moment_of _ z = none

unfoldable pub window_after : Moment → Option Moment → Moment
window_after starts_at none = starts_at - boundary
window_after starts_at (some p) = if ltb (starts_at - boundary) p then p else starts_at - boundary

unfoldable pub window_until : Moment → Option Moment → Moment
window_until horizon_end none = horizon_end
window_until horizon_end (some e) = min horizon_end e

unfoldable pub window_limit : ℕ → Option ℕ → ℕ → ℕ
window_limit batch none fired = batch
window_limit batch (some m) fired = min batch (m - fired)

unfoldable pub plan_window : PlanBounds → Moment → ℕ → ℕ → PlanWindow
unfolding window_after window_until window_limit
plan_window b horizon_end fired_count batch_limit = record {
  after = window_after b.starts_at b.planned_until;
  until = window_until horizon_end b.ends_at;
  limit = window_limit batch_limit b.max_occurrences fired_count;
}

abbrev pub reached : Option ℕ → ℕ → Bool
reached none n = false
reached (some m) n = leb m n

unfoldable pub is_exhausted : PlanBounds → Moment → ℕ → Bool
is_exhausted b planned_until fired_count =
    reached b.max_occurrences fired_count
    || (reached b.ends_at planned_until || reached b.last_moment planned_until)

-- `planned_until` of `settle_plan`: the last moment written if the limit cut the window short.
unfoldable pub settled_until : PlanWindow → List Moment → Moment
settled_until w [] = max w.after w.until
settled_until w (m ∷ ms) =
    if leb w.limit (length (m ∷ ms)) then last_of m ms else max w.after w.until

unfoldable pub settle_plan : PlanBounds → PlanWindow → List Moment → ℕ → PlanOutcome
unfolding settled_until is_exhausted
settle_plan b w moments fired_count = record {
  planned_until = settled_until w moments;
  exhausted = is_exhausted b (settled_until w moments) fired_count;
}

-- `PlanningService._expand` of app/services/planning.py.
unfoldable pub expand_window : Schedule → Zone → PlanWindow → List Moment
unfolding is_empty
expand_window s z w = if is_empty w then [] else next_occurrences s z w.after w.until w.limit
