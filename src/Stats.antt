-- ===== src/Stats.antt =====
-- app/domain/stats.py: streaks and completion counts. A rate is a float that only the renderers
-- read and is left out; the two counts it divides are here.
pub mod Streaks
pub mod Breakdown
use remindo.Prelude.{
  ℕ, zero, suc, ◌+◌, ◌-◌, ◌*◌, Bool, true, false, ◌&&◌, List, [], ◌∷◌, map, max, ltb, leb, ◌==◌,
  if◌then◌else◌, length, keep_if, elem, set_add, set_of, sorted,
}
use remindo.Time.{Moment, Date, day, date_of}
use remindo.Time.Zone.{Zone, astimezone}
use remindo.Contracts.{ActionKind}

abbrev pub stats_history_days : ℕ
stats_history_days = 30

pub record ActionRecord : Type 0 where
  pub happened_at : Moment
  pub kind : ActionKind
  pub category_id : ℕ

pub record PeriodStats : Type 0 where
  pub completed : ℕ
  pub total : ℕ

-- What `_measure` gives, and the fields that CategoryStats and StatsSummary share.
pub record Measure : Type 0 where
  pub current_streak : ℕ
  pub longest_streak : ℕ
  pub last_7_days : PeriodStats
  pub last_30_days : PeriodStats

pub record CategoryStats : Type 0 where
  pub category_id : ℕ
  pub measure : Measure

pub record StatsSummary : Type 0 where
  pub measure : Measure
  pub by_category : List CategoryStats

-- kind is ActionKind.DONE
abbrev pub is_done : ActionKind → Bool
is_done ActionKind.done = true
is_done _ = false

-- kind in OUTCOME_KINDS
abbrev pub is_outcome : ActionKind → Bool
is_outcome ActionKind.snooze = false
is_outcome _ = true

-- The loop of `current_streak`, which walks back while the days are done.
unfoldable pub walk_back : ℕ → List Date → Date → ℕ
walk_back zero days cursor = 0
walk_back (suc fuel) days cursor =
    let rest = walk_back fuel days (cursor - 1) in if elem cursor days then suc rest else 0

-- The fuel is the number of done days, which no streak exceeds; one more round finds the day that ends it.
unfoldable pub current_streak : List Date → Date → ℕ
current_streak days today =
    walk_back (length days + 1) days (if elem today days then today else today - 1)

-- The inner loop of `longest_streak`.
unfoldable pub walk_on : ℕ → List Date → Date → ℕ
walk_on zero days cursor = 0
walk_on (suc fuel) days cursor =
    let rest = walk_on fuel days (cursor + 1) in if elem cursor days then suc rest else 0

-- The outer loop over the days, with the best length so far.
unfoldable pub longest_from : List Date → List Date → ℕ → ℕ
longest_from days [] best = best
longest_from days (d ∷ ds) best =
    longest_from days ds
      (if elem (d - 1) days then best else max best (walk_on (length days + 1) days d))

unfoldable pub longest_streak : List Date → ℕ
longest_streak days = longest_from days days 0

-- since < record.happened_at <= now
abbrev pub in_period : Moment → ℕ → ActionRecord → Bool
in_period now days r = ltb (now - days * day) r.happened_at && leb r.happened_at now

unfoldable pub period : List ActionRecord → Moment → ℕ → PeriodStats
period records now days =
    let window = keep_if (in_period now days) records in
    record { completed = length (keep_if (λ r. is_done r.kind) window); total = length window }

-- {record.happened_at.astimezone(tz).date() for record in outcomes if record.kind is DONE}
unfoldable pub done_days : List ActionRecord → Zone → List Date
unfolding set_of astimezone
done_days outcomes z =
    set_of
      (map (λ r. date_of (astimezone z r.happened_at)) (keep_if (λ r. is_done r.kind) outcomes))

unfoldable pub measure_of : List ActionRecord → Zone → Moment → Measure
unfolding astimezone
measure_of outcomes z now =
    let days = done_days outcomes z in
    record {
      current_streak = current_streak days (date_of (astimezone z now));
      longest_streak = longest_streak days;
      last_7_days = period outcomes now 7;
      last_30_days = period outcomes now 30;
    }

-- One entry of `_breakdown`.
unfoldable pub category_entry : List ActionRecord → Zone → Moment → ℕ → CategoryStats
category_entry outcomes z now c = record {
  category_id = c;
  measure = measure_of (keep_if (λ r. r.category_id == c) outcomes) z now;
}

unfoldable pub breakdown : List ActionRecord → Zone → Moment → List CategoryStats
unfolding set_of sorted
breakdown outcomes z now =
    map (category_entry outcomes z now) (sorted (set_of (map (λ r. r.category_id) outcomes)))

unfoldable pub build_summary : List ActionRecord → Zone → Moment → StatsSummary
build_summary records z now =
    let outcomes = keep_if (λ r. is_outcome r.kind) records in
    record { measure = measure_of outcomes z now; by_category = breakdown outcomes z now }
