-- ===== src/Ops.antt =====
-- app/domain/ops.py: what the worker knows about the queue and its own cycles. A ratio is a pair of
-- counts, where the source divides them as floats; a cycle's interval is a duration.
use remindo.Prelude.{
  ℕ, ◌+◌, ◌-◌, ◌*◌, Bool, true, false, ◌||◌, Option, none, some, List, [], ◌∷◌, max, ltb, ◌==◌,
  if◌then◌else◌,
}
use remindo.Time.{Moment, Duration, second}
use remindo.Contracts.{JobId, HealthStatus}

abbrev pub health_stale_factor : ℕ
health_stale_factor = 3

abbrev pub health_stale_floor_seconds : ℕ
health_stale_floor_seconds = 60

pub data AlertState : Type 0 where
  clear firing : AlertState

pub data AlertKind : Type 0 where
  raised cleared : AlertKind

pub record QueueSnapshot : Type 0 where
  pub due_deliveries : ℕ
  pub oldest_due_at : Option Moment
  pub delivered : ℕ
  pub failed : ℕ

pub record Ratio : Type 0 where
  pub part : ℕ
  pub whole : ℕ

pub record OpsReport : Type 0 where
  pub taken_at : Moment
  pub queue_size : ℕ
  pub lag : Duration
  pub error_ratio : Ratio

pub record CycleBeat : Type 0 where
  pub job : JobId
  pub interval : Duration
  pub last_tick_at : Moment
  pub failures : ℕ

pub record AlertDecision : Type 0 where
  pub state : AlertState
  pub notify : Option AlertKind

-- max(now - oldest, 0)
abbrev pub lag_of : Option Moment → Moment → Duration
lag_of none now = 0
lag_of (some oldest) now = now - oldest

unfoldable pub queue_lag : QueueSnapshot → Moment → Duration
queue_lag snapshot now = lag_of snapshot.oldest_due_at now

unfoldable pub error_ratio : QueueSnapshot → Ratio
error_ratio snapshot =
    let total = snapshot.delivered + snapshot.failed in
    if total == 0
    then record { part = 0; whole = 1 }
    else record { part = snapshot.failed; whole = total }

unfoldable pub build_report : QueueSnapshot → Moment → OpsReport
unfolding queue_lag error_ratio
build_report snapshot now = record {
  taken_at = now;
  queue_size = snapshot.due_deliveries;
  lag = queue_lag snapshot now;
  error_ratio = error_ratio snapshot;
}

unfoldable pub stale_after : CycleBeat → Duration
stale_after beat = max (beat.interval * health_stale_factor) (health_stale_floor_seconds * second)

-- now - last_tick_at > stale_after; a tick in the future is not stale.
unfoldable pub is_stale : CycleBeat → Moment → Bool
unfolding stale_after
is_stale beat now = ltb (beat.last_tick_at + stale_after beat) now

abbrev pub any_stale : List CycleBeat → Moment → Bool
unfolding is_stale
any_stale [] now = false
any_stale (b ∷ beats) now = is_stale b now || any_stale beats now

unfoldable pub health_status : List CycleBeat → Moment → HealthStatus
health_status beats now = if any_stale beats now then HealthStatus.stale else HealthStatus.ok

-- The edge between the state and what the lag says.
abbrev pub edge : AlertState → Bool → AlertDecision
edge clear true = record { state = firing; notify = some raised }
edge firing false = record { state = clear; notify = some cleared }
edge state other = record { state = state; notify = none }

unfoldable pub decide_alert : AlertState → Duration → Duration → AlertDecision
decide_alert state lag threshold = edge state (ltb threshold lag)
