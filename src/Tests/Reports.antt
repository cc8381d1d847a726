-- ===== src/Tests/Reports.antt =====
-- Statistics, digests and the monitor at concrete inputs.
use remindo.Prelude.{
  ℕ, ◌+◌, ◌*◌, ◌≤◌, ◌≡◌, ◌⊎◌, refl, true, none, some, List, [], ◌∷◌, arith, elem, map, ltb,
  Ascending, if◌then◌else◌, ◌==◌,
}
use remindo.Time.{Moment, Naive, hour, minute, day}
use remindo.Time.Zone.{fixed_zone-IsSteady}
use remindo.Contracts.{done, skip, forbidden}
use remindo.Recurrence.{to_utc}
use remindo.Stats.{ActionRecord, longest_streak, build_summary}
use remindo.Stats.Streaks.{IsLongest, longest_streak-IsLongest}
use remindo.Stats.Breakdown.{sum_map, by_category_partition}
use remindo.Digest.{last_digest_moment}
use remindo.Digest.Weekly.{IsSlot, last_digest_moment_lem}
use remindo.Ops.{queue_lag, clear}
use remindo.Db.{Db, User}
use remindo.Db.Table.{get}
use remindo.Db.People.{id_of}
use remindo.Db.Reports.{queue_snapshot, joined}
use remindo.Services.Digest.{was_deferred, one}
use remindo.Services.Digest.Once.{one_once}
use remindo.Services.Ops.{Settings, MonitorState}
use remindo.Services.Ops.Alerts.{
  Tick, any_late, queue_lag-late, alternates, messages, messages_alternate,
}
use remindo.Tests.Data.{midnight, utc, utc_laws, utc_seconds, alice, house}

abbrev done_dates : List ℕ
done_dates = 738884 ∷ 738886 ∷ 738885 ∷ 738880 ∷ []

longest_streak-IsLongest_example : IsLongest done_dates (longest_streak done_dates)
longest_streak-IsLongest_example = longest_streak-IsLongest done_dates (unfold elem in refl)

abbrev two_outcomes : List ActionRecord
two_outcomes =
    record { happened_at = midnight; kind = done; category_id = 3 }
    ∷ record { happened_at = midnight + hour; kind = skip; category_id = 4 }
    ∷ []

by_category_partition_example :
    let s = build_summary two_outcomes utc (midnight + day) in
    (sum_map (λ e. e.measure.last_7_days.total) s.by_category ≡ s.measure.last_7_days.total)
    × (sum_map (λ e. e.measure.last_7_days.completed) s.by_category
        ≡ s.measure.last_7_days.completed)
    × (sum_map (λ e. e.measure.last_30_days.total) s.by_category ≡ s.measure.last_30_days.total)
    × (sum_map (λ e. e.measure.last_30_days.completed) s.by_category
        ≡ s.measure.last_30_days.completed)
    × Ascending (map (λ e. e.category_id) s.by_category)
by_category_partition_example = by_category_partition two_outcomes utc (midnight + day)

last_digest_moment_lem_example :
    let m = last_digest_moment midnight utc 1 9 in
    (m ≤ midnight)
    × ((c : Naive) × (m ≡ to_utc c utc)
        × IsSlot 1 9 c
        × ((c' : Naive) → IsSlot 1 9 c' → to_utc c' utc ≤ midnight → c' ≤ c))
last_digest_moment_lem_example =
    last_digest_moment_lem utc_laws utc_seconds (fixed_zone-IsSteady day) midnight 1 9 (omega arith)
      (omega arith) (omega arith) (omega arith) (omega arith)

one_once_example :
    let ran = one (midnight + day) 1 9 (λ i. none) alice house in
    ((ran.0 ≡ was_deferred) × (ran.1 ≡ house))
    ⊎ ((u : User) × (get id_of 1 ran.1.users ≡ some u)
        × ((later : Moment) (other : ℕ → _) (then_db : Db)
            → last_digest_moment later utc 1 9 ≤ last_digest_moment (midnight + day) utc 1 9
            → one later 1 9 other u then_db ≡ (was_deferred, then_db)))
one_once_example = one_once (midnight + day) 1 9 (λ i. none) alice house (unfold get in refl)

queue_lag-late_example :
    ltb
      (5 * minute)
      (queue_lag (queue_snapshot (midnight + 10 * hour) hour house) (midnight + 10 * hour))
    ≡ any_late (5 * minute) (midnight + 10 * hour) (joined house)
queue_lag-late_example = queue_lag-late (5 * minute) hour (midnight + 10 * hour) house

abbrev monitor : Settings
monitor = record { admin_ids = 1 ∷ 2 ∷ []; alert_lag = 5 * minute; metrics_window = hour }

abbrev fresh : MonitorState
fresh = record { alert = clear; report = none; muted_admins = [] }

abbrev two_ticks : List Tick
two_ticks =
    record {
      now = midnight + 10 * hour;
      db = house;
      send = λ i. if i == 1 then some forbidden else none;
    }
    ∷ record {
      now = midnight + 10 * hour + minute;
      db = record house { deliveries = [] };
      send = λ i. none;
    }
    ∷ []

messages_alternate_example : alternates clear (messages monitor two_ticks fresh) ≡ true
messages_alternate_example = messages_alternate monitor two_ticks fresh
