-- ===== src/Db/Reports.antt =====
-- app/db/repositories/deliveries.py: the queries of the statistics and of the monitor. A join looks
-- the row up under its foreign key; a row without it is left out.
use remindo.Prelude.{
  ℕ, ◌-◌, Bool, true, false, ◌&&◌, Option, none, some, List, [], ◌∷◌, min, ltb, leb, ◌==◌,
  if◌then◌else◌, length, keep_if,
}
use remindo.Time.{Moment, Duration}
use remindo.Contracts.{DeliveryStatus}
use remindo.Ops.{QueueSnapshot}
use remindo.Db.{Db, Reminder, Occurrence, Delivery, DeliveryAction}
use remindo.Db.Table.{get}
use remindo.Db.Deliveries.{is_queued}

pub record Journal : Type 0 where
  pub action : DeliveryAction
  pub category_id : ℕ

abbrev reminder_category : Option Reminder → Option ℕ
reminder_category none = none
reminder_category (some r) = some r.category_id

abbrev occurrence_category : Db → Option Occurrence → Option ℕ
unfolding get
occurrence_category db none = none
occurrence_category db (some o) = reminder_category (get (λ r. r.id) o.reminder_id db.reminders)

abbrev delivery_category : Db → Option Delivery → Option ℕ
unfolding get
delivery_category db none = none
delivery_category db (some d) =
    occurrence_category db (get (λ o. o.id) d.occurrence_id db.occurrences)

-- The joins from the journal to the category of the reminder.
unfoldable pub category_of : Db → DeliveryAction → Option ℕ
unfolding get
category_of db a = delivery_category db (get (λ d. d.id) a.delivery_id db.deliveries)

abbrev is_wanted : Option ℕ → ℕ → Bool
is_wanted none c = true
is_wanted (some wanted) c = c == wanted

abbrev with_category : Option ℕ → DeliveryAction → Option ℕ → List Journal → List Journal
with_category wanted a none rows = rows
with_category wanted a (some c) rows =
    if is_wanted wanted c then record { action = a; category_id = c } ∷ rows else rows

-- The WHERE clause on the journal's own columns.
abbrev pub is_asked : ℕ → Moment → Moment → DeliveryAction → Bool
is_asked user_id since until a =
    (a.user_id == user_id) && (leb since a.created_at && leb a.created_at until)

abbrev pub join_categories : Db → Option ℕ → List DeliveryAction → List Journal
unfolding category_of
join_categories db wanted [] = []
join_categories db wanted (a ∷ rest) =
    with_category wanted a (category_of db a) (join_categories db wanted rest)

-- `list_actions_for_user`, with both bounds, as its callers give them.
unfoldable pub list_actions_for_user : ℕ → Moment → Moment → Option ℕ → Db → List Journal
list_actions_for_user user_id since until wanted db =
    join_categories db wanted (keep_if (is_asked user_id since until) db.actions)

-- status in _DELIVERED_STATUSES
abbrev pub is_delivered : DeliveryStatus → Bool
is_delivered DeliveryStatus.sent = true
is_delivered DeliveryStatus.done = true
is_delivered DeliveryStatus.skipped = true
is_delivered DeliveryStatus.snoozed = true
is_delivered _ = false

-- status in _FAILED_STATUSES
abbrev pub is_failed : DeliveryStatus → Bool
is_failed DeliveryStatus.failed = true
is_failed DeliveryStatus.blocked = true
is_failed _ = false

abbrev pub is_overdue_row : Moment → Delivery → Bool
is_overdue_row now d = is_queued d.status && leb d.next_attempt_at now

-- now - window < fire_at <= now
abbrev pub is_recent : Moment → Duration → Option Occurrence → Bool
is_recent now window none = false
is_recent now window (some o) = ltb (now - window) o.fire_at && leb o.fire_at now

abbrev is_some_row : Option Occurrence → Bool
is_some_row none = false
is_some_row (some o) = true

-- The occurrence that a delivery joins.
unfoldable pub occurrence_of : Db → Delivery → Option Occurrence
unfolding get
occurrence_of db d = get (λ o. o.id) d.occurrence_id db.occurrences

abbrev pub joined : Db → List Delivery
unfolding occurrence_of
joined db = keep_if (λ d. is_some_row (occurrence_of db d)) db.deliveries

abbrev least : Moment → Option Moment → Option Moment
least m none = some m
least m (some o) = some (min m o)

-- min(next_attempt_at)
abbrev pub oldest : List Delivery → Option Moment
oldest [] = none
oldest (d ∷ ds) = least d.next_attempt_at (oldest ds)

unfoldable pub queue_snapshot : Moment → Duration → Db → QueueSnapshot
unfolding occurrence_of
queue_snapshot now window db =
    let rows = joined db in
    let overdue = keep_if (is_overdue_row now) rows in
    let recent = keep_if (λ d. is_recent now window (occurrence_of db d)) rows in
    record {
      due_deliveries = length overdue;
      oldest_due_at = oldest overdue;
      delivered = length (keep_if (λ d. is_delivered d.status) recent);
      failed = length (keep_if (λ d. is_failed d.status) recent);
    }
