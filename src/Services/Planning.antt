-- ===== src/Services/Planning.antt =====
-- app/services/planning.py, the class PlanningService: schedules become queue rows. A row that
-- conflicts uses up a number of its table's sequence, as in PostgreSQL.
pub mod Rows
pub mod Union
pub mod Sound
pub mod Complete
pub mod Cycle
use remindo.Prelude.{
  ℕ, ◌+◌, Bool, true, false, Option, none, some, List, [], ◌∷◌, ◌++◌, map, if◌then◌else◌, length,
}
use remindo.Time.{Moment, Duration}
use remindo.QuietHours.{QuietHours, shift}
use remindo.Contracts.{ReminderStatus}
use remindo.Planning.{
  PlanBounds, PlanOutcome, last_moment_of, plan_window, settle_plan, expand_window,
  max_occurrences_per_cycle,
}
use remindo.Db.{Db, User, Reminder, Occurrence, Delivery}
use remindo.Db.Table.{get}
use remindo.Db.Deliveries
use remindo.Db.Deliveries.{NewDelivery}
use remindo.Db.Occurrences
use remindo.Db.Occurrences.{NewOccurrence}
use remindo.Db.Reminders
use remindo.Db.People
use remindo.Services.Reactions.{quiet_hours_of}

pub record PlanningResult : Type 0 where
  pub reminders_processed : ℕ
  pub occurrences_created : ℕ
  pub deliveries_created : ℕ
  pub reminders_archived : ℕ

unfoldable pub occurrence_row : ℕ → QuietHours → Duration → Moment → NewOccurrence
occurrence_row reminder_id quiet ttl moment = record {
  reminder_id = reminder_id;
  scheduled_for = moment;
  fire_at = shift quiet moment;
  expires_at = shift quiet moment + ttl;
}

abbrev pub occurrence_rows : ℕ → QuietHours → Duration → List Moment → List NewOccurrence
occurrence_rows reminder_id quiet ttl moments = map (occurrence_row reminder_id quiet ttl) moments

abbrev pub delivery_row : Occurrence → ℕ → NewDelivery
delivery_row o user_id = record {
  occurrence_id = o.id;
  user_id = user_id;
  next_attempt_at = o.fire_at;
}

-- One row for every occurrence and every recipient of it.
unfoldable pub delivery_rows : List Occurrence → List ℕ → List NewDelivery
delivery_rows [] user_ids = []
delivery_rows (o ∷ os) user_ids = map (delivery_row o) user_ids ++ delivery_rows os user_ids

-- The call of `insert_missing` for the occurrences, and how many went in.
unfoldable pub create_occurrences : ℕ → QuietHours → Duration → List Moment → Db → Db × ℕ
create_occurrences reminder_id quiet ttl moments db =
    let (t, created) =
      Occurrences.insert_missing (occurrence_rows reminder_id quiet ttl moments) db.next_occurrence
        db.occurrences in
    (record db { occurrences = t; next_occurrence = db.next_occurrence + length moments }, created)

-- `_create_deliveries`. Without moments or recipients there are no rows to insert.
unfoldable pub create_deliveries : ℕ → List Moment → Db → Db × ℕ
create_deliveries reminder_id moments db =
    let rows =
      delivery_rows (Occurrences.list_for_schedule reminder_id moments db.occurrences)
        (People.list_accepted_user_ids reminder_id db.recipients) in
    let (t, created) = Deliveries.insert_missing rows db.next_delivery db.deliveries in
    (record db { deliveries = t; next_delivery = db.next_delivery + length rows }, created)

-- Both inserts of `_materialize_one`.
unfoldable pub write_rows : ℕ → QuietHours → Duration → List Moment → Db → Db × ℕ × ℕ
write_rows reminder_id quiet ttl moments db =
    let (with_occurrences, occurrences) = create_occurrences reminder_id quiet ttl moments db in
    let (with_deliveries, deliveries) = create_deliveries reminder_id moments with_occurrences in
    (with_deliveries, occurrences, deliveries)

unfoldable pub bounds_of : Reminder → PlanBounds
bounds_of r = record {
  starts_at = r.starts_at;
  planned_until = r.planned_until;
  ends_at = r.ends_at;
  max_occurrences = r.max_occurrences;
  last_moment = last_moment_of r.schedule r.timezone;
}

-- The moments that this cycle writes for the reminder.
unfoldable pub moments_of : Reminder → Moment → ℕ → List Moment
moments_of r horizon_end fired_count =
    expand_window r.schedule r.timezone
      (plan_window (bounds_of r) horizon_end fired_count max_occurrences_per_cycle)

-- What `settle_plan` says after `fired_count` grew by the rows created.
unfoldable pub outcome_of : Reminder → Moment → ℕ → ℕ → PlanOutcome
outcome_of r horizon_end fired_count created =
    settle_plan (bounds_of r)
      (plan_window (bounds_of r) horizon_end fired_count max_occurrences_per_cycle)
      (moments_of r horizon_end fired_count) (fired_count + created)

-- The reminder's row after the cycle.
unfoldable pub close_plan : ℕ → PlanOutcome → ℕ → Db → Db
close_plan reminder_id outcome fired_count db =
    let t =
      Reminders.set_planning_state reminder_id outcome.planned_until fired_count db.reminders in
    record db {
      reminders =
          if outcome.exhausted
          then Reminders.set_status reminder_id ReminderStatus.archived t
          else t;
    }

unfoldable pub materialize_one : Duration → Moment → Reminder → User → Db → Db × PlanningResult
materialize_one ttl horizon_end r owner db =
    let fired = Occurrences.count_for_reminder r.id db.occurrences in
    let (written, occurrences, deliveries) =
      write_rows r.id (quiet_hours_of owner) ttl (moments_of r horizon_end fired) db in
    let outcome = outcome_of r horizon_end fired occurrences in
    (
      close_plan r.id outcome (fired + occurrences) written,
      record {
        reminders_processed = 0;
        occurrences_created = occurrences;
        deliveries_created = deliveries;
        reminders_archived = if outcome.exhausted then 1 else 0;
      },
    )

unfoldable pub materialize_due :
    Duration → Moment → Reminder → Option User → Db → Db × PlanningResult
materialize_due ttl horizon_end r none db = (
  db,
  record {
    reminders_processed = 0;
    occurrences_created = 0;
    deliveries_created = 0;
    reminders_archived = 0;
  },
)
materialize_due ttl horizon_end r (some owner) db = materialize_one ttl horizon_end r owner db

-- The loop over the reminders that are due.
unfoldable pub materialize_all : Duration → Moment → List Reminder → Db → Db × PlanningResult
materialize_all ttl horizon_end [] db = (
  db,
  record {
    reminders_processed = 0;
    occurrences_created = 0;
    deliveries_created = 0;
    reminders_archived = 0;
  },
)
materialize_all ttl horizon_end (r ∷ rs) db =
    let (next, one) = materialize_due ttl horizon_end r (get People.id_of r.owner_id db.users) db in
    let (last, rest) = materialize_all ttl horizon_end rs next in
    (
      last,
      record {
        reminders_processed = rest.reminders_processed;
        occurrences_created = one.occurrences_created + rest.occurrences_created;
        deliveries_created = one.deliveries_created + rest.deliveries_created;
        reminders_archived = one.reminders_archived + rest.reminders_archived;
      },
    )

unfoldable pub materialize : Duration → Duration → ℕ → Moment → Db → Db × PlanningResult
materialize horizon ttl batch now db =
    let due = Reminders.due_for_planning (now + horizon) batch db.reminders in
    let (db', r) = materialize_all ttl (now + horizon) due db in
    (db', record r { reminders_processed = length due })
