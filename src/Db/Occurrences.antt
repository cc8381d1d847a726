-- ===== src/Db/Occurrences.antt =====
-- app/db/repositories/occurrences.py: the planned firings.
use remindo.Prelude.{
  ℕ, ◌+◌, Bool, true, false, not, ◌&&◌, ◌||◌, List, [], ◌∷◌, map, ltb, ◌==◌, length, take, keep_if,
  all_of, elem,
}
use remindo.Time.{Moment}
use remindo.Contracts.{
  OccurrenceStatus, DeliveryStatus, is_terminal_occurrence, is_terminal_delivery,
}
use remindo.Db.{Occurrence, Delivery}
use remindo.Db.Insert.{insert_rows}
use remindo.Db.Table.{order_by, update}

abbrev pub id_of : Occurrence → ℕ
id_of o = o.id

abbrev pub is_pending : OccurrenceStatus → Bool
is_pending OccurrenceStatus.pending = true
is_pending _ = false

-- One of the rows that `PlanningService._occurrence_rows` builds.
pub record NewOccurrence : Type 0 where
  pub reminder_id : ℕ
  pub scheduled_for : Moment
  pub fire_at : Moment
  pub expires_at : Moment

unfoldable pub new_row : ℕ → NewOccurrence → Occurrence
new_row i n = record {
  id = i;
  reminder_id = n.reminder_id;
  scheduled_for = n.scheduled_for;
  fire_at = n.fire_at;
  status = OccurrenceStatus.pending;
  repeats_sent = 0;
  expires_at = n.expires_at;
}

-- The unique key (reminder_id, scheduled_for).
unfoldable pub conflicts : NewOccurrence → Occurrence → Bool
conflicts n o = (o.reminder_id == n.reminder_id) && (o.scheduled_for == n.scheduled_for)

abbrev pub insert_missing : List NewOccurrence → ℕ → List Occurrence → List Occurrence × ℕ
insert_missing = insert_rows conflicts new_row

unfoldable pub list_for_schedule : ℕ → List Moment → List Occurrence → List Occurrence
list_for_schedule reminder_id moments t =
    keep_if (λ o. (o.reminder_id == reminder_id) && elem o.scheduled_for moments) t

abbrev pub left_pending : DeliveryStatus → Bool
left_pending DeliveryStatus.pending = false
left_pending _ = true

-- A delivery of the occurrence has left `pending`.
unfoldable pub is_answered : ℕ → List Delivery → Bool
is_answered o [] = false
is_answered o (d ∷ ds) = ((d.occurrence_id == o) && left_pending d.status) || is_answered o ds

unfoldable pub is_unsent : ℕ → List Delivery → Occurrence → Bool
is_unsent reminder_id ds o =
    (o.reminder_id == reminder_id) && (is_pending o.status && not (is_answered o.id ds))

-- `delete_unsent`: the occurrences that stay, the deliveries that stay (the foreign key cascades), and
-- how many occurrences went.
unfoldable pub delete_unsent :
    ℕ → List Occurrence → List Delivery → List Occurrence × List Delivery × ℕ
delete_unsent reminder_id os ds =
    let gone = keep_if (is_unsent reminder_id ds) os in
    (
      keep_if (λ o. not (is_unsent reminder_id ds o)) os,
      keep_if (λ d. not (elem d.occurrence_id (map id_of gone))) ds,
      length gone,
    )

unfoldable pub list_upcoming : ℕ → Moment → List Occurrence → List Occurrence
list_upcoming reminder_id after t =
    order_by (λ a b. ltb a.fire_at b.fire_at)
      (keep_if (λ o. (o.reminder_id == reminder_id) && (is_pending o.status && ltb after o.fire_at))
        t)

unfoldable pub count_for_reminder : ℕ → List Occurrence → ℕ
count_for_reminder reminder_id t = length (keep_if (λ o. o.reminder_id == reminder_id) t)

unfoldable pub set_status : ℕ → OccurrenceStatus → List Occurrence → List Occurrence
set_status i status t = update id_of i (λ o. record o { status = status }) t

unfoldable pub bump_repeats : ℕ → List Occurrence → List Occurrence
bump_repeats i t = update id_of i (λ o. record o { repeats_sent = o.repeats_sent + 1 }) t

-- No delivery of the occurrence is outside the terminal statuses.
unfoldable pub all_deliveries_terminal : ℕ → List Delivery → Bool
all_deliveries_terminal o ds =
    all_of (λ d. not (d.occurrence_id == o) || is_terminal_delivery d.status) ds

unfoldable pub list_expired : Moment → ℕ → List Occurrence → List Occurrence
list_expired now limit t = take limit (
    order_by
      (λ a b. ltb a.expires_at b.expires_at || ((a.expires_at == b.expires_at) && ltb a.id b.id))
      (keep_if (λ o. ltb o.expires_at now && not (is_terminal_occurrence o.status)) t))
