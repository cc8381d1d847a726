-- ===== src/Db/Deliveries.antt =====
-- app/db/repositories/deliveries.py: the delivery queue.
pub mod Claim
use remindo.Prelude.{
  ℕ, suc, ◌+◌, Bool, true, false, not, ◌&&◌, ◌||◌, Option, none, some, List, [], ◌∷◌, ◌++◌, map,
  ltb, leb, ◌==◌, if◌then◌else◌, length, take, keep_if, elem,
}
use remindo.Time.{Moment, Duration, minutes}
use remindo.Contracts.{DeliveryStatus, ActionKind, is_terminal_delivery}
use remindo.Db.{Db, User, Reminder, Occurrence, Delivery, DeliveryAction}
use remindo.Db.Insert.{insert_rows}
use remindo.Db.Table.{update_where, order_by, get, update}

abbrev pub id_of : Delivery → ℕ
id_of d = d.id

abbrev pub ids : List Delivery → List ℕ
ids t = map id_of t

-- status IN ('pending', 'snoozed')
abbrev pub is_queued : DeliveryStatus → Bool
is_queued DeliveryStatus.pending = true
is_queued DeliveryStatus.snoozed = true
is_queued _ = false

abbrev pub is_sent : DeliveryStatus → Bool
is_sent DeliveryStatus.sent = true
is_sent _ = false

abbrev pub is_pending : DeliveryStatus → Bool
is_pending DeliveryStatus.pending = true
is_pending _ = false

-- m IS NULL OR m < now
abbrev pub lease_free : Moment → Option Moment → Bool
lease_free now none = true
lease_free now (some until) = ltb until now

-- m IS NOT NULL AND m < now
abbrev pub lease_stale : Moment → Option Moment → Bool
lease_stale now none = false
lease_stale now (some until) = ltb until now

-- The row that a planner or an accepted invitation writes, with the defaults of the columns.
pub record NewDelivery : Type 0 where
  pub occurrence_id : ℕ
  pub user_id : ℕ
  pub next_attempt_at : Moment

unfoldable pub new_row : ℕ → NewDelivery → Delivery
new_row i n = record {
  id = i;
  occurrence_id = n.occurrence_id;
  user_id = n.user_id;
  status = DeliveryStatus.pending;
  attempts = 0;
  next_attempt_at = n.next_attempt_at;
  locked_until = none;
  tg_message_id = none;
  sent_at = none;
  reacted_at = none;
  snoozed_until = none;
  error_code = none;
}

-- The unique key (occurrence_id, user_id).
unfoldable pub conflicts : NewDelivery → Delivery → Bool
conflicts n d = (d.occurrence_id == n.occurrence_id) && (d.user_id == n.user_id)

-- `insert_missing`, with the sequence of ids behind it: every row that is tried uses one up.
abbrev pub insert_missing : List NewDelivery → ℕ → List Delivery → List Delivery × ℕ
insert_missing = insert_rows conflicts new_row

-- The rows that a claim may take. `held` are those that another transaction has locked, which
-- SKIP LOCKED passes over.
unfoldable pub is_due : Moment → (ℕ → Bool) → Delivery → Bool
is_due now held d =
    is_queued d.status
    && (leb d.next_attempt_at now && (lease_free now d.locked_until && not (held d.id)))

-- ORDER BY next_attempt_at, id
unfoldable pub queue_before : Delivery → Delivery → Bool
queue_before a b =
    ltb a.next_attempt_at b.next_attempt_at
    || ((a.next_attempt_at == b.next_attempt_at) && ltb a.id b.id)

abbrev pub lease : Moment → Duration → Delivery → Delivery
lease now lock_for d = record d { locked_until = some (now + lock_for); attempts = d.attempts + 1 }

-- The ids that the subquery `due` selects.
unfoldable pub due_ids : Moment → ℕ → (ℕ → Bool) → List Delivery → List ℕ
due_ids now batch held t = ids (take batch (order_by queue_before (keep_if (is_due now held) t)))

-- The claimed rows, as they are after the update and in queue order, and the table.
unfoldable pub claim_due :
    Moment → Duration → ℕ → (ℕ → Bool) → List Delivery → List Delivery × List Delivery
claim_due now lock_for batch held t =
    let due = due_ids now batch held t in
    let t' = update_where (λ d. elem d.id due) (lease now lock_for) t in
    (order_by queue_before (keep_if (λ d. elem d.id due) t'), t')

unfoldable pub list_sent_for_occurrence : ℕ → List Delivery → List Delivery
list_sent_for_occurrence o t = keep_if (λ d. (d.occurrence_id == o) && is_sent d.status) t

-- The locks dropped, and how many.
unfoldable pub is_stale_lock : Moment → Delivery → Bool
is_stale_lock now d = lease_stale now d.locked_until && is_queued d.status

unfoldable pub release_stale_locks : Moment → List Delivery → List Delivery × ℕ
release_stale_locks now t = (
  update_where (is_stale_lock now) (λ d. record d { locked_until = none }) t,
  length (keep_if (is_stale_lock now) t),
)

abbrev pub unsent_of : ℕ → List ℕ → Delivery → Bool
unsent_of user_id occurrence_ids d =
    (d.user_id == user_id) && (is_pending d.status && elem d.occurrence_id occurrence_ids)

-- The rows that stay, and how many went.
unfoldable pub delete_pending_for_recipient : List ℕ → ℕ → List Delivery → List Delivery × ℕ
delete_pending_for_recipient occurrence_ids user_id t = (
  keep_if (λ d. not (unsent_of user_id occurrence_ids d)) t,
  length (keep_if (unsent_of user_id occurrence_ids) t),
)

unfoldable pub add_action :
    ℕ → ℕ → ActionKind → Moment → Option ℕ → List DeliveryAction → List DeliveryAction
add_action delivery_id user_id kind created_at payload t =
    t
    ++ record {
      delivery_id = delivery_id;
      user_id = user_id;
      kind = kind;
      minutes = payload;
      created_at = created_at;
    }
      ∷ []
