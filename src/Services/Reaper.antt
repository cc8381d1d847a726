-- ===== src/Services/Reaper.antt =====
-- app/services/dispatching.py, the class ReaperService, and the query for repeats of
-- app/db/repositories/deliveries.py. The edit of the expired messages is the gateway's and left out.
-- The sweep reads its rows without a lock; this is the sweep in which no one else commits between its
-- reads and its writes.
pub mod Budget
use remindo.Prelude.{
  ℕ, ◌+◌, ◌-◌, Bool, true, false, ◌&&◌, ◌||◌, not, Option, none, some, List, [], ◌∷◌, ◌++◌, map,
  ltb, leb, ◌==◌, if◌then◌else◌, length, take, keep_if, find_first, elem,
}
use remindo.Time.{Moment, Duration, minutes}
use remindo.Contracts.{DeliveryStatus, OccurrenceStatus, ActionKind, auto_expire}
use remindo.Sweeping.{RepeatPlan, is_overdue, decide_repeat}
use remindo.Db.{Db, User, Reminder, Occurrence, Delivery, DeliveryAction}
use remindo.Db.Table.{get, update, order_by}
use remindo.Db.Deliveries
use remindo.Db.Occurrences
use remindo.Db.Reminders
use remindo.Db.People
use remindo.Services.Reactions.{quiet_hours_of}
use remindo.Services.Dispatching.{SendContext, load_context}

pub record SweepResult : Type 0 where
  pub expired : ℕ
  pub repeated : ℕ
  pub locks_released : ℕ
  pub fsm_states_purged : ℕ

-- The journal's rows for the messages of an occurrence that nobody answered.
unfoldable pub journal_expiry : List Delivery → Moment → List DeliveryAction → List DeliveryAction
journal_expiry [] now t = t
journal_expiry (d ∷ ds) now t =
    journal_expiry ds now (Deliveries.add_action d.id d.user_id auto_expire now none t)

unfoldable pub expire_one : Moment → Occurrence → Db → Db
expire_one now o db = record db {
  actions = journal_expiry (Deliveries.list_sent_for_occurrence o.id db.deliveries) now db.actions;
  occurrences = Occurrences.set_status o.id OccurrenceStatus.expired db.occurrences;
}

unfoldable pub expire_each : Moment → List Occurrence → Db → Db
expire_each now [] db = db
expire_each now (o ∷ os) db = expire_each now os (expire_one now o db)

unfoldable pub expire_overdue : Moment → ℕ → Db → Db × ℕ
expire_overdue now batch db =
    let overdue =
      keep_if (λ o. is_overdue o.status o.expires_at now)
        (Occurrences.list_expired now batch db.occurrences) in
    (expire_each now overdue db, length overdue)

pub record Candidate : Type 0 where
  pub delivery : Delivery
  pub context : SendContext

-- sent_at + repeat_after_minutes <= now; NULL makes it false.
unfoldable pub pause_over : Option Moment → Option ℕ → Moment → Bool
pause_over none n now = false
pause_over (some sent) none now = false
pause_over (some sent) (some n) now = leb (sent + minutes n) now

-- The WHERE of `list_repeat_candidates`, on a row of the join.
unfoldable pub is_candidate : Moment → Candidate → Bool
is_candidate now c =
    Deliveries.is_sent c.delivery.status
    && (not (People.is_set c.delivery.reacted_at)
        && (ltb c.context.occurrence.repeats_sent c.context.reminder.max_repeats
            && (ltb now c.context.occurrence.expires_at
                && pause_over c.delivery.sent_at c.context.reminder.repeat_after_minutes now)))

-- The rows of the join.
unfoldable pub join_rows : Db → List Delivery → List Candidate
join_rows db [] = []
join_rows db (d ∷ ds) =
    let rest = join_rows db ds in
    elim (load_context db d) [ none ↦ rest | some c ↦ record { delivery = d; context = c } ∷ rest ]

-- The candidates have a `sent_at`.
abbrev pub sent_or_start : Option Moment → Moment
sent_or_start none = 0
sent_or_start (some m) = m

unfoldable pub sent_before : Candidate → Candidate → Bool
sent_before a b =
    let s = sent_or_start a.delivery.sent_at in
    let t = sent_or_start b.delivery.sent_at in
    ltb s t || ((s == t) && ltb a.delivery.id b.delivery.id)

unfoldable pub list_repeat_candidates : Moment → ℕ → Db → List Candidate
list_repeat_candidates now limit db =
    take limit (order_by sent_before (keep_if (is_candidate now) (join_rows db db.deliveries)))

-- The answer of the domain. The budget that the source reads once for the sweep is the one of the
-- candidate's row, which was read before any repeat was queued.
unfoldable pub repeat_of : Moment → Candidate → Option RepeatPlan
repeat_of now c =
    decide_repeat c.delivery.sent_at c.context.reminder.repeat_after_minutes
      c.context.occurrence.repeats_sent c.context.reminder.max_repeats
      c.context.occurrence.expires_at (quiet_hours_of c.context.user) now

unfoldable pub requeue : ℕ → Moment → List Delivery → List Delivery
requeue i next t =
    update Deliveries.id_of i
      (λ d. record d {
        status = DeliveryStatus.pending;
        next_attempt_at = next;
        locked_until = none;
      })
      t

-- One repeat queued; `bumped` are the occurrences whose budget this sweep has spent from.
unfoldable pub queue_repeat : Candidate → RepeatPlan → List ℕ → Db → Db
queue_repeat c p bumped db = record db {
  deliveries = requeue c.delivery.id p.next_attempt_at db.deliveries;
  occurrences =
      if elem c.context.occurrence.id bumped
      then db.occurrences
      else Occurrences.bump_repeats c.context.occurrence.id db.occurrences;
}

unfoldable pub bump : ℕ → List ℕ → List ℕ
bump i bumped = if elem i bumped then bumped else i ∷ bumped

-- The loop over the candidates: the database, the occurrences bumped and how many repeats.
unfoldable pub repeat_each : Moment → List Candidate → List ℕ → Db → Db × List ℕ × ℕ
repeat_each now [] bumped db = (db, bumped, 0)
repeat_each now (c ∷ cs) bumped db =
    let i = c.context.occurrence.id in
    let skipped = repeat_each now cs bumped db in
    elim (repeat_of now c) [
      | none ↦ skipped
      | some p ↦
          let (db', bumped', n) = repeat_each now cs (bump i bumped) (queue_repeat c p bumped db) in
          (db', bumped', n + 1)
    ]

unfoldable pub repeat_unanswered : Moment → ℕ → Db → Db × List ℕ × ℕ
repeat_unanswered now batch db = repeat_each now (list_repeat_candidates now batch db) [] db

-- The wizards' states that are older than the TTL.
unfoldable pub purge_fsm_states : Moment → Duration → List Moment → List Moment × ℕ
purge_fsm_states now ttl t =
    (keep_if (λ m. not (ltb m (now - ttl))) t, length (keep_if (λ m. ltb m (now - ttl)) t))

unfoldable pub sweep : Moment → ℕ → Duration → Db → Db × SweepResult
sweep now batch fsm_ttl db =
    let (db1, expired) = expire_overdue now batch db in
    let (db2, bumped, repeated) = repeat_unanswered now batch db1 in
    let (ds, locks) = Deliveries.release_stale_locks now db2.deliveries in
    let (fsm, purged) = purge_fsm_states now fsm_ttl db2.fsm_states in
    (
      record db2 { deliveries = ds; fsm_states = fsm },
      record {
        expired = expired;
        repeated = repeated;
        locks_released = locks;
        fsm_states_purged = purged;
      },
    )
