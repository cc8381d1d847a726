-- ===== src/Services/Reactions.antt =====
-- app/services/reactions.py: one tap on a button, under the lock of its delivery.
pub mod Tap
pub mod Once
use remindo.Prelude.{ℕ, Bool, true, false, Option, none, some, List, not, ◌==◌, if◌then◌else◌}
use remindo.Time.{Moment}
use remindo.QuietHours.{QuietHours}
use remindo.Contracts.{
  DeliveryStatus, OccurrenceStatus, ActionKind, done, snooze, skip, auto_expire, Result, ok, err,
  ◌>>=◌, not_found, permission_denied,
}
use remindo.Reactions.{
  RejectReason, Reaction, check_reactable, decide_reaction, roll_up_occurrence, is_terminal,
}
use remindo.Db.{Db, User, Reminder, Occurrence, Delivery}
use remindo.Db.Table.{get, update}
use remindo.Db.Deliveries
use remindo.Db.Occurrences
use remindo.Db.Reminders
use remindo.Db.People

-- app/services/recipients.py
abbrev pub quiet_hours_of : User → QuietHours
quiet_hours_of u = record { tz = u.timezone; start = u.quiet_start; end = u.quiet_end }

pub data Action : Type 0 where
  press_done press_snooze press_skip : Action

abbrev pub action_kind : Action → ActionKind
action_kind press_done = done
action_kind press_snooze = snooze
action_kind press_skip = skip

pub record ReactionResult : Type 0 where
  pub applied : Bool
  pub kind : ActionKind
  pub status : DeliveryStatus
  pub snoozed_until : Option Moment
  pub reason : Option RejectReason

abbrev pub found {ℓ} : {A : Type ℓ} → Option A → Result A
found none = err not_found
found (some a) = ok a

-- A value of the row that the reaction sets, or the one it has.
abbrev pub set_if {ℓ} : {A : Type ℓ} → Option A → Option A → Option A
set_if none old = old
set_if (some m) old = some m

abbrev pub moment_or : Option Moment → Moment → Moment
moment_or none old = old
moment_or (some m) old = m

-- The fields that `_write` updates.
unfoldable pub write_fields : Reaction → Delivery → Delivery
write_fields r d = record d {
  status = r.status;
  next_attempt_at = moment_or r.snoozed_until d.next_attempt_at;
  locked_until = none;
  reacted_at = set_if r.reacted_at d.reacted_at;
  snoozed_until = set_if r.snoozed_until d.snoozed_until;
}

abbrev pub payload : ActionKind → ℕ → Option ℕ
payload snooze snooze_minutes = some snooze_minutes
payload _ snooze_minutes = none

unfoldable pub write : Delivery → Reaction → Moment → ℕ → Db → Db
unfolding write_fields
write delivery r now snooze_minutes db = record db {
  deliveries = update Deliveries.id_of delivery.id (write_fields r) db.deliveries;
  actions =
      Deliveries.add_action delivery.id delivery.user_id r.kind now (payload r.kind snooze_minutes)
        db.actions;
}

abbrev pub set_rolled : ℕ → Option OccurrenceStatus → Db → Db
set_rolled i none db = db
set_rolled i (some status) db = record db {
  occurrences = Occurrences.set_status i status db.occurrences;
}

unfoldable pub close_occurrence : Occurrence → Reaction → Db → Db
close_occurrence o r db =
    if is_terminal r
    then set_rolled o.id
        (roll_up_occurrence r.kind (Occurrences.all_deliveries_terminal o.id db.deliveries)) db
    else db

-- The part after the checks: what an open tap writes.
unfoldable pub apply_tap :
    ActionKind → Delivery → Occurrence → ℕ → Moment → Db → Result (ReactionResult × Db)
apply_tap kind delivery occurrence user_id now db = do
  reminder ← found (get Reminders.id_of occurrence.reminder_id db.reminders)
  user ← found (get People.id_of user_id db.users)
  reaction ←
      decide_reaction kind now reminder.snooze_minutes (quiet_hours_of user) occurrence.expires_at
  ok (
    record {
      applied = true;
      kind = reaction.kind;
      status = reaction.status;
      snoozed_until = reaction.snoozed_until;
      reason = none;
    },
    close_occurrence occurrence reaction (write delivery reaction now reminder.snooze_minutes db),
  )

abbrev pub answer :
    Option RejectReason
    → ActionKind
    → Delivery
    → Occurrence
    → ℕ
    → Moment
    → Db
    → Result (ReactionResult × Db)
answer (some reason) kind delivery occurrence user_id now db = ok (
  record {
    applied = false;
    kind = kind;
    status = delivery.status;
    snoozed_until = none;
    reason = some reason;
  },
  db,
)
answer none kind delivery occurrence user_id now db =
    apply_tap kind delivery occurrence user_id now db

-- The part after the delivery's row is locked: ownership, the occurrence and the answer.
unfoldable pub tap : ActionKind → Delivery → ℕ → Moment → Db → Result (ReactionResult × Db)
tap kind delivery user_id now db =
    if not (delivery.user_id == user_id) then err permission_denied else do
      occurrence ← found (get Occurrences.id_of delivery.occurrence_id db.occurrences)
      answer
          (check_reactable kind delivery.status occurrence.status occurrence.expires_at
            delivery.snoozed_until now)
          kind delivery occurrence user_id now db

unfoldable pub react : ℕ → ℕ → Action → Moment → Db → Result (ReactionResult × Db)
react delivery_id user_id action now db = do
  delivery ← found (get Deliveries.id_of delivery_id db.deliveries)
  tap (action_kind action) delivery user_id now db
