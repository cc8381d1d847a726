-- ===== src/Services/Dispatching.antt =====
-- app/services/dispatching.py, the class DispatchingService: one dispatcher cycle. What the gateway
-- and the clock answer for each delivery is an argument; the message's text is not modelled.
-- `load_send_context` runs once, after the claim, and its rows are objects of the session, which an ORM
-- update writes to as well: what the cycle itself writes to an occurrence or a user is seen by its later
-- deliveries. So within a cycle that nothing else interrupts the context of a delivery is read here where the
-- delivery is sent; `deliver_in` takes any context, one that is out of date too. The join with
-- `categories` loses no row, since the foreign key restricts deletion.
pub mod Row
pub mod Cycle
pub mod Drain
use remindo.Prelude.{
  ℕ, suc, ◌+◌, Bool, true, false, Option, none, some, List, [], ◌∷◌, String, if◌then◌else◌, length,
}
use remindo.Time.{Moment, Duration}
use remindo.Contracts.{DeliveryStatus, OccurrenceStatus, ErrorClass, Result, ok, err, ◌>>=◌}
use remindo.Dispatching.{
  AbortReason, context_missing, Verdict, check_deliverable, decide_abort, decide_failure,
  decide_success,
}
use remindo.Db.{Db, User, Reminder, Occurrence, Delivery}
use remindo.Db.Table.{get, update}
use remindo.Db.Deliveries
use remindo.Db.Occurrences
use remindo.Db.Reminders
use remindo.Db.People

-- What the gateway answers: the message's id, or an error with its class, the name of its type and
-- the seconds that flood control asks for.
pub data SendReply : Type 0 where
  delivered : (message_id : ℕ) → SendReply
  refused : ErrorClass → String → Option ℕ → SendReply

-- The gateway's answer and the clock's at the time of the verdict.
pub record Sending : Type 0 where
  pub reply : SendReply
  pub at : Moment

pub record SendContext : Type 0 where
  pub occurrence : Occurrence
  pub reminder : Reminder
  pub user : User

abbrev pub join {ℓ κ} : {A : Type ℓ} {B : Type κ} → Option A → (A → Option B) → Option B
join none f = none
join (some a) f = f a

unfoldable pub load_context : Db → Delivery → Option SendContext
load_context db d = join (get Occurrences.id_of d.occurrence_id db.occurrences) λ o.
    join (get Reminders.id_of o.reminder_id db.reminders) λ r.
      join (get People.id_of d.user_id db.users)
        λ u. some (record { occurrence = o; reminder = r; user = u })

-- status in _SENDABLE_OCCURRENCE_STATUSES
abbrev pub is_sendable : OccurrenceStatus → Bool
is_sendable OccurrenceStatus.pending = true
is_sendable OccurrenceStatus.dispatching = true
is_sendable _ = false

abbrev pub moment_or : Option Moment → Moment → Moment
moment_or none old = old
moment_or (some m) old = m

-- `values` of `_apply`, without a message.
unfoldable pub verdict_fields : Verdict → Delivery → Delivery
verdict_fields v d = record d {
  status = v.status;
  attempts = v.attempts;
  error_code = v.error_code;
  locked_until = none;
  next_attempt_at = moment_or v.next_attempt_at d.next_attempt_at;
}

-- `values` of `_apply`, with the message that was sent.
unfoldable pub sent_fields : Verdict → ℕ → Moment → Delivery → Delivery
sent_fields v message_id now d = record d {
  status = v.status;
  attempts = v.attempts;
  error_code = v.error_code;
  locked_until = none;
  next_attempt_at = moment_or v.next_attempt_at d.next_attempt_at;
  sent_at = some now;
  tg_message_id = some message_id;
}

-- `_apply` of a verdict with no message behind it.
unfoldable pub apply_verdict : Delivery → Verdict → Db → Db
apply_verdict d v db = record db {
  deliveries = update Deliveries.id_of d.id (verdict_fields v) db.deliveries;
  users = if v.blocks_user then People.mark_blocked d.user_id true db.users else db.users;
}

-- `_apply` of a success.
unfoldable pub apply_sent : Delivery → Occurrence → ℕ → Moment → Db → Db
apply_sent d o message_id now db = record db {
  deliveries =
      update Deliveries.id_of d.id (sent_fields decide_success message_id now) db.deliveries;
  occurrences =
      if is_sendable o.status
      then Occurrences.set_status o.id OccurrenceStatus.sent db.occurrences
      else db.occurrences;
}

unfoldable pub send : Delivery → Occurrence → SendReply → Moment → Db → Result (DeliveryStatus × Db)
send d o (delivered message_id) now db =
    ok (decide_success.status, apply_sent d o message_id now db)
send d o (refused c code after) now db = do
  v ← decide_failure d.attempts c now code after
  ok (v.status, apply_verdict d v db)

abbrev pub abort : AbortReason → Delivery → Db → Result (DeliveryStatus × Db)
abort reason d db =
    ok
      ((decide_abort reason d.attempts).status, apply_verdict d (decide_abort reason d.attempts) db)

unfoldable pub deliver_checked :
    Option AbortReason → Delivery → SendContext → Sending → Db → Result (DeliveryStatus × Db)
deliver_checked (some reason) d c s db = abort reason d db
deliver_checked none d c s db = send d c.occurrence s.reply s.at db

unfoldable pub deliver_in :
    Delivery → Option SendContext → Sending → Db → Result (DeliveryStatus × Db)
deliver_in d none s db = abort context_missing d db
deliver_in d (some c) s db =
    deliver_checked (check_deliverable c.occurrence.status c.user.is_blocked) d c s db

unfoldable pub deliver_one : Delivery → Sending → Db → Result (DeliveryStatus × Db)
deliver_one d s db = deliver_in d (load_context db d) s db

pub record DispatchResult : Type 0 where
  pub claimed : ℕ
  pub sent : ℕ
  pub retried : ℕ
  pub failed : ℕ
  pub blocked : ℕ

abbrev pub tally : DeliveryStatus → DispatchResult → DispatchResult
tally DeliveryStatus.sent r = record r { sent = r.sent + 1 }
tally DeliveryStatus.pending r = record r { retried = r.retried + 1 }
tally DeliveryStatus.failed r = record r { failed = r.failed + 1 }
tally DeliveryStatus.blocked r = record r { blocked = r.blocked + 1 }
tally _ r = r

-- The loop over the claimed rows.
unfoldable pub deliver_all :
    (ℕ → Sending) → List Delivery → Db → DispatchResult → Result (DispatchResult × Db)
deliver_all sendings [] db r = ok (r, db)
deliver_all sendings (d ∷ ds) db r = do
  (status, db') ← deliver_one d (sendings d.id) db
  deliver_all sendings ds db' (tally status r)

-- `deliver`: `held` are the rows that another worker's claim has locked. The source commits after the claim
-- and after each row; this is the cycle in which no one else commits between.
unfoldable pub deliver :
    Moment → Duration → ℕ → (ℕ → Bool) → (ℕ → Sending) → Db → Result (DispatchResult × Db)
deliver now lock batch held sendings db =
    let (claimed, t) = Deliveries.claim_due now lock batch held db.deliveries in
    deliver_all sendings claimed (record db { deliveries = t })
      (record { claimed = length claimed; sent = 0; retried = 0; failed = 0; blocked = 0 })
