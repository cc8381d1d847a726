-- ===== src/System.antt =====
-- The jobs of app/worker and the buttons, links and edits of the bot as one system: an event is a call of
-- one service or one of the transactions that a job commits on its own, a run is a sequence of them.
-- Calls that overlap in time commit in some order, and a run is that order. A cycle of the dispatcher
-- that nothing interrupts is one event; one that others interrupt is a claim and, later, attempts on rows and
-- contexts that were read before, whatever these say. A sweep and a digest are split the same way: what
-- they write for rows that they read earlier, without a lock, is an event on those rows.
pub mod Frame
pub mod Loops
pub mod Jobs
pub mod Edits
pub mod Calls
pub mod Consistent
pub mod Answered
use remindo.Prelude.{Text, ℕ, Bool, true, false, not, ◌&&◌, Option, List, [], ◌∷◌, ◌++◌, map, elem}
use remindo.Time.{Moment, Duration}
use remindo.Contracts.{ReminderStatus, Result, ok, err}
use remindo.Db.{Db, User, Occurrence, Delivery}
use remindo.Db.Deliveries
use remindo.Sweeping.{RepeatPlan}
use remindo.Services.Reactions.{Action, react}
use remindo.Services.Dispatching.{Sending, SendContext, deliver_in, deliver}
use remindo.Services.Planning.{materialize}
use remindo.Services.Reaper.{Candidate, expire_each, list_repeat_candidates, queue_repeat, sweep}
use remindo.Services.Sharing.{issue_invite, revoke_invite, open_invite, accept, decline, leave}
use remindo.Services.Reminders.{set_status}
use remindo.Services.Reminders.Writes.{NewReminder, Changes, create, update_reminder, delete}
use remindo.Services.Digest

pub data Event : Type 0 where
  -- app/worker: planner.run_once, dispatcher.run_once, reaper.run_once and digest.run_once
  planner_cycle : (horizon ttl : Duration) (batch : ℕ) (now : Moment) → Event
  dispatcher_cycle :
      (now : Moment) (lock : Duration) (batch : ℕ) (held : ℕ → Bool) (sendings : ℕ → Sending)
      → Event
  -- the commits of a dispatcher cycle: its claim, and one for each row of the batch
  claim : (now : Moment) (lock : Duration) (batch : ℕ) (held : ℕ → Bool) → Event
  attempt : Delivery → Option SendContext → Sending → Event
  reaper_cycle : (now : Moment) (batch : ℕ) (fsm_ttl : Duration) → Event
  -- the writes of a sweep for rows that it read before
  late_expiry : (now : Moment) → List Occurrence → Event
  read_repeats : (now : Moment) (batch : ℕ) → Event
  late_repeat : Candidate → RepeatPlan → (bumped : List ℕ) → Event
  digest_cycle : (now : Moment) (weekday hour batch : ℕ) (send_to : Digest.Send) → Event
  -- the commit of a digest cycle for one user, as it was read
  digest_user : (now : Moment) (weekday hour : ℕ) (send_to : Digest.Send) → User → Event
  -- the handlers of app/bot
  tap : (delivery_id user_id : ℕ) → Action → Moment → Event
  issue : (owner_id reminder_id : ℕ) (entropy : List ℕ) (now : Moment) → Event
  revoke : (owner_id reminder_id : ℕ) (now : Moment) → Event
  open_link : (token : Text) (user_id : ℕ) (now : Moment) → Event
  join : (user_id reminder_id : ℕ) (now : Moment) → Event
  refuse : (user_id reminder_id : ℕ) → Event
  quit : (user_id reminder_id : ℕ) → Event
  switch : (owner_id reminder_id : ℕ) → ReminderStatus → Event
  add : (is_space : ℕ → Bool) (new_id : ℕ) → NewReminder → Moment → Event
  edit : (is_space : ℕ → Bool) (owner_id reminder_id : ℕ) → Changes → Moment → Event
  remove : (owner_id reminder_id : ℕ) → Event

-- The event writes to a delivery that it read before, whatever its status is by then.
abbrev pub is_late : (ℕ → Bool) → Event → Bool
is_late on (attempt d c s) = on d.id
is_late on (late_repeat c p bumped) = on c.delivery.id
is_late on _ = false

-- The database after a call: a call that raises leaves it.
abbrev pub after {ℓ} : {A : Type ℓ} → Result (A × Db) → Db → Db
after (err e) db = db
after (ok (a, db')) db = db'

abbrev pub after_edit : Result Db → Db → Db
after_edit (err e) db = db
after_edit (ok db') db = db'

unfoldable pub step : Event → Db → Db
step (planner_cycle horizon ttl batch now) db = (materialize horizon ttl batch now db).0
step (dispatcher_cycle now lock batch held sendings) db =
    after (deliver now lock batch held sendings db) db
step (claim now lock batch held) db = record db {
  deliveries = (Deliveries.claim_due now lock batch held db.deliveries).1;
}
step (attempt d c s) db = after (deliver_in d c s db) db
step (late_expiry now os) db = expire_each now os db
step (read_repeats now batch) db = db
step (late_repeat c p bumped) db = queue_repeat c p bumped db
step (digest_user now weekday hour send_to u) db = (Digest.one now weekday hour send_to u db).1
step (reaper_cycle now batch fsm_ttl) db = (sweep now batch fsm_ttl db).0
step (tap delivery_id user_id action now) db = after (react delivery_id user_id action now db) db
step (issue owner_id reminder_id entropy now) db =
    after (issue_invite owner_id reminder_id entropy now db) db
step (revoke owner_id reminder_id now) db = after (revoke_invite owner_id reminder_id now db) db
step (open_link token user_id now) db = (open_invite token user_id now db).1
step (join user_id reminder_id now) db = after (accept user_id reminder_id now db) db
step (refuse user_id reminder_id) db = decline user_id reminder_id db
step (quit user_id reminder_id) db = leave user_id reminder_id db
step (switch owner_id reminder_id status) db = after (set_status owner_id reminder_id status db) db
step (digest_cycle now weekday hour batch send_to) db =
    (Digest.run now weekday hour batch send_to db).1
step (add is_space new_id n now) db = after (create is_space new_id n now db) db
step (edit is_space owner_id reminder_id c now) db =
    after_edit (update_reminder is_space owner_id reminder_id c now db) db
step (remove owner_id reminder_id) db = after_edit (delete owner_id reminder_id db) db

unfoldable pub run : List Event → Db → Db
run [] db = db
run (e ∷ es) db = run es (step e db)

-- The deliveries that the event reads, or takes, for a later write.
unfoldable pub begun : Event → Db → List ℕ
begun (claim now lock batch held) db =
    Deliveries.ids (Deliveries.claim_due now lock batch held db.deliveries).0
begun (read_repeats now batch) db = map (λ c. c.delivery.id) (list_repeat_candidates now batch db)
begun _ db = []

-- Late writes go to deliveries whose attempt or repeat is under way: since the start, or since an earlier
-- claim or reading of the run.
unfoldable pub follows : List ℕ → List Event → Db → Bool
follows under_way [] db = true
follows under_way (e ∷ es) db =
    not (is_late (λ j. not (elem j under_way)) e)
    && follows (begun e db ++ under_way) es (step e db)
