-- ===== src/Services/Reminders.antt =====
-- app/services/reminders.py, the class RemindersService: pausing and resuming a reminder, and what is
-- taken back from the queue. `Writes` has the creation, the other edits and the deletion.
pub mod Pause
pub mod Writes
pub mod Creation
use remindo.Prelude.{ℕ, ◌-◌, Bool, true, false, List}
use remindo.Contracts.{ReminderStatus, Result, ok, err, ◌>>=◌, permission_denied}
use remindo.Db.{Db, Reminder}
use remindo.Db.Occurrences
use remindo.Db.Reminders
use remindo.Services.Sharing.{owned}

abbrev pub not_archived : ReminderStatus → Reminder → Result Reminder
not_archived ReminderStatus.archived r = err permission_denied
not_archived _ r = ok r

unfoldable pub get_editable : ℕ → ℕ → Db → Result Reminder
get_editable owner_id reminder_id db = do r ← owned owner_id reminder_id db; not_archived r.status r

-- `_drop_queued`. The count is taken off twice: `reset_planning` is an ORM update, which writes the new
-- `fired_count` to the loaded row too, and the assignment after it starts from there.
unfoldable pub drop_queued : Reminder → Db → Db
drop_queued r db =
    let (os, ds, dropped) = Occurrences.delete_unsent r.id db.occurrences db.deliveries in
    record db {
      occurrences = os;
      deliveries = ds;
      reminders = Reminders.reset_planning r.id (r.fired_count - dropped - dropped) db.reminders;
    }

-- Leaving `active` empties the queue.
abbrev pub unless_active : ReminderStatus → Reminder → Db → Db
unless_active ReminderStatus.active r db = db
unless_active _ r db = drop_queued r db

unfoldable pub set_status : ℕ → ℕ → ReminderStatus → Db → Result (Reminder × Db)
set_status owner_id reminder_id status db = do
  r ← get_editable owner_id reminder_id db
  ok (
    r,
    unless_active status r
        (record db { reminders = Reminders.set_status reminder_id status db.reminders }),
  )
