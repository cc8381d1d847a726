-- ===== src/Services/Reminders/Writes.antt =====
-- app/services/reminders.py, the class RemindersService: creation, edits and deletion. A reminder's
-- texts are checked and not kept. `ZoneInfo(name)` is a parameter: none is an unknown name. The id of
-- a new row is the database's.
use remindo.Prelude.{
  ℕ, Bool, true, false, not, Option, none, some, [], ◌∷◌, ◌++◌, map, Text, max, ◌==◌, if◌then◌else◌,
  keep_if, elem,
}
use remindo.Time.{Moment}
use remindo.Time.Zone.{Zone}
use remindo.Schedules.{Schedule}
use remindo.Contracts.{
  ReminderStatus, owner, Result, ok, err, ◌>>=◌, validation, schedule_exhausted,
}
use remindo.Wizard.{normalize_reminder_title, normalize_note, first_fire_at, wizard_max_days_ahead}
use remindo.Db.{Db, Reminder}
use remindo.Db.Table.{update, update_where}
use remindo.Db.Reminders
use remindo.Services.Sharing.{owned}
use remindo.Services.Categories.{get_for_user}
use remindo.Services.Reminders.{get_editable, drop_queued}

pub record NewReminder : Type 0 where
  pub owner_id : ℕ
  pub category_id : ℕ
  pub title : Text
  pub schedule : Schedule
  pub timezone : Option Zone
  pub starts_at : Option Moment
  pub ends_at : Option Moment
  pub note : Option Text
  pub max_occurrences : Option ℕ
  pub snooze_minutes : ℕ
  pub repeat_after_minutes : Option ℕ

abbrev pub zone_of : Option Zone → Result Zone
zone_of none = err validation
zone_of (some z) = ok z

abbrev pub moment_or_now : Option Moment → Moment → Moment
moment_or_now none now = now
moment_or_now (some m) now = m

abbrev pub must_fire : Option Moment → Result Moment
must_fire none = err schedule_exhausted
must_fire (some m) = ok m

-- The row, with the defaults of the other columns.
abbrev pub new_reminder : ℕ → NewReminder → Zone → Moment → Reminder
new_reminder i n z begins_at = record {
  id = i;
  owner_id = n.owner_id;
  category_id = n.category_id;
  status = ReminderStatus.active;
  schedule = n.schedule;
  timezone = z;
  starts_at = begins_at;
  ends_at = n.ends_at;
  max_occurrences = n.max_occurrences;
  fired_count = 0;
  snooze_minutes = n.snooze_minutes;
  repeat_after_minutes = n.repeat_after_minutes;
  max_repeats = 2;
  planned_until = none;
}

-- Both rows that `create` adds.
unfoldable pub add_reminder : Reminder → Moment → Db → Db
add_reminder r now db = record db {
  reminders = db.reminders ++ r ∷ [];
  recipients =
      db.recipients
      ++ record { reminder_id = r.id; user_id = r.owner_id; role = owner; accepted_at = some now }
        ∷ [];
}

unfoldable pub create : (ℕ → Bool) → ℕ → NewReminder → Moment → Db → Result (Reminder × Db)
unfolding normalize_reminder_title normalize_note first_fire_at get_for_user add_reminder
create is_space new_id n now db = normalize_reminder_title is_space n.title >>= λ clean_title.
    normalize_note is_space n.note >>= λ clean_note. zone_of n.timezone >>= λ z.
    must_fire (first_fire_at n.schedule z (moment_or_now n.starts_at now) wizard_max_days_ahead)
    >>= λ first. get_for_user n.owner_id n.category_id db >>= λ category. ok (
      new_reminder new_id n z (moment_or_now n.starts_at now),
      add_reminder (new_reminder new_id n z (moment_or_now n.starts_at now)) now db,
    )

unfoldable pub next_fire : Reminder → Moment → Option Moment
unfolding first_fire_at
next_fire r now = first_fire_at r.schedule r.timezone (max r.starts_at now) wizard_max_days_ahead

-- What `update` is asked to change; `clear_note` and the note leave no trace in the row.
pub record Changes : Type 0 where
  pub title : Option Text
  pub note : Option Text
  pub clear_note : Bool
  pub category_id : Option ℕ
  pub schedule : Option Schedule
  pub snooze_minutes : Option ℕ
  pub repeat_after_minutes : Option ℕ
  pub clear_repeat : Bool

abbrev pub checked_title : (ℕ → Bool) → Option Text → Result (Option Text)
unfolding normalize_reminder_title
checked_title is_space none = ok none
checked_title is_space (some raw) = normalize_reminder_title is_space raw >>= λ t. ok (some t)

abbrev pub number_or : Option ℕ → ℕ → ℕ
number_or none old = old
number_or (some n) old = n

abbrev pub repeat_or : Bool → Option ℕ → Option ℕ → Option ℕ
repeat_or true asked old = none
repeat_or false none old = old
repeat_or false (some n) old = some n

-- `_checked_category`
abbrev pub checked_category : ℕ → Option ℕ → ℕ → Db → Result ℕ
unfolding get_for_user
checked_category owner_id none old db = ok old
checked_category owner_id (some c) old db = get_for_user owner_id c db >>= λ category. ok c

abbrev pub set_fields : Changes → ℕ → Reminder → Reminder
set_fields c category_id r = record r {
  category_id = category_id;
  snooze_minutes = number_or c.snooze_minutes r.snooze_minutes;
  repeat_after_minutes = repeat_or c.clear_repeat c.repeat_after_minutes r.repeat_after_minutes;
}

unfoldable pub set_row : ℕ → (Reminder → Reminder) → Db → Db
unfolding update_where
set_row i f db = record db { reminders = update Reminders.id_of i f db.reminders }

-- `_replace_schedule`
unfoldable pub replace_schedule : Option Schedule → Reminder → Moment → Db → Result Db
unfolding first_fire_at drop_queued set_row
replace_schedule none r now db = ok db
replace_schedule (some s) r now db =
    must_fire (first_fire_at s r.timezone (max r.starts_at now) wizard_max_days_ahead) >>= λ first.
    ok (drop_queued r (set_row r.id (λ x. record x { schedule = s }) db))

unfoldable pub update_reminder : (ℕ → Bool) → ℕ → ℕ → Changes → Moment → Db → Result Db
unfolding get_editable normalize_note set_row
update_reminder is_space owner_id reminder_id c now db =
    get_editable owner_id reminder_id db >>= λ r. checked_title is_space c.title >>= λ title.
    (if c.clear_note then ok none else normalize_note is_space c.note) >>= λ note.
    checked_category owner_id c.category_id r.category_id db >>= λ category_id.
    replace_schedule c.schedule r now (set_row r.id (set_fields c category_id) db)

-- DELETE of the reminder's row, and ON DELETE CASCADE of all that refers to it.
unfoldable pub delete_rows : ℕ → Db → Db
delete_rows i db =
    let os = map (λ o. o.id) (keep_if (λ o. o.reminder_id == i) db.occurrences) in
    let ds = map (λ d. d.id) (keep_if (λ d. elem d.occurrence_id os) db.deliveries) in
    record db {
      reminders = keep_if (λ r. not (r.id == i)) db.reminders;
      recipients = keep_if (λ r. not (r.reminder_id == i)) db.recipients;
      invites = keep_if (λ v. not (v.reminder_id == i)) db.invites;
      occurrences = keep_if (λ o. not (o.reminder_id == i)) db.occurrences;
      deliveries = keep_if (λ d. not (elem d.occurrence_id os)) db.deliveries;
      actions = keep_if (λ a. not (elem a.delivery_id ds)) db.actions;
    }

unfoldable pub delete : ℕ → ℕ → Db → Result Db
unfolding owned delete_rows
delete owner_id reminder_id db = owned owner_id reminder_id db >>= λ r. ok (delete_rows r.id db)
