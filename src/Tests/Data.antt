-- ===== src/Tests/Data.antt =====
-- A small database: Alice shares a daily reminder with Bob.
use remindo.Prelude.{Text, ℕ, ◌+◌, ◌*◌, arith, refl, true, false, none, some, List, [], ◌∷◌}
use remindo.Time.{Moment, day, hour}
use remindo.Time.Zone.{Zone, IsZone, IsWholeSeconds, fixed_zone, fixed_zone-IsZone}
use remindo.Recurrence.Days.{Fits}
use remindo.Contracts.{ReminderStatus, OccurrenceStatus, DeliveryStatus, owner, watcher}
use remindo.Schedules.{Schedule, daily}
use remindo.QuietHours.{QuietHours}
use remindo.Db.{Db, Category, User, Reminder, Recipient, Invite, Occurrence, Delivery}

-- 2023-12-31, midnight
abbrev pub midnight : Moment
midnight = 738884 * day

abbrev pub utc : Zone
utc = fixed_zone day

-- 22:00 to 07:00
abbrev pub night : QuietHours
night = record { tz = utc; start = some (22 * hour); end = some (7 * hour) }

abbrev pub no_silence : QuietHours
no_silence = record { tz = utc; start = none; end = none }

abbrev pub mornings : Schedule
mornings = daily (9 * hour ∷ []) 1

abbrev pub alice : User
alice = record {
  id = 1;
  tg_chat_id = 11;
  timezone = utc;
  quiet_start = none;
  quiet_end = none;
  is_blocked = false;
  onboarded_at = some midnight;
  digest_enabled = true;
  digest_sent_at = none;
}

abbrev pub bob : User
bob = record {
  id = 2;
  tg_chat_id = 12;
  timezone = utc;
  quiet_start = none;
  quiet_end = none;
  is_blocked = false;
  onboarded_at = some midnight;
  digest_enabled = true;
  digest_sent_at = none;
}

abbrev pub health : Category
health = record {
  id = 3;
  owner_id = some 1;
  code = 104 ∷ 49 ∷ [];
  title = 72 ∷ [];
  archived_at = none;
}

abbrev pub pills : Reminder
pills = record {
  id = 7;
  owner_id = 1;
  category_id = 3;
  status = ReminderStatus.active;
  schedule = mornings;
  timezone = utc;
  starts_at = midnight;
  ends_at = none;
  max_occurrences = none;
  fired_count = 0;
  snooze_minutes = 10;
  repeat_after_minutes = some 30;
  max_repeats = 2;
  planned_until = none;
}

abbrev pub alice_owns : Recipient
alice_owns = record { reminder_id = 7; user_id = 1; role = owner; accepted_at = some midnight }

abbrev pub bob_watches : Recipient
bob_watches = record { reminder_id = 7; user_id = 2; role = watcher; accepted_at = some midnight }

abbrev pub morning : Occurrence
morning = record {
  id = 20;
  reminder_id = 7;
  scheduled_for = midnight + 9 * hour;
  fire_at = midnight + 9 * hour;
  status = OccurrenceStatus.pending;
  repeats_sent = 0;
  expires_at = midnight + 33 * hour;
}

abbrev pub queued : Delivery
queued = record {
  id = 30;
  occurrence_id = 20;
  user_id = 1;
  status = DeliveryStatus.pending;
  attempts = 0;
  next_attempt_at = midnight + 9 * hour;
  locked_until = none;
  tg_message_id = none;
  sent_at = none;
  reacted_at = none;
  snoozed_until = none;
  error_code = none;
}

abbrev pub token : Text
token =
    65 ∷ 66 ∷ 67 ∷ 68 ∷ 69 ∷ 70 ∷ 71 ∷ 72 ∷ 73 ∷ 74 ∷ 75 ∷ 76 ∷ 77 ∷ 78 ∷ 79 ∷ 80 ∷ 81 ∷ 82 ∷ 83
    ∷ 84 ∷ 85 ∷ 86 ∷ []

abbrev pub link : Invite
link = record {
  reminder_id = 7;
  token = token;
  created_by = 1;
  expires_at = midnight + 72 * hour;
  revoked_at = none;
}

abbrev pub house : Db
house = record {
  users = alice ∷ bob ∷ [];
  reminders = pills ∷ [];
  categories = health ∷ [];
  recipients = alice_owns ∷ bob_watches ∷ [];
  invites = link ∷ [];
  occurrences = morning ∷ [];
  deliveries = queued ∷ [];
  actions = [];
  fsm_states = [];
  next_category = 4;
  next_occurrence = 21;
  next_delivery = 31;
}

abbrev pub sixteen : List ℕ
sixteen = 0 ∷ 1 ∷ 2 ∷ 3 ∷ 4 ∷ 5 ∷ 6 ∷ 7 ∷ 8 ∷ 9 ∷ 10 ∷ 11 ∷ 12 ∷ 13 ∷ 14 ∷ 255 ∷ []

pub utc_laws : IsZone utc
utc_laws = fixed_zone-IsZone day (omega arith) (omega arith)

pub utc_seconds : IsWholeSeconds utc
utc_seconds = record { multiple = λ f n. (86400, refl) }

pub mornings_fit : Fits 0 mornings
unfolding Fits
mornings_fit = refl
