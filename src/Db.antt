-- ===== src/Db.antt =====
-- app/db/models: the rows that the services read and write, and the database as a value. A table is
-- the list of its rows, oldest first. `timezone` columns hold the zone that `ZoneInfo(name)` gives,
-- and `schedule` columns the schedule that `parse_schedule` gives; columns that no service decides
-- by (titles, notes, texts, timestamps of the mixin) are left out.
pub mod Table
pub mod Insert
pub mod Rows
pub mod Deliveries
pub mod Occurrences
pub mod Reminders
pub mod People
pub mod Reports
pub mod Categories
use remindo.Prelude.{Text, ℕ, Bool, Option, List}
use remindo.Time.{Moment, Time}
use remindo.Time.Zone.{Zone}
use remindo.Schedules.{Schedule}
use remindo.Contracts.{ReminderStatus, OccurrenceStatus, DeliveryStatus, RecipientRole, ActionKind}
use remindo.Dispatching.{ErrorCode}

pub record User : Type 0 where
  pub id : ℕ
  pub tg_chat_id : ℕ
  pub timezone : Zone
  pub quiet_start : Option Time
  pub quiet_end : Option Time
  pub is_blocked : Bool
  pub onboarded_at : Option Moment
  pub digest_enabled : Bool
  pub digest_sent_at : Option Moment

pub record Reminder : Type 0 where
  pub id : ℕ
  pub owner_id : ℕ
  pub category_id : ℕ
  pub status : ReminderStatus
  pub schedule : Schedule
  pub timezone : Zone
  pub starts_at : Moment
  pub ends_at : Option Moment
  pub max_occurrences : Option ℕ
  pub fired_count : ℕ
  pub snooze_minutes : ℕ
  pub repeat_after_minutes : Option ℕ
  pub max_repeats : ℕ
  pub planned_until : Option Moment

-- `owner_id` is NULL for the presets of the system.
pub record Category : Type 0 where
  pub id : ℕ
  pub owner_id : Option ℕ
  pub code : Text
  pub title : Text
  pub archived_at : Option Moment

pub record Recipient : Type 0 where
  pub reminder_id : ℕ
  pub user_id : ℕ
  pub role : RecipientRole
  pub accepted_at : Option Moment

pub record Invite : Type 0 where
  pub reminder_id : ℕ
  pub token : Text
  pub created_by : ℕ
  pub expires_at : Moment
  pub revoked_at : Option Moment

pub record Occurrence : Type 0 where
  pub id : ℕ
  pub reminder_id : ℕ
  pub scheduled_for : Moment
  pub fire_at : Moment
  pub status : OccurrenceStatus
  pub repeats_sent : ℕ
  pub expires_at : Moment

pub record Delivery : Type 0 where
  pub id : ℕ
  pub occurrence_id : ℕ
  pub user_id : ℕ
  pub status : DeliveryStatus
  pub attempts : ℕ
  pub next_attempt_at : Moment
  pub locked_until : Option Moment
  pub tg_message_id : Option ℕ
  pub sent_at : Option Moment
  pub reacted_at : Option Moment
  pub snoozed_until : Option Moment
  pub error_code : Option ErrorCode

-- A row of the journal `delivery_actions`; `minutes` is its payload.
pub record DeliveryAction : Type 0 where
  pub delivery_id : ℕ
  pub user_id : ℕ
  pub kind : ActionKind
  pub minutes : Option ℕ
  pub created_at : Moment

-- `next_category`, `next_occurrence` and `next_delivery` are the sequences behind the id columns. Of a wizard's
-- state only its `updated_at` is kept.
pub record Db : Type 0 where
  pub users : List User
  pub reminders : List Reminder
  pub categories : List Category
  pub recipients : List Recipient
  pub invites : List Invite
  pub occurrences : List Occurrence
  pub deliveries : List Delivery
  pub actions : List DeliveryAction
  pub fsm_states : List Moment
  pub next_category : ℕ
  pub next_occurrence : ℕ
  pub next_delivery : ℕ
