-- ===== src/Contracts.antt =====
-- app/domain/contracts.py and app/domain/errors.py: the status enums, the limits and the exceptions.
use remindo.Prelude.{ℕ, ◌≡◌, refl, ap, Bool, true, false}

pub data ReminderStatus : Type 0 where
  active paused archived : ReminderStatus

pub data OccurrenceStatus : Type 0 where
  pending dispatching sent done skipped expired failed : OccurrenceStatus

pub data DeliveryStatus : Type 0 where
  pending sent done skipped snoozed failed blocked : DeliveryStatus

pub data RecipientRole : Type 0 where
  owner watcher : RecipientRole

pub data ActionKind : Type 0 where
  done snooze skip auto_expire : ActionKind

pub data ErrorClass : Type 0 where
  retry_after forbidden bad_request transient : ErrorClass

pub data JobId : Type 0 where
  planner_materialize dispatcher_deliver reaper_sweep digest_send ops_monitor : JobId

pub data HealthStatus : Type 0 where
  ok stale : HealthStatus

-- s in TERMINAL_DELIVERY_STATUSES
abbrev pub is_terminal_delivery : DeliveryStatus → Bool
is_terminal_delivery DeliveryStatus.done = true
is_terminal_delivery DeliveryStatus.skipped = true
is_terminal_delivery DeliveryStatus.failed = true
is_terminal_delivery DeliveryStatus.blocked = true
is_terminal_delivery _ = false

-- s in TERMINAL_OCCURRENCE_STATUSES
abbrev pub is_terminal_occurrence : OccurrenceStatus → Bool
is_terminal_occurrence OccurrenceStatus.done = true
is_terminal_occurrence OccurrenceStatus.skipped = true
is_terminal_occurrence OccurrenceStatus.expired = true
is_terminal_occurrence OccurrenceStatus.failed = true
is_terminal_occurrence _ = false

abbrev pub invite_token_length : ℕ
invite_token_length = 22

abbrev pub invite_ttl_hours : ℕ
invite_ttl_hours = 72

abbrev pub reminder_watchers_max : ℕ
reminder_watchers_max = 10

abbrev pub deep_link_max_length : ℕ
deep_link_max_length = 64

-- The exceptions of app/domain/errors.py, and Python's ValueError where a function raises it bare.
pub data DomainError : Type 0 where
  validation not_found permission_denied contract_violation schedule_exhausted category_in_use :
      DomainError
  category_exists invite_expired recipient_limit value_error : DomainError

-- What a function gives: the exception that it raises, or its value.
pub data Result {ℓ} (A : Type ℓ) : Type ℓ where
  err : DomainError → Result A
  ok : A → Result A

infixl 5 ◌>>=◌
abbrev pub ◌>>=◌ {ℓ κ} : {A : Type ℓ} {B : Type κ} → Result A → (A → Result B) → Result B
err raised >>= rest = err raised
ok value >>= rest = rest value

pub ok-injective {ℓ} : {A : Type ℓ} {a b : A} → ◌≡◌ {A = Result A} (ok a) (ok b) → a ≡ b
ok-injective {A} {a} h = ap (value a) h
  where
    value : A → Result A → A
    value d (err e) = d
    value d (ok x) = x

-- A chain that ends well went well at its first step.
pub >>=-eq-ok {ℓ κ} :
    {A : Type ℓ} {B : Type κ} {b : B} (first : Result A) (rest : A → Result B)
    → (first >>= rest) ≡ ok b
    → (value : A) × (first ≡ ok value) × (rest value ≡ ok b)
>>=-eq-ok (err raised) rest h = cc
>>=-eq-ok (ok value) rest h = (value, refl, h)
