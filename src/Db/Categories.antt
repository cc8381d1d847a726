-- ===== src/Db/Categories.antt =====
-- app/db/repositories/categories.py. Presets of the system have no owner.
use remindo.Prelude.{
  ℕ, Bool, true, false, not, ◌&&◌, Option, none, some, List, map, ◌==◌, keep_if, length, Text,
}
use remindo.Time.{Moment}
use remindo.Contracts.{ReminderStatus}
use remindo.Db.{Category, Reminder}
use remindo.Db.Table.{get}

abbrev pub id_of : Category → ℕ
id_of c = c.id

-- owner_id = user_id, which NULL never is
abbrev pub owned_by : ℕ → Option ℕ → Bool
owned_by user_id none = false
owned_by user_id (some o) = o == user_id

abbrev pub is_open : Option Moment → Bool
is_open none = true
is_open (some m) = false

unfoldable pub get_by_id : ℕ → List Category → Option Category
unfolding get
get_by_id i t = get id_of i t

-- `list_owned`, active only, as its callers ask
unfoldable pub list_owned : ℕ → List Category → List Category
list_owned user_id t = keep_if (λ c. owned_by user_id c.owner_id && is_open c.archived_at) t

-- Also of archived categories.
unfoldable pub list_codes : ℕ → List Category → List Text
list_codes user_id t = map (λ c. c.code) (keep_if (λ c. owned_by user_id c.owner_id) t)

abbrev pub is_archived : ReminderStatus → Bool
is_archived ReminderStatus.archived = true
is_archived _ = false

unfoldable pub count_active_reminders : ℕ → List Reminder → ℕ
count_active_reminders category_id t =
    length (keep_if (λ r. (r.category_id == category_id) && not (is_archived r.status)) t)
