-- ===== src/Bot.antt =====
-- What the bot does around its screens: the rate limit of app/bot/middlewares/throttle.py, and the
-- pages of app/bot/keyboards/pagination.py with the lists of app/db/repositories/reminders.py.
pub mod Throttle
use remindo.Prelude.{
  ℕ, zero, suc, ◌+◌, ◌-◌, ◌*◌, ◌/◌, Bool, true, false, not, ◌&&◌, ◌||◌, Option, none, some, List,
  [], ◌∷◌, max, ltb, ◌==◌, if◌then◌else◌, keep_if, take, length,
}
use remindo.Time.{Moment, Duration}
use remindo.Contracts.{ReminderStatus}
use remindo.Db.{Db, Reminder}
use remindo.Db.Table.{order_by}
use remindo.Db.Categories.{is_archived}

-- self._last_seen
pub record Seen : Type 0 where
  pub user_id : ℕ
  pub at : Moment

unfoldable pub last_seen : ℕ → List Seen → Option Moment
last_seen user_id [] = none
last_seen user_id (s ∷ seen) =
    let rest = last_seen user_id seen in if s.user_id == user_id then some s.at else rest

-- previous is not None and now - previous < min_interval
abbrev pub is_burst : Duration → Moment → Option Moment → Bool
is_burst min_interval now none = false
is_burst min_interval now (some previous) = ltb now (previous + min_interval)

-- Whether the handler is called for an event of a known user, and the table after it. The newest
-- entry of a user stands first.
unfoldable pub throttle : Duration → Moment → ℕ → List Seen → Bool × List Seen
unfolding last_seen
throttle min_interval now user_id seen =
    if is_burst min_interval now (last_seen user_id seen)
    then (false, seen)
    else (true, record { user_id = user_id; at = now } ∷ seen)

unfoldable pub page_count : ℕ → ℕ → ℕ
page_count total page_size = max 1 ((total + page_size - 1) / page_size)

-- OFFSET
unfoldable pub drop : {A : Type 0} → ℕ → List A → List A
drop zero xs = xs
drop (suc n) [] = []
drop (suc n) (x ∷ xs) = drop n xs

abbrev pub in_category : Option ℕ → ℕ → Bool
in_category none c = true
in_category (some wanted) c = c == wanted

abbrev pub is_listed : ℕ → Option ℕ → Reminder → Bool
is_listed owner_id category_id r =
    (r.owner_id == owner_id)
    && (not (is_archived r.status) && in_category category_id r.category_id)

unfoldable pub list_by_owner : ℕ → ℕ → ℕ → Option ℕ → List Reminder → List Reminder
unfolding order_by drop
list_by_owner owner_id limit offset category_id t =
    take limit
      (drop offset (order_by (λ a b. ltb a.id b.id) (keep_if (is_listed owner_id category_id) t)))

unfoldable pub count_by_owner : ℕ → Option ℕ → List Reminder → ℕ
count_by_owner owner_id category_id t = length (keep_if (is_listed owner_id category_id) t)

-- `RemindersService.list_for_owner`
unfoldable pub list_for_owner : ℕ → ℕ → ℕ → Option ℕ → Db → List Reminder × ℕ
unfolding list_by_owner count_by_owner
list_for_owner owner_id page page_size category_id db = (
  list_by_owner owner_id page_size (page * page_size) category_id db.reminders,
  count_by_owner owner_id category_id db.reminders,
)
