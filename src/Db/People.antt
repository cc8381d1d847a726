-- ===== src/Db/People.antt =====
-- app/db/repositories: recipients (reminders.py), invites.py and users.py.
use remindo.Prelude.{
  Text, text_eq, ℕ, Bool, true, false, not, ◌&&◌, ◌||◌, Option, none, some, List, map, ◌==◌, length,
  keep_if, find_first,
}
use remindo.Time.{Moment}
use remindo.Contracts.{RecipientRole, owner, watcher}
use remindo.Db.{User, Recipient, Invite}
use remindo.Db.Table.{update_where, update}

abbrev pub id_of : User → ℕ
id_of u = u.id

unfoldable pub mark_blocked : ℕ → Bool → List User → List User
mark_blocked i blocked t = update id_of i (λ u. record u { is_blocked = blocked }) t

abbrev pub is_watcher : RecipientRole → Bool
is_watcher owner = false
is_watcher watcher = true

abbrev pub is_set : Option Moment → Bool
is_set none = false
is_set (some m) = true

abbrev pub is_recipient : ℕ → ℕ → Recipient → Bool
is_recipient reminder_id user_id r = (r.reminder_id == reminder_id) && (r.user_id == user_id)

-- `RecipientsRepository.get`; the key (reminder_id, user_id) is unique.
unfoldable pub get_recipient : ℕ → ℕ → List Recipient → Option Recipient
get_recipient reminder_id user_id t = find_first (is_recipient reminder_id user_id) t

-- The owner always accepts.
unfoldable pub list_accepted_user_ids : ℕ → List Recipient → List ℕ
list_accepted_user_ids reminder_id t =
    map (λ r. r.user_id)
      (keep_if
        (λ r. (r.reminder_id == reminder_id) && (not (is_watcher r.role) || is_set r.accepted_at))
        t)

unfoldable pub count_watchers : ℕ → List Recipient → ℕ
count_watchers reminder_id t =
    length (keep_if (λ r. (r.reminder_id == reminder_id) && is_watcher r.role) t)

abbrev pub is_pending_watcher : ℕ → ℕ → Recipient → Bool
is_pending_watcher reminder_id user_id r =
    is_recipient reminder_id user_id r && (is_watcher r.role && not (is_set r.accepted_at))

-- `RecipientsRepository.accept`: the table, and how many rows were still pending.
unfoldable pub accept : ℕ → ℕ → Moment → List Recipient → List Recipient × ℕ
accept reminder_id user_id now t = (
  update_where (is_pending_watcher reminder_id user_id) (λ r. record r { accepted_at = some now })
      t,
  length (keep_if (is_pending_watcher reminder_id user_id) t),
)

unfoldable pub remove_watcher : ℕ → ℕ → List Recipient → List Recipient
remove_watcher reminder_id user_id t =
    keep_if (λ r. not (is_recipient reminder_id user_id r && is_watcher r.role)) t

-- The token is unique.
unfoldable pub get_by_token : Text → List Invite → Option Invite
get_by_token token t = find_first (λ i. text_eq i.token token) t

abbrev pub is_live_row : ℕ → Invite → Bool
is_live_row reminder_id i = (i.reminder_id == reminder_id) && not (is_set i.revoked_at)

unfoldable pub get_live : ℕ → List Invite → Option Invite
get_live reminder_id t = find_first (is_live_row reminder_id) t

-- The table, and how many invitations were taken back.
unfoldable pub revoke_live : ℕ → Moment → List Invite → List Invite × ℕ
revoke_live reminder_id now t = (
  update_where (is_live_row reminder_id) (λ i. record i { revoked_at = some now }) t,
  length (keep_if (is_live_row reminder_id) t),
)
