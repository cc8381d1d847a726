-- ===== src/Services/Sharing.antt =====
-- app/services/sharing.py, the class SharingService: what changes invitations, recipients and the
-- deliveries that a new recipient gets. The entropy of a token is an argument.
pub mod Invites
pub mod Joining
use remindo.Prelude.{
  Text, ℕ, ◌+◌, ◌*◌, Bool, true, false, ◌&&◌, not, Option, none, some, List, [], ◌∷◌, ◌++◌, map,
  ltb, ◌==◌, if◌then◌else◌, length, keep_if,
}
use remindo.Time.{Moment, Duration, hour}
use remindo.Contracts.{
  RecipientRole, owner, watcher, Result, ok, err, ◌>>=◌, not_found, permission_denied,
  invite_expired, invite_ttl_hours, reminder_watchers_max,
}
use remindo.Sharing.{
  InviteState, live, expired, revoked, new_invite_token, invite_state, check_join,
}
use remindo.Db.{Db, User, Reminder, Recipient, Invite, Occurrence}
use remindo.Db.Table.{get}
use remindo.Db.Occurrences
use remindo.Db.Deliveries
use remindo.Db.Deliveries.{NewDelivery}
use remindo.Db.Reminders
use remindo.Db.People
use remindo.Services.Planning.{delivery_row}
use remindo.Services.Reactions.{found}

abbrev pub owned_by : ℕ → Reminder → Result Reminder
owned_by owner_id r = if r.owner_id == owner_id then ok r else err permission_denied

-- `_owned`
unfoldable pub owned : ℕ → ℕ → Db → Result Reminder
owned owner_id reminder_id db = do
  r ← found (get Reminders.id_of reminder_id db.reminders)
  owned_by owner_id r

-- The invitation if it is live.
unfoldable pub if_live : Moment → Option Invite → Option Invite
if_live now none = none
if_live now (some i) = elim (invite_state i.expires_at i.revoked_at now) [
  | live ↦ some i
  | _ ↦ none
]

unfoldable pub live_invite : ℕ → ℕ → Moment → Db → Result (Option Invite)
live_invite owner_id reminder_id now db = do
  r ← owned owner_id reminder_id db
  ok (if_live now (People.get_live reminder_id db.invites))

abbrev pub new_invite : ℕ → Text → ℕ → Moment → Invite
new_invite reminder_id token created_by now = record {
  reminder_id = reminder_id;
  token = token;
  created_by = created_by;
  expires_at = now + invite_ttl_hours * hour;
  revoked_at = none;
}

unfoldable pub issue_invite : ℕ → ℕ → List ℕ → Moment → Db → Result (Invite × Db)
issue_invite owner_id reminder_id entropy now db = do
  r ← owned owner_id reminder_id db
  token ← new_invite_token entropy
  let invite = new_invite reminder_id token owner_id now in
      ok (
        invite,
        record db { invites = (People.revoke_live reminder_id now db.invites).0 ++ invite ∷ [] },
      )

unfoldable pub revoke_invite : ℕ → ℕ → Moment → Db → Result (Bool × Db)
revoke_invite owner_id reminder_id now db = do
  r ← owned owner_id reminder_id db
  let (t, n) = People.revoke_live reminder_id now db.invites in
      ok (ltb 0 n, record db { invites = t })

-- The guard of `open_invite`.
abbrev pub live_or_raise : InviteState → Result (Unit {0})
live_or_raise live = ok tt
live_or_raise _ = err invite_expired

abbrev pub role_of : Option Recipient → Option RecipientRole
role_of none = none
role_of (some r) = some r.role

-- The pending row, where there is none yet.
unfoldable pub add_pending : ℕ → ℕ → Option Recipient → List Recipient → List Recipient
add_pending reminder_id user_id (some r) t = t
add_pending reminder_id user_id none t =
    t
    ++ record { reminder_id = reminder_id; user_id = user_id; role = watcher; accepted_at = none }
      ∷ []

-- `open_invite` up to its commit.
unfoldable pub admit : Text → ℕ → Moment → Db → Result (Reminder × Db)
admit token user_id now db = do
  i ← found (People.get_by_token token db.invites)
  valid ← live_or_raise (invite_state i.expires_at i.revoked_at now)
  r ← found (get Reminders.id_of i.reminder_id db.reminders)
  let existing = People.get_recipient r.id user_id db.recipients in
      do
        joins ←
            check_join (role_of existing) (People.count_watchers r.id db.recipients)
              reminder_watchers_max
        ok (r, record db { recipients = add_pending r.id user_id existing db.recipients })

abbrev pub with_owner : Reminder → Db → Result (Reminder × User)
with_owner r db = do u ← found (get People.id_of r.owner_id db.users); ok (r, u)

abbrev pub opened : Result (Reminder × Db) → Db → Result (Reminder × User) × Db
opened (err e) db = (err e, db)
opened (ok (r, db')) db = (with_owner r db', db')

unfoldable pub open_invite : Text → ℕ → Moment → Db → Result (Reminder × User) × Db
open_invite token user_id now db = opened (admit token user_id now db) db

abbrev pub watching : Recipient → Result Recipient
watching r = if People.is_watcher r.role then ok r else err not_found

-- `_participation`
unfoldable pub participation : ℕ → ℕ → Db → Result (Reminder × Recipient)
participation user_id reminder_id db = do
  p ← found (People.get_recipient reminder_id user_id db.recipients)
  p' ← watching p
  r ← found (get Reminders.id_of reminder_id db.reminders)
  ok (r, p')

-- `_backfill_deliveries`
unfoldable pub backfill_deliveries : ℕ → ℕ → Moment → Db → Db × ℕ
backfill_deliveries reminder_id user_id now db =
    let rows =
      map (λ o. delivery_row o user_id)
        (Occurrences.list_upcoming reminder_id now db.occurrences) in
    let (t, n) = Deliveries.insert_missing rows db.next_delivery db.deliveries in
    (record db { deliveries = t; next_delivery = db.next_delivery + length rows }, n)

-- What `accept` writes, and how many deliveries it queues.
unfoldable pub join_now : ℕ → ℕ → Moment → Db → Db × ℕ
join_now reminder_id user_id now db =
    let (t, accepted) = People.accept reminder_id user_id now db.recipients in
    let joined = record db { recipients = t } in
    if ltb 0 accepted then backfill_deliveries reminder_id user_id now joined else (joined, 0)

unfoldable pub accept : ℕ → ℕ → Moment → Db → Result (Reminder × Db)
accept user_id reminder_id now db = do
  (r, p) ← participation user_id reminder_id db
  ok (r, (join_now reminder_id user_id now db).0)

unfoldable pub decline : ℕ → ℕ → Db → Db
decline user_id reminder_id db = record db {
  recipients = People.remove_watcher reminder_id user_id db.recipients;
}

-- The ids of the occurrences of a reminder.
abbrev pub occurrence_ids : ℕ → Db → List ℕ
occurrence_ids reminder_id db =
    map Occurrences.id_of (keep_if (λ o. o.reminder_id == reminder_id) db.occurrences)

unfoldable pub leave : ℕ → ℕ → Db → Db
leave user_id reminder_id db = record db {
  deliveries =
      (Deliveries.delete_pending_for_recipient (occurrence_ids reminder_id db) user_id
        db.deliveries).0;
  recipients = People.remove_watcher reminder_id user_id db.recipients;
}
