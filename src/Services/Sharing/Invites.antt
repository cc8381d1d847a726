-- ===== src/Services/Sharing/Invites.antt =====
-- Who can still come in: one live link per reminder, and a bounded number of watchers.
use remindo.Prelude.{
  Text, ℕ, ◌+◌, ◌≤◌, ◌≡◌, refl, Bool, true, false, ◌&&◌, Option, none, some, List, [], ◌∷◌, ◌++◌,
  arith, ◌==◌, if◌then◌else◌, length, keep_if, Bool-cases, ==_iff, inl, inr, ltb, ap, subst,
}
use remindo.Time.{Moment}
use remindo.Contracts.{watcher, Result, ok, err, >>=-eq-ok, ok-injective, reminder_watchers_max}
use remindo.Sharing.{rstrip, b64encode, invite_state, check_join}
use remindo.Sharing.Links.{are_bytes, new_invite_token_total}
use remindo.Db.{Db, Reminder, Recipient, Invite}
use remindo.Db.Table.{get, update_where}
use remindo.Db.Reminders
use remindo.Db.People
use remindo.Services.Reactions.{found}
use remindo.Services.Sharing.{
  owned, new_invite, issue_invite, revoke_invite, add_pending, role_of, admit, opened, open_invite,
  live_or_raise,
}

-- The links of a reminder that were not taken back.
abbrev pub live_count : ℕ → List Invite → ℕ
live_count reminder_id t = length (keep_if (People.is_live_row reminder_id) t)

revoke-none_left :
    (reminder_id : ℕ) (now : Moment) (t : List Invite)
    → live_count reminder_id (People.revoke_live reminder_id now t).0 ≡ 0
unfolding People.revoke_live update_where
revoke-none_left reminder_id now [] = refl
revoke-none_left reminder_id now (i ∷ t) = ground (arith, revoke-none_left reminder_id now t)

revoke-others :
    (reminder_id j : ℕ) (now : Moment) (t : List Invite)
    → (reminder_id == j) ≡ false
    → live_count j (People.revoke_live reminder_id now t).0 ≡ live_count j t
unfolding People.revoke_live update_where
revoke-others reminder_id j now [] h = refl
revoke-others reminder_id j now (i ∷ t) h = ground (arith, revoke-others reminder_id j now t)

revoke-nothing :
    (reminder_id : ℕ) (now : Moment) (t : List Invite)
    → live_count reminder_id t ≡ 0
    → People.revoke_live reminder_id now t ≡ (t, 0)
unfolding People.revoke_live update_where
revoke-nothing reminder_id now [] h = refl
revoke-nothing reminder_id now (i ∷ t) h = elim (Bool-cases (People.is_live_row reminder_id i)) [
  | inl e ↦ ground arith
  | inr e ↦
      rw e (
        let rest = revoke-nothing reminder_id now t (ground arith) in ap (λ p. (i ∷ p.0, p.1)) rest)
]

keep_if-append :
    {A : Type 0} (p : A → Bool) (s t : List A)
    → length (keep_if p (s ++ t)) ≡ length (keep_if p s) + length (keep_if p t)
keep_if-append p [] t = ground arith
keep_if-append p (a ∷ s) t = ground (arith, keep_if-append p s t)

revoked_count :
    (reminder_id j : ℕ) (now : Moment) (t : List Invite)
    → live_count j (People.revoke_live reminder_id now t).0
      ≡ (if reminder_id == j then 0 else live_count j t)
revoked_count reminder_id j now t = elim (Bool-cases (reminder_id == j)) [
  | inl e ↦
      let same : reminder_id ≡ j = (==_iff reminder_id j).0 e in
      rw e (
        subst (λ k. live_count k (People.revoke_live reminder_id now t).0 ≡ 0) same
          (revoke-none_left reminder_id now t))
  | inr e ↦ rw e (revoke-others reminder_id j now t e)
]

-- When the owner of a reminder asks for a link and the system gives sixteen bytes, there is a new
-- one; it is then the only link of the reminder that was not taken back, and the other reminders
-- have as many links as they had.
pub issue_invite_live :
    (owner_id reminder_id : ℕ) (entropy : List ℕ) (now : Moment) (db : Db) (j : ℕ) {r : Reminder}
    → owned owner_id reminder_id db ≡ ok r
    → length entropy ≡ 16
    → are_bytes entropy ≡ true
    → (invite : Invite) × (db' : Db) × (issue_invite owner_id reminder_id entropy now db
        ≡ ok (invite, db'))
      × (live_count j db'.invites ≡ (if reminder_id == j then 1 else live_count j db.invites))
unfolding issue_invite
issue_invite_live owner_id reminder_id entropy now db j mine n bytes =
    let token = rstrip (b64encode entropy) in
    let invite = new_invite reminder_id token owner_id now in
    let rows = (People.revoke_live reminder_id now db.invites).0 in
    (
      invite,
      record db { invites = rows ++ invite ∷ [] },
      rw (mine, new_invite_token_total entropy n bytes) refl,
      ground (
        arith,
        keep_if-append (People.is_live_row j) rows (invite ∷ []),
        revoked_count reminder_id j now db.invites,
      ),
    )

-- Where a link was taken back, a second press finds nothing, and the state stays.
pub revoke_invite_twice :
    (owner_id reminder_id : ℕ) (now later : Moment) (db : Db) {r : Reminder}
    → owned owner_id reminder_id db ≡ ok r
    → (b : Bool) × (db' : Db) × (revoke_invite owner_id reminder_id now db ≡ ok (b, db'))
      × (live_count reminder_id db'.invites ≡ 0)
      × (revoke_invite owner_id reminder_id later db' ≡ ok (false, db'))
unfolding revoke_invite
revoke_invite_twice owner_id reminder_id now later db {r} mine =
    let rows = (People.revoke_live reminder_id now db.invites).0 in
    let after : Db = record db { invites = rows } in
    let again : owned owner_id reminder_id after ≡ ok r = unfold owned in mine in
    let gone = revoke-none_left reminder_id now db.invites in
    (
      ltb 0 (People.revoke_live reminder_id now db.invites).1,
      after,
      rw mine refl,
      gone,
      rw (again, revoke-nothing reminder_id later rows gone) refl,
    )

joined_bounded :
    (r : Reminder) (user_id : ℕ) (db : Db)
    → check_join
        (role_of (People.get_recipient r.id user_id db.recipients))
        (People.count_watchers r.id db.recipients)
        reminder_watchers_max
      ≡ ok tt
    → ((j : ℕ) → People.count_watchers j db.recipients ≤ reminder_watchers_max)
    → (j : ℕ)
    → People.count_watchers j
        (add_pending r.id user_id (People.get_recipient r.id user_id db.recipients) db.recipients)
      ≤ reminder_watchers_max
unfolding add_pending check_join People.count_watchers
joined_bounded r user_id db h k j = go (People.get_recipient r.id user_id db.recipients) h
  where
    go :
        (o : Option Recipient)
        → check_join (role_of o) (People.count_watchers r.id db.recipients) reminder_watchers_max
          ≡ ok tt
        → People.count_watchers j (add_pending r.id user_id o db.recipients) ≤ reminder_watchers_max
    go (some x) h = k j
    go none h = ground (
      arith,
      keep_if-append (λ x. (x.reminder_id == j) && People.is_watcher x.role) db.recipients
          (record { reminder_id = r.id; user_id = user_id; role = watcher; accepted_at = none }
            ∷ []),
      k j,
      ==_iff r.id j,
    )

admit_bounded :
    (token : Text) (user_id : ℕ) (now : Moment) (db : Db) (m : Result (Reminder × Db))
    → admit token user_id now db ≡ m
    → ((j : ℕ) → People.count_watchers j db.recipients ≤ reminder_watchers_max)
    → (j : ℕ) → People.count_watchers j (opened m db).1.recipients ≤ reminder_watchers_max
unfolding admit
admit_bounded token user_id now db (err e) h k = k
admit_bounded token user_id now db (ok (r, db')) h k =
    let (i, e1, h1) = >>=-eq-ok (found (People.get_by_token token db.invites)) _ h in
    let (_, e2, h2) = >>=-eq-ok (live_or_raise (invite_state i.expires_at i.revoked_at now)) _ h1 in
    let (r', e3, h3) = >>=-eq-ok (found (get Reminders.id_of i.reminder_id db.reminders)) _ h2 in
    let existing = People.get_recipient r'.id user_id db.recipients in
    let (_, e4, h4) =
      >>=-eq-ok
        (check_join (role_of existing) (People.count_watchers r'.id db.recipients)
          reminder_watchers_max)
        _ h3 in
    let same = ok-injective h4 in
    λ j.
      subst (λ x. People.count_watchers j x.recipients ≤ reminder_watchers_max) (ap (λ p. p.1) same)
        (joined_bounded r' user_id db e4 k j)

-- Whatever link is opened by whomever, and however it ends, no reminder gets more watchers than the
-- limit of ten: for a database where none has more.
pub open_invite_bounded :
    (token : Text) (user_id : ℕ) (now : Moment) (db : Db)
    → ((j : ℕ) → People.count_watchers j db.recipients ≤ reminder_watchers_max)
    → (j : ℕ)
    → People.count_watchers j (open_invite token user_id now db).1.recipients
      ≤ reminder_watchers_max
unfolding open_invite
open_invite_bounded token user_id now db =
    admit_bounded token user_id now db (admit token user_id now db) refl
