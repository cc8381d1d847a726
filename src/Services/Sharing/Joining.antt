-- ===== src/Services/Sharing/Joining.antt =====
-- Accepting, leaving, and links that were taken back.
use remindo.Prelude.{
  Text, ℕ, ◌≡◌, refl, Bool, true, false, ◌&&◌, not, Option, none, some, List, [], ◌∷◌, arith, ◌==◌,
  keep_if, Bool-cases, ==_iff, inl, inr, ltb, ap, elem,
}
use remindo.Time.{Moment}
use remindo.Contracts.{ok, err, invite_expired}
use remindo.Sharing.{invite_state}
use remindo.Db.{Db, Reminder, Recipient, Invite}
use remindo.Db.Table.{update_where}
use remindo.Db.Deliveries
use remindo.Db.People
use remindo.Services.Sharing.{
  join_now, backfill_deliveries, leave, occurrence_ids, admit, open_invite, revoke_invite, owned,
  live_or_raise,
}

accept-none_left :
    (reminder_id user_id : ℕ) (now later : Moment) (t : List Recipient)
    → let u = (People.accept reminder_id user_id now t).0 in
      People.accept reminder_id user_id later u ≡ (u, 0)
unfolding People.accept update_where
accept-none_left reminder_id user_id now later [] = refl
accept-none_left reminder_id user_id now later (r ∷ t) =
    elim (Bool-cases (People.is_pending_watcher reminder_id user_id r)) [
      | inl e ↦ let rest = accept-none_left reminder_id user_id now later t in ground arith
      | inr e ↦
          let rest = accept-none_left reminder_id user_id now later t in
          rw (e, e) (ap (λ p. (r ∷ p.0, p.1)) rest)
    ]

accept-nothing :
    (reminder_id user_id : ℕ) (now : Moment) (t : List Recipient)
    → (People.accept reminder_id user_id now t).1 ≡ 0
    → (People.accept reminder_id user_id now t).0 ≡ t
unfolding People.accept update_where
accept-nothing reminder_id user_id now [] h = refl
accept-nothing reminder_id user_id now (r ∷ t) h =
    ground (arith, accept-nothing reminder_id user_id now t)

join_recipients :
    (reminder_id user_id : ℕ) (now : Moment) (db : Db)
    → (join_now reminder_id user_id now db).0.recipients
      ≡ (People.accept reminder_id user_id now db.recipients).0
unfolding join_now backfill_deliveries
join_recipients reminder_id user_id now db =
    elim (Bool-cases (ltb 0 (People.accept reminder_id user_id now db.recipients).1)) [
      | inl e ↦ rw e refl
      | inr e ↦ rw e refl
    ]

join_nothing :
    (reminder_id user_id : ℕ) (now : Moment) (db : Db)
    → People.accept reminder_id user_id now db.recipients ≡ (db.recipients, 0)
    → join_now reminder_id user_id now db ≡ (db, 0)
unfolding join_now
join_nothing reminder_id user_id now db h = rw h refl

-- A user who accepts again, at whatever moment, gets nothing more: nothing in the database changes
-- and no delivery is queued.
pub join_now_twice :
    (reminder_id user_id : ℕ) (now later : Moment) (db : Db)
    → let joined = (join_now reminder_id user_id now db).0 in
      join_now reminder_id user_id later joined ≡ (joined, 0)
join_now_twice reminder_id user_id now later db =
    join_nothing reminder_id user_id later (join_now reminder_id user_id now db).0 (
      rw (join_recipients reminder_id user_id now db)
        (accept-none_left reminder_id user_id now later db.recipients))

-- The row of a link whose reminder took its links back.
token_revoked :
    (reminder_id : ℕ) (now : Moment) (token : Text) (t : List Invite) {i : Invite}
    → People.get_by_token token (People.revoke_live reminder_id now t).0 ≡ some i
    → (i.reminder_id == reminder_id) ≡ true
    → People.is_set i.revoked_at ≡ true
unfolding People.revoke_live People.get_by_token update_where
token_revoked reminder_id now token [] h m = ground arith
token_revoked reminder_id now token (x ∷ t) {i} h m =
    ground (arith, token_revoked reminder_id now token t {i = i})

state_revoked :
    (expires : Moment) (m : Option Moment) (now : Moment)
    → People.is_set m ≡ true
    → live_or_raise (invite_state expires m now) ≡ err invite_expired
unfolding invite_state
state_revoked expires none now h = ground arith
state_revoked expires (some m) now h = refl

-- After the owner took the links of a reminder back, none of them lets anybody in: whoever opens one,
-- at whatever moment, is told that it has expired, and the database stays as it is.
pub revoke_invite-closed :
    (owner_id reminder_id : ℕ) (now : Moment) (db : Db) (r : Reminder) (token : Text) (user_id : ℕ)
    (later : Moment) (i : Invite)
    → let after = record db { invites = (People.revoke_live reminder_id now db.invites).0 } in
      owned owner_id reminder_id db ≡ ok r
      → People.get_by_token token after.invites ≡ some i
      → (i.reminder_id == reminder_id) ≡ true
      → (revoke_invite owner_id reminder_id now db
          ≡ ok (ltb 0 (People.revoke_live reminder_id now db.invites).1, after))
        × (open_invite token user_id later after ≡ (err invite_expired, after))
unfolding revoke_invite open_invite admit
revoke_invite-closed owner_id reminder_id now db r token user_id later i mine h m =
    let closed =
      state_revoked i.expires_at i.revoked_at later
        (token_revoked reminder_id now token db.invites {i = i} h m) in
    (rw mine refl, rw (h, closed) refl)

kept_none : {A : Type 0} (p : A → Bool) (t : List A) → keep_if p (keep_if (λ a. not (p a)) t) ≡ []
kept_none p [] = refl
kept_none p (a ∷ t) = ground (arith, kept_none p t)

abbrev is_watcher_of : ℕ → ℕ → Recipient → Bool
is_watcher_of reminder_id user_id r =
    People.is_recipient reminder_id user_id r && People.is_watcher r.role

pairs : {A B : Type 0} {a a' : A} {b b' : B} → a ≡ a' → b ≡ b' → ◌≡◌ {A = A × B} (a, b) (a', b')
pairs e f = rw (e, f) refl

kept_twice : {A : Type 0} (p : A → Bool) (t : List A) → keep_if p (keep_if p t) ≡ keep_if p t
kept_twice p [] = refl
kept_twice p (a ∷ t) = ground (arith, kept_twice p t)

-- The user has a row for the reminder as its owner.
abbrev pub is_owner : ℕ → ℕ → Recipient → Bool
is_owner reminder_id user_id r =
    People.is_recipient reminder_id user_id r && not (People.is_watcher r.role)

accepted_gone :
    (reminder_id user_id : ℕ) (t : List Recipient)
    → keep_if (is_owner reminder_id user_id) t ≡ []
    → elem user_id
        (People.list_accepted_user_ids reminder_id (People.remove_watcher reminder_id user_id t))
      ≡ false
unfolding People.list_accepted_user_ids People.remove_watcher elem
accepted_gone reminder_id user_id [] h = refl
accepted_gone reminder_id user_id (r ∷ t) h =
    elim (Bool-cases (People.is_recipient reminder_id user_id r)) [
      | inl e ↦ ground (arith, accepted_gone reminder_id user_id t)
      | inr e ↦ ground (
        arith,
        accepted_gone reminder_id user_id t,
        ==_iff r.user_id user_id,
        ==_iff user_id r.user_id,
      )
    ]

-- A user who leaves a reminder of somebody else has no unsent delivery of it left, and is none of
-- those whom the planner writes deliveries for.
pub leave_lem :
    (user_id reminder_id : ℕ) (db : Db)
    → keep_if (is_owner reminder_id user_id) db.recipients ≡ []
    → let left = leave user_id reminder_id db in
      (keep_if (Deliveries.unsent_of user_id (occurrence_ids reminder_id left)) left.deliveries
        ≡ [])
      × (elem user_id (People.list_accepted_user_ids reminder_id left.recipients) ≡ false)
      × (leave user_id reminder_id left ≡ left)
unfolding leave Deliveries.delete_pending_for_recipient People.remove_watcher
leave_lem user_id reminder_id db h = (
  kept_none (Deliveries.unsent_of user_id (occurrence_ids reminder_id db)) db.deliveries,
  accepted_gone reminder_id user_id db.recipients h,
  ap (λ p. record db { deliveries = p.0; recipients = p.1 })
      (pairs
        (kept_twice (λ d. not (Deliveries.unsent_of user_id (occurrence_ids reminder_id db) d))
          db.deliveries)
        (kept_twice (λ r. not (is_watcher_of reminder_id user_id r)) db.recipients)),
)
