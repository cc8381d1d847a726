-- ===== src/System/Calls.antt =====
-- Every call, and so every run, keeps what the writes keep.
use remindo.Prelude.{
  ℕ, ◌+◌, ◌≡◌, refl, Bool, false, Option, none, some, List, [], ◌∷◌, ltb, Bool-cases, inl, inr,
}
use remindo.Time.{Moment, Duration}
use remindo.Contracts.{ReminderStatus, Result, ok, err}
use remindo.QuietHours.{QuietHours}
use remindo.Sharing.{new_invite_token}
use remindo.Db.{Db, User, Reminder}
use remindo.Db.Table.{get}
use remindo.Db.Occurrences
use remindo.Db.Deliveries
use remindo.Db.People
use remindo.Services.Reactions.{quiet_hours_of}
use remindo.Services.Planning.{
  occurrence_rows, create_occurrences, create_deliveries, write_rows, moments_of, close_plan,
  materialize_one, materialize_due, materialize_all, materialize,
}
use remindo.Services.Sharing.{
  owned, issue_invite, revoke_invite, join_now, backfill_deliveries, participation, accept, decline,
  leave,
}
use remindo.Services.Reminders.{get_editable, unless_active, set_status}
use remindo.System.{
  Event, planner_cycle, dispatcher_cycle, claim, attempt, late_expiry, read_repeats, late_repeat,
  digest_user, is_late, reaper_cycle, tap, issue, revoke, open_link, join, refuse, quit, switch,
  digest_cycle, add, edit, remove, after, after_edit, step, run,
}
use remindo.System.Frame.{Frame, Holds, >>=-Holds, HoldsEdit}
use remindo.System.Edits.{
  drop_keeps, digest_one-keeps, digest_keeps, create_keeps, edit_keeps, remove_keeps,
}
use remindo.System.Loops.{in_keeps, expire_each-keeps, repeat_keeps}
use remindo.System.Jobs.{claim_keeps, dispatcher-keeps, reaper-keeps, react-keeps}

-- A late write goes to a delivery that it may go to.
abbrev pub Allowed : (ℕ → Type 0) → Event → Type 0
Allowed May (attempt d c s) = May d.id
Allowed May (late_repeat c p bumped) = May c.delivery.id
Allowed May _ = Unit

abbrev pub AllAllowed : (ℕ → Type 0) → List Event → Type 0
AllAllowed May [] = Unit
AllAllowed May (e ∷ es) = Allowed May e × AllAllowed May es

-- A late write goes to a delivery that it may go to, if it may go to all but those of `on`.
pub event-Allowed :
    {May : ℕ → Type 0} (on : ℕ → Bool) (e : Event)
    → ((j : ℕ) → on j ≡ false → May j)
    → is_late on e ≡ false
    → Allowed May e
event-Allowed on (attempt d c s) f h = f d.id h
event-Allowed on (late_repeat c p bumped) f h = f c.delivery.id h
event-Allowed on _ f h = tt

pub any_allowed : {May : ℕ → Type 0} (es : List Event) → ((j : ℕ) → May j) → AllAllowed May es
any_allowed [] f = tt
any_allowed (e ∷ es) f = (event-Allowed (λ j. false) e (λ j h. f j) (never e), any_allowed es f)
  where
    never : (e : Event) → is_late (λ j. false) e ≡ false
    never (attempt d c s) = refl
    never (late_repeat c p bumped) = refl
    never _ = refl

module _ {P : Db → Type 0} {May : ℕ → Type 0} (frame : Frame P May) where
  write_rows-keeps :
      (reminder_id : ℕ) (q : QuietHours) (ttl : Duration) (moments : List Moment) (db : Db)
      → P db
      → P (write_rows reminder_id q ttl moments db).0
  unfolding write_rows create_occurrences create_deliveries
  write_rows-keeps reminder_id q ttl moments db h =
      frame.queue _ _ (frame.fire db (occurrence_rows reminder_id q ttl moments) _ h)

  one_keeps :
      (ttl : Duration) (horizon_end : Moment) (r : Reminder) (u : User) (db : Db)
      → P db
      → P (materialize_one ttl horizon_end r u db).0
  unfolding materialize_one close_plan
  one_keeps ttl horizon_end r u db h =
      let fired = Occurrences.count_for_reminder r.id db.occurrences in
      let moments = moments_of r horizon_end fired in
      frame.beside (write_rows r.id (quiet_hours_of u) ttl moments db).0 _
        (record { deliveries = refl; occurrences = refl; recipients = refl; next_delivery = refl })
        (write_rows-keeps r.id (quiet_hours_of u) ttl moments db h)

  due_keeps :
      (ttl : Duration) (horizon_end : Moment) (r : Reminder) (u : Option User) (db : Db)
      → P db
      → P (materialize_due ttl horizon_end r u db).0
  unfolding materialize_due
  due_keeps ttl horizon_end r none db h = h
  due_keeps ttl horizon_end r (some u) db h = one_keeps ttl horizon_end r u db h

  all_keeps :
      (ttl : Duration) (horizon_end : Moment) (rs : List Reminder) (db : Db)
      → P db
      → P (materialize_all ttl horizon_end rs db).0
  unfolding materialize_all
  all_keeps ttl horizon_end [] db h = h
  all_keeps ttl horizon_end (r ∷ rs) db h =
      all_keeps ttl horizon_end rs _
        (due_keeps ttl horizon_end r (get People.id_of r.owner_id db.users) db h)

  issue_keeps :
      (owner_id reminder_id : ℕ) (entropy : List ℕ) (now : Moment) (db : Db)
      → P db
      → Holds P (issue_invite owner_id reminder_id entropy now db)
  unfolding issue_invite
  issue_keeps owner_id reminder_id entropy now db h =
      >>=-Holds P (owned owner_id reminder_id db) _ (λ r e.
        >>=-Holds P (new_invite_token entropy) _ (λ token e'.
          frame.beside db _
            (record {
              deliveries = refl;
              occurrences = refl;
              recipients = refl;
              next_delivery = refl;
            })
            h))

  revoke_keeps :
      (owner_id reminder_id : ℕ) (now : Moment) (db : Db)
      → P db
      → Holds P (revoke_invite owner_id reminder_id now db)
  unfolding revoke_invite
  revoke_keeps owner_id reminder_id now db h = >>=-Holds P (owned owner_id reminder_id db) _ (λ r e.
      frame.beside db _
        (record { deliveries = refl; occurrences = refl; recipients = refl; next_delivery = refl })
        h)

  join_now_keeps :
      (reminder_id user_id : ℕ) (now : Moment) (db : Db)
      → P db
      → P (join_now reminder_id user_id now db).0
  unfolding join_now backfill_deliveries
  join_now_keeps reminder_id user_id now db h =
      let joined = frame.accept db reminder_id user_id now h in
      elim (Bool-cases (ltb 0 (People.accept reminder_id user_id now db.recipients).1)) [
        | inl e ↦ rw e (frame.queue _ _ joined)
        | inr e ↦ rw e joined
      ]

  accept_keeps :
      (user_id reminder_id : ℕ) (now : Moment) (db : Db)
      → P db
      → Holds P (accept user_id reminder_id now db)
  unfolding accept
  accept_keeps user_id reminder_id now db h =
      >>=-Holds P (participation user_id reminder_id db) _
        (λ p e. join_now_keeps reminder_id user_id now db h)

  decline_keeps : (user_id reminder_id : ℕ) (db : Db) → P db → P (decline user_id reminder_id db)
  unfolding decline People.remove_watcher
  decline_keeps user_id reminder_id db h = frame.part db _ h

  leave_keeps : (user_id reminder_id : ℕ) (db : Db) → P db → P (leave user_id reminder_id db)
  unfolding leave People.remove_watcher Deliveries.delete_pending_for_recipient
  leave_keeps user_id reminder_id db h = frame.part _ _ (frame.drop db _ h)

  unless_keeps : (s : ReminderStatus) (r : Reminder) (db : Db) → P db → P (unless_active s r db)
  unless_keeps ReminderStatus.active r db h = h
  unless_keeps ReminderStatus.paused r db h = drop_keeps frame r db h
  unless_keeps ReminderStatus.archived r db h = drop_keeps frame r db h

  switch_keeps :
      (owner_id reminder_id : ℕ) (status : ReminderStatus) (db : Db)
      → P db
      → Holds P (set_status owner_id reminder_id status db)
  unfolding set_status
  switch_keeps owner_id reminder_id status db h =
      >>=-Holds P (get_editable owner_id reminder_id db) _ (λ r e. unless_keeps status r _ (
        frame.beside db _
          (record {
            deliveries = refl;
            occurrences = refl;
            recipients = refl;
            next_delivery = refl;
          })
          h))

  after_edit-keeps : (m : Result Db) (db : Db) → HoldsEdit P m → P db → P (after_edit m db)
  after_edit-keeps (err e) db k h = h
  after_edit-keeps (ok db') db k h = k

  after-keeps {ℓ} : {A : Type ℓ} (m : Result (A × Db)) (db : Db) → Holds P m → P db → P (after m db)
  after-keeps (err e) db k h = h
  after-keeps (ok (a, db')) db k h = k

  pub step-keeps : (e : Event) (db : Db) → Allowed May e → P db → P (step e db)
  unfolding step materialize
  step-keeps (planner_cycle horizon ttl batch now) db m h = all_keeps ttl (now + horizon) _ db h
  step-keeps (dispatcher_cycle now lock batch held sendings) db m h =
      after-keeps _ db (dispatcher-keeps frame now lock batch held sendings db h) h
  step-keeps (claim now lock batch held) db m h = claim_keeps frame now lock batch held db h
  step-keeps (attempt d c s) db m h = after-keeps _ db (in_keeps frame d c s db m h) h
  step-keeps (late_expiry now os) db m h = expire_each-keeps frame now os db h
  step-keeps (read_repeats now batch) db m h = h
  step-keeps (late_repeat c p bumped) db m h = repeat_keeps frame c p bumped db m h
  step-keeps (digest_user now weekday hour send_to u) db m h =
      digest_one-keeps frame now weekday hour send_to u db h
  step-keeps (reaper_cycle now batch fsm_ttl) db m h = reaper-keeps frame now batch fsm_ttl db h
  step-keeps (tap i user_id a now) db m h =
      after-keeps _ db (react-keeps frame i user_id a now db h) h
  step-keeps (issue owner_id reminder_id entropy now) db m h =
      after-keeps _ db (issue_keeps owner_id reminder_id entropy now db h) h
  step-keeps (revoke owner_id reminder_id now) db m h =
      after-keeps _ db (revoke_keeps owner_id reminder_id now db h) h
  step-keeps (open_link token user_id now) db m h = frame.link db token user_id now h
  step-keeps (join user_id reminder_id now) db m h =
      after-keeps _ db (accept_keeps user_id reminder_id now db h) h
  step-keeps (refuse user_id reminder_id) db m h = decline_keeps user_id reminder_id db h
  step-keeps (quit user_id reminder_id) db m h = leave_keeps user_id reminder_id db h
  step-keeps (switch owner_id reminder_id status) db m h =
      after-keeps _ db (switch_keeps owner_id reminder_id status db h) h
  step-keeps (digest_cycle now weekday hour batch send_to) db m h =
      digest_keeps frame now weekday hour batch send_to db h
  step-keeps (add is_space new_id n now) db m h =
      after-keeps _ db (create_keeps frame is_space new_id n now db h) h
  step-keeps (edit is_space owner_id reminder_id c now) db m h =
      after_edit-keeps _ db (edit_keeps frame is_space owner_id reminder_id c now db h) h
  step-keeps (remove owner_id reminder_id) db m h =
      after_edit-keeps _ db (remove_keeps frame owner_id reminder_id db h) h

  pub run-keeps : (es : List Event) (db : Db) → AllAllowed May es → P db → P (run es db)
  unfolding run
  run-keeps [] db m h = h
  run-keeps (e ∷ es) db m h = run-keeps es (step e db) m.1 (step-keeps e db m.0 h)
