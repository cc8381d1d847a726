-- ===== src/Services/Digest/Once.antt =====
-- A user gets one digest for a weekly moment, and every candidate of a cycle is counted once.
use remindo.Prelude.{
  ℕ, ◌+◌, ◌≤◌, ◌≡◌, ◌⊎◌, ◌∙◌, inl, inr, refl, sym, ap, subst, true, Option, none, some, List, [],
  ◌∷◌, arith, ◌==◌, length, Bool-cases, Option-cases,
}
use remindo.Time.{Moment}
use remindo.Contracts.{ErrorClass, retry_after, forbidden, bad_request, transient}
use remindo.Digest.{digest_due_at, last_digest_moment}
use remindo.Digest.Weekly.{digest_due_at_lem, digest_due_at-marked}
use remindo.Db.{Db, User}
use remindo.Db.Table.{get, get-update}
use remindo.Db.People.{id_of, mark_blocked}
use remindo.Services.Reactions.{quiet_hours_of}
use remindo.Services.Stats.{summary_for}
use remindo.Services.Digest.{
  Send, Outcome, was_sent, was_empty, was_blocked, was_failed, was_deferred, DigestResult,
  result_of, add, mark, block, mark_digest_sent, send_failed, send, one_due, one, each, run,
  list_digest_candidates,
}

-- The row of the user is marked with the moment, and nothing else of it but the block has changed.
abbrev pub IsMarked : User → Moment → Db → Type 0
IsMarked user moment db =
    (u : User) × (get id_of user.id db.users ≡ some u)
    × (u.digest_sent_at ≡ some moment)
    × (u.timezone ≡ user.timezone)

mark-IsMarked :
    (user : User) (moment : Moment) (db : Db) {u : User}
    → get id_of user.id db.users ≡ some u
    → u.timezone ≡ user.timezone
    → IsMarked user moment (mark user.id moment db)
unfolding mark mark_digest_sent
mark-IsMarked user moment db {u} h tz =
    let found =
      get-update id_of user.id user.id (λ r. record r { digest_sent_at = some moment }) db.users
        (λ r. refl) in
    let own : user.id == user.id ≡ true = ground arith in
    (record u { digest_sent_at = some moment }, found ∙ rw (own, h) refl, refl, tz)

block-found :
    (user : User) (db : Db)
    → get id_of user.id db.users ≡ some user
    → get id_of user.id (block user.id db).users ≡ some (record user { is_blocked = true })
unfolding block mark_blocked
block-found user db h =
    let found =
      get-update id_of user.id user.id (λ r. record r { is_blocked = true }) db.users (λ r. refl) in
    let own : user.id == user.id ≡ true = ground arith in found ∙ rw (own, h) refl

-- An attempt is put off and changes nothing, or it marks the user.
abbrev Settled : User → Moment → Db → Outcome × Db → Type 0
Settled user moment db ran = ((ran.0 ≡ was_deferred) × (ran.1 ≡ db)) ⊎ IsMarked user moment ran.1

send-Settled :
    (answer : Option ErrorClass) (user : User) (moment : Moment) (db : Db)
    → get id_of user.id db.users ≡ some user
    → Settled user moment db (send answer user moment db)
unfolding send send_failed
send-Settled none user moment db h = inr (mark-IsMarked user moment db h refl)
send-Settled (some forbidden) user moment db h =
    inr (mark-IsMarked user moment (block user.id db) (block-found user db h) refl)
send-Settled (some bad_request) user moment db h = inr (mark-IsMarked user moment db h refl)
send-Settled (some retry_after) user moment db h = inl (refl, refl)
send-Settled (some transient) user moment db h = inl (refl, refl)

one_due-Settled :
    (answer : Option ErrorClass) (user : User) (moment : Moment) (db : Db)
    → get id_of user.id db.users ≡ some user
    → Settled user moment db (one_due answer user db (some moment))
unfolding one_due
one_due-Settled answer user moment db h =
    elim (Bool-cases ((summary_for user moment none db).measure.last_7_days.total == 0)) [
      | inl e ↦ rw e (inr (mark-IsMarked user moment db h refl))
      | inr e ↦ rw e (send-Settled answer user moment db h)
    ]

-- A marked row is left alone until a later weekly moment.
one-marked :
    (later : Moment) (weekday hour : ℕ) (other : Send) (u : User) (db : Db) (m : Moment)
    → u.digest_sent_at ≡ some m
    → last_digest_moment later u.timezone weekday hour ≤ m
    → one later weekday hour other u db ≡ (was_deferred, db)
unfolding one one_due
one-marked later weekday hour other u db m sent le =
    let q = quiet_hours_of u in
    let quiet : digest_due_at later u.timezone weekday hour u.digest_sent_at q ≡ none =
      ap (λ s. digest_due_at later u.timezone weekday hour s q) sent
      ∙ digest_due_at-marked later u.timezone weekday hour m q le in
    ap (one_due (other u.id) u db) quiet

-- The digest of a weekly moment is settled at most once: an attempt that is not put off marks its
-- user, and from then on, until a later weekly moment comes, every attempt on the marked row sends
-- nothing and changes nothing, whatever the gateway would answer. An attempt that is put off leaves
-- the database as it was.
pub one_once :
    (now : Moment) (weekday hour : ℕ) (send_to : Send) (user : User) (db : Db)
    → get id_of user.id db.users ≡ some user
    → let ran = one now weekday hour send_to user db in
      ((ran.0 ≡ was_deferred) × (ran.1 ≡ db))
      ⊎ ((u : User) × (get id_of user.id ran.1.users ≡ some u)
          × ((later : Moment) (other : Send) (then_db : Db)
              → last_digest_moment later user.timezone weekday hour
                ≤ last_digest_moment now user.timezone weekday hour
              → one later weekday hour other u then_db ≡ (was_deferred, then_db)))
unfolding one one_due
one_once now weekday hour send_to user db h =
    elim (Option-cases
      (digest_due_at now user.timezone weekday hour user.digest_sent_at (quiet_hours_of user))) [
        | inl e ↦ rw e (inl (refl, refl))
        | inr found ↦
            let moment : Moment = found.0 in
            let due = found.1 in
            let weekly =
              digest_due_at_lem now user.timezone weekday hour user.digest_sent_at
                (quiet_hours_of user) due in
            rw due (elim (one_due-Settled (send_to user.id) user moment db h) [
              | inl off ↦ inl off
              | inr marked ↦ inr (
                marked.0,
                marked.1,
                λ later other then_db le.
                    one-marked later weekday hour other marked.0 then_db moment marked.2 (
                      subst (λ z. last_digest_moment later z weekday hour ≤ moment) (sym marked.3)
                        (subst (λ m. last_digest_moment later user.timezone weekday hour ≤ m)
                          (sym weekly.0) le)),
              )
            ])
      ]

-- The candidates that a result accounts for.
abbrev pub accounted : DigestResult → ℕ
accounted r = r.sent + (r.empty + (r.blocked + (r.failed + r.deferred)))

accounted-add :
    (r : DigestResult) (o : Outcome)
    → (accounted (add r (result_of o)) ≡ accounted r + 1)
      × ((add r (result_of o)).considered ≡ r.considered)
unfolding add
accounted-add r was_sent = (omega arith, refl)
accounted-add r was_empty = (omega arith, refl)
accounted-add r was_blocked = (omega arith, refl)
accounted-add r was_failed = (omega arith, refl)
accounted-add r was_deferred = (omega arith, refl)

each-accounted :
    (now : Moment) (weekday hour : ℕ) (send_to : Send) (users : List User) (r : DigestResult)
    (db : Db)
    → (accounted (each now weekday hour send_to users r db).0 ≡ accounted r + length users)
      × ((each now weekday hour send_to users r db).0.considered ≡ r.considered)
unfolding each
each-accounted now weekday hour send_to [] r db = (omega arith, refl)
each-accounted now weekday hour send_to (u ∷ users) r db =
    let ran = one now weekday hour send_to u db in
    let counted = accounted-add r ran.0 in
    let rest = each-accounted now weekday hour send_to users (add r (result_of ran.0)) ran.1 in
    (omega (arith, rest.0, counted.0), rest.1 ∙ counted.1)

-- A digest cycle ends and counts every candidate it considered once: as sent, empty, blocked, failed
-- or put off.
pub run-accounted :
    (now : Moment) (weekday hour batch_size : ℕ) (send_to : Send) (db : Db)
    → let r = (run now weekday hour batch_size send_to db).0 in
      (accounted r ≡ r.considered)
      × (r.considered ≡ length (list_digest_candidates now batch_size db.users))
unfolding run
run-accounted now weekday hour batch_size send_to db =
    let candidates = list_digest_candidates now batch_size db.users in
    let zero_result : DigestResult = record {
      considered = length candidates;
      sent = 0;
      empty = 0;
      blocked = 0;
      failed = 0;
      deferred = 0;
    } in
    let all = each-accounted now weekday hour send_to candidates zero_result db in
    (omega (arith, all.0, all.1), all.1)
