-- ===== src/Services/Digest.antt =====
-- app/services/digest.py: the weekly summaries. What the gateway answers to a user's digest is a
-- parameter: none once it is sent, or the class of its error. The text is the renderer's.
-- The source commits for each user; `run` is the cycle in which no one else commits between.
pub mod Once
use remindo.Prelude.{
  ℕ, ◌+◌, ◌-◌, ◌*◌, Bool, true, false, not, ◌&&◌, ◌||◌, Option, none, some, List, [], ◌∷◌, ltb, leb,
  ◌==◌, if◌then◌else◌, keep_if, take, length,
}
use remindo.Time.{Moment, day}
use remindo.Contracts.{ErrorClass, forbidden, bad_request}
use remindo.Stats.{StatsSummary}
use remindo.Digest.{digest_due_at}
use remindo.Db.{Db, User}
use remindo.Db.Table.{update, update_where, order_by}
use remindo.Db.People.{id_of, mark_blocked, is_set}
use remindo.Services.Reactions.{quiet_hours_of}
use remindo.Services.Stats.{summary_for}

abbrev pub digest_prefilter_days : ℕ
digest_prefilter_days = 6

-- digest_sent_at IS NULL OR digest_sent_at < now - 6 days
abbrev pub is_old_mark : Moment → Option Moment → Bool
is_old_mark now none = true
is_old_mark now (some sent) = ltb sent (now - digest_prefilter_days * day)

abbrev pub is_candidate : Moment → User → Bool
is_candidate now u =
    is_set u.onboarded_at
    && (not u.is_blocked && (u.digest_enabled && is_old_mark now u.digest_sent_at))

-- ORDER BY digest_sent_at NULLS FIRST, id: whether one row goes before the other
abbrev pub marked_before : Option Moment → Option Moment → ℕ → ℕ → Bool
marked_before none none i j = ltb i j
marked_before none (some n) i j = true
marked_before (some m) none i j = false
marked_before (some m) (some n) i j = ltb m n || ((m == n) && ltb i j)

unfoldable pub list_digest_candidates : Moment → ℕ → List User → List User
unfolding order_by
list_digest_candidates now limit t = take limit (
    order_by (λ a b. marked_before a.digest_sent_at b.digest_sent_at a.id b.id)
      (keep_if (is_candidate now) t))

unfoldable pub mark_digest_sent : ℕ → Moment → List User → List User
unfolding update_where
mark_digest_sent i moment t = update id_of i (λ u. record u { digest_sent_at = some moment }) t

pub record DigestResult : Type 0 where
  pub considered : ℕ
  pub sent : ℕ
  pub empty : ℕ
  pub blocked : ℕ
  pub failed : ℕ
  pub deferred : ℕ

abbrev pub Send : Type 0
Send = ℕ → Option ErrorClass

pub data Outcome : Type 0 where
  was_sent was_empty was_blocked was_failed was_deferred : Outcome

-- DigestResult(sent=1) and its like
abbrev pub result_of : Outcome → DigestResult
result_of was_sent = record {
  considered = 0;
  sent = 1;
  empty = 0;
  blocked = 0;
  failed = 0;
  deferred = 0;
}
result_of was_empty = record {
  considered = 0;
  sent = 0;
  empty = 1;
  blocked = 0;
  failed = 0;
  deferred = 0;
}
result_of was_blocked = record {
  considered = 0;
  sent = 0;
  empty = 0;
  blocked = 1;
  failed = 0;
  deferred = 0;
}
result_of was_failed = record {
  considered = 0;
  sent = 0;
  empty = 0;
  blocked = 0;
  failed = 1;
  deferred = 0;
}
result_of was_deferred = record {
  considered = 0;
  sent = 0;
  empty = 0;
  blocked = 0;
  failed = 0;
  deferred = 1;
}

-- `_mark`
unfoldable pub mark : ℕ → Moment → Db → Db
unfolding mark_digest_sent
mark user_id moment db = record db { users = mark_digest_sent user_id moment db.users }

unfoldable pub block : ℕ → Db → Db
unfolding mark_blocked
block user_id db = record db { users = mark_blocked user_id true db.users }

-- `_failed`
unfoldable pub send_failed : User → Moment → ErrorClass → Db → Outcome × Db
unfolding mark block
send_failed user moment forbidden db = (was_blocked, mark user.id moment (block user.id db))
send_failed user moment bad_request db = (was_failed, mark user.id moment db)
send_failed user moment other db = (was_deferred, db)

-- `_send`
unfoldable pub send : Option ErrorClass → User → Moment → Db → Outcome × Db
unfolding send_failed mark
send none user moment db = (was_sent, mark user.id moment db)
send (some e) user moment db = send_failed user moment e db

unfoldable pub one_due : Option ErrorClass → User → Db → Option Moment → Outcome × Db
unfolding summary_for send mark
one_due answer user db none = (was_deferred, db)
one_due answer user db (some moment) =
    if (summary_for user moment none db).measure.last_7_days.total == 0
    then (was_empty, mark user.id moment db)
    else send answer user moment db

-- `_one`
unfoldable pub one : Moment → ℕ → ℕ → Send → User → Db → Outcome × Db
unfolding digest_due_at
one now weekday hour send_to user db =
    one_due (send_to user.id) user db
      (digest_due_at now user.timezone weekday hour user.digest_sent_at (quiet_hours_of user))

-- `_add`
unfoldable pub add : DigestResult → DigestResult → DigestResult
add left right = record {
  considered = left.considered;
  sent = left.sent + right.sent;
  empty = left.empty + right.empty;
  blocked = left.blocked + right.blocked;
  failed = left.failed + right.failed;
  deferred = left.deferred + right.deferred;
}

unfoldable pub each : Moment → ℕ → ℕ → Send → List User → DigestResult → Db → DigestResult × Db
unfolding one add
each now weekday hour send_to [] result db = (result, db)
each now weekday hour send_to (u ∷ us) result db =
    let ran = one now weekday hour send_to u db in
    each now weekday hour send_to us (add result (result_of ran.0)) ran.1

unfoldable pub run : Moment → ℕ → ℕ → ℕ → Send → Db → DigestResult × Db
unfolding list_digest_candidates each
run now weekday hour batch_size send_to db =
    let candidates = list_digest_candidates now batch_size db.users in
    each now weekday hour send_to candidates
      (record {
        considered = length candidates;
        sent = 0;
        empty = 0;
        blocked = 0;
        failed = 0;
        deferred = 0;
      })
      db
