-- ===== src/Services/Dispatching/Row.antt =====
-- What one delivery attempt leaves in the database.
use remindo.Prelude.{ℕ, ◌<◌, ◌≡◌, ◌≢◌, refl, true, false, Option, none, some, arith, String}
use remindo.Time.{Moment}
use remindo.Contracts.{DeliveryStatus, ErrorClass, ok}
use remindo.Dispatching.{
  AbortReason, occurrence_closed, user_blocked, context_missing, abort_status, is_retry, Verdict,
  check_deliverable, decide_abort, decide_failure, decide_success,
}
use remindo.Dispatching.Table.{IsAfter, FollowsTable, decide_failure-FollowsTable}
use remindo.Db.{Db, Occurrence, Delivery}
use remindo.Db.Table.{get, get-update}
use remindo.Db.Deliveries
use remindo.Services.Dispatching.{
  Sending, SendReply, delivered, refused, SendContext, load_context, moment_or, verdict_fields,
  sent_fields, apply_verdict, apply_sent, send, deliver_checked, deliver_in, deliver_one,
}

-- The row of the delivery was settled and given back, and no other row was touched.
pub record Settled (d : Delivery) (s : Sending) (db : Db) (status : DeliveryStatus) (db' : Db)
    : Type 0 where
  pub row : Delivery
  pub found : get Deliveries.id_of d.id db'.deliveries ≡ some row
  pub written : row.status ≡ status
  pub released : row.locked_until ≡ none
  pub due_later : status ≡ DeliveryStatus.pending → s.at < row.next_attempt_at
  -- a row without an error was sent
  pub explained : row.error_code ≡ none → status ≡ DeliveryStatus.sent
  pub others :
      (j : ℕ)
      → j ≢ d.id
      → get Deliveries.id_of j db'.deliveries ≡ get Deliveries.id_of j db.deliveries
  pub journal : db'.actions ≡ db.actions

not_queued : {A : Type 0} (reason : AbortReason) → abort_status reason ≡ DeliveryStatus.pending → A
not_queued occurrence_closed e = ground arith
not_queued user_blocked e = ground arith
not_queued context_missing e = ground arith

later_moment :
    (now old : Moment) (m : Option Moment)
    → IsAfter now m
    → elim m [ none ↦ false | some m' ↦ true ] ≡ true
    → now < moment_or m old
later_moment now old none a h = ground arith
later_moment now old (some m) a h = a

module _ (d : Delivery) (s : Sending) (db : Db) {old : Delivery}
    (was : get Deliveries.id_of d.id db.deliveries ≡ some old) where
  verdict_settles :
      (v : Verdict)
      → (v.status ≡ DeliveryStatus.pending → s.at < (verdict_fields v old).next_attempt_at)
      → (v.error_code ≡ none → v.status ≡ DeliveryStatus.sent)
      → Settled d s db v.status (apply_verdict d v db)
  unfolding apply_verdict
  verdict_settles v later why = record {
    row = verdict_fields v old;
    found = ground (
      arith,
      get-update Deliveries.id_of d.id d.id (verdict_fields v) db.deliveries
          (λ _. unfold verdict_fields in refl),
    );
    written = unfold verdict_fields in refl;
    released = unfold verdict_fields in refl;
    due_later = later;
    explained = unfold verdict_fields in why;
    others = λ j ne. ground (
      arith,
      get-update Deliveries.id_of d.id j (verdict_fields v) db.deliveries
          (λ _. unfold verdict_fields in refl),
    );
    journal = refl;
  }

  sent_settles :
      (o : Occurrence) (message_id : ℕ)
      → Settled d s db decide_success.status (apply_sent d o message_id s.at db)
  unfolding apply_sent
  sent_settles o message_id =
      let f = sent_fields decide_success message_id s.at in
      record {
        row = f old;
        found = ground (
          arith,
          get-update Deliveries.id_of d.id d.id f db.deliveries (λ _. unfold sent_fields in refl),
        );
        written = unfold sent_fields in refl;
        released = unfold sent_fields in refl;
        due_later = unfold decide_success in ground arith;
        explained = λ _. unfold decide_success in refl;
        others = λ j ne. ground (
          arith,
          get-update Deliveries.id_of d.id j f db.deliveries (λ _. unfold sent_fields in refl),
        );
        journal = refl;
      }

  abort_settles :
      (reason : AbortReason)
      → Settled d s db
          (decide_abort reason d.attempts).status
          (apply_verdict d (decide_abort reason d.attempts) db)
  abort_settles reason =
      verdict_settles (decide_abort reason d.attempts) (unfold decide_abort in not_queued reason)
        (unfold decide_abort in ground arith)

  goes_later :
      {c : ErrorClass} (v : Verdict)
      → FollowsTable d.attempts c s.at v
      → v.status ≡ DeliveryStatus.pending
      → s.at < (verdict_fields v old).next_attempt_at
  unfolding verdict_fields is_retry
  goes_later v t q =
      let again : is_retry v ≡ true = t.again.1 (t.queued.0 q) in
      later_moment s.at old.next_attempt_at v.next_attempt_at t.later again

  -- What a failed send leaves.
  failure_settles :
      (c : ErrorClass) (code : String) (after : Option ℕ)
      → (v : Verdict) × (decide_failure d.attempts c s.at code after ≡ ok v)
        × Settled d s db v.status (apply_verdict d v db)
  failure_settles c code after =
      let (v, e, t) = decide_failure-FollowsTable d.attempts c s.at code after in
      (v, e, verdict_settles v (λ q. goes_later v t q) (λ n. t.told n))

  -- Sending ends in a settled row, whatever the gateway answers.
  send_settles :
      (o : Occurrence) (r : SendReply)
      → (status : DeliveryStatus) × (db' : Db) × (send d o r s.at db ≡ ok (status, db'))
        × Settled d s db status db'
  unfolding send
  send_settles o (delivered message_id) = (_, _, refl, sent_settles o message_id)
  send_settles o (refused c code after) =
      let (v, f, t) = failure_settles c code after in (v.status, apply_verdict d v db, rw f refl, t)

  settles_checked :
      (r : Option AbortReason) (c : SendContext)
      → (status : DeliveryStatus) × (db' : Db) × (deliver_checked r d c s db ≡ ok (status, db'))
        × Settled d s db status db'
  unfolding deliver_checked
  settles_checked (some reason) c = (_, _, refl, abort_settles reason)
  settles_checked none c = send_settles c.occurrence s.reply

  settles_in :
      (c : Option SendContext)
      → (status : DeliveryStatus) × (db' : Db) × (deliver_in d c s db ≡ ok (status, db'))
        × Settled d s db status db'
  unfolding deliver_in
  settles_in none = (_, _, refl, abort_settles context_missing)
  settles_in (some c) = settles_checked (check_deliverable c.occurrence.status c.user.is_blocked) c

  -- An attempt on a delivery that is in the queue ends, whatever the context and the gateway say, with
  -- its row settled: the row has the status that the cycle counts, its lease is dropped, it comes back
  -- only after the moment of the verdict, a row that is left without an error is sent, and no other
  -- delivery is touched.
  pub deliver_one-Settled :
      (status : DeliveryStatus) × (db' : Db) × (deliver_one d s db ≡ ok (status, db'))
      × Settled d s db status db'
  unfolding deliver_one
  deliver_one-Settled = settles_in (load_context db d)
