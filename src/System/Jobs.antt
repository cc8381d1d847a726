-- ===== src/System/Jobs.antt =====
-- The dispatcher, the reaper and the buttons keep what the writes keep.
use remindo.Prelude.{
  ℕ, ◌≡◌, refl, Bool, true, false, not, ◌||◌, Option, none, some, List, [], ◌∷◌, ◌==◌, all_of, elem,
  map, keep_if, arith, Bool-cases, Option-cases, ==_iff, inl, inr,
}
use remindo.Time.{Moment, Duration}
use remindo.Contracts.{DeliveryStatus, OccurrenceStatus, ActionKind, is_terminal_delivery}
use remindo.Reactions.{RejectReason, Reaction, check_reactable, decide_reaction, is_terminal}
use remindo.Sweeping.{is_overdue}
use remindo.Services.Reactions.Tap.{found-eq-ok}
use remindo.Db.{Db, Occurrence, Delivery}
use remindo.Db.Table.{get, get-id, update}
use remindo.Db.Rows.{all_of-take, all_of-order_by}
use remindo.Db.Deliveries
use remindo.Db.Deliveries.Claim.{claimed_listed, due_ids-is_due}
use remindo.Db.Occurrences
use remindo.Db.Reminders
use remindo.Db.People
use remindo.Services.Reactions.{
  Action, action_kind, found, react, tap, answer, apply_tap, write, write_fields, close_occurrence,
  set_rolled, quiet_hours_of,
}
use remindo.Services.Dispatching.{Sending, load_context, deliver}
use remindo.Services.Reaper.{
  Candidate, expire_each, is_candidate, join_rows, sent_before, list_repeat_candidates,
  expire_overdue, repeat_unanswered, sweep,
}
use remindo.System.Frame.{is_open, Frame, Holds, >>=-Holds}
use remindo.System.Loops.{set_status-keeps, deliver_all-keeps, expire_each-keeps, repeat_each-keeps}

-- A row that is due is open.
due_open :
    (now : Moment) (held : ℕ → Bool) (j : ℕ) (t : List Delivery)
    → elem j (Deliveries.ids (keep_if (Deliveries.is_due now held) t)) ≡ true
    → is_open j t ≡ true
unfolding Deliveries.is_due elem
due_open now held j [] h = ground arith
due_open now held j (d ∷ t) h = elim (Bool-cases (j == d.id)) [
  | inl e ↦
      let same : j ≡ d.id = (==_iff j d.id).0 e in
      ground (arith, due_open now held j t, ==_iff d.id j)
  | inr e ↦ ground (arith, due_open now held j t)
]

-- A row of the table that was sent is open there.
sent_open :
    (t s : List Delivery)
    → ((j : ℕ) → is_open j s ≡ true → is_open j t ≡ true)
    → all_of (λ d. not (Deliveries.is_sent d.status) || is_open d.id t) s ≡ true
sent_open t [] k = refl
sent_open t (d ∷ s) k =
    ground (arith, sent_open t s (λ j h. k j (ground arith)), k d.id, ==_iff d.id d.id)

joined :
    (q : Delivery → Bool) (db : Db) (ds : List Delivery)
    → all_of q ds ≡ true
    → all_of (λ c. q c.delivery) (join_rows db ds) ≡ true
unfolding join_rows
joined q db [] h = refl
joined q db (d ∷ ds) h = elim (Option-cases (load_context db d)) [
  | inl e ↦ rw (join_rows, e) (joined q db ds (ground arith))
  | inr (c, e) ↦ rw (join_rows, e) (ground (arith, joined q db ds))
]

candidates_open :
    (now : Moment) (t : List Delivery) (cs : List Candidate)
    → all_of (λ c. not (Deliveries.is_sent c.delivery.status) || is_open c.delivery.id t) cs ≡ true
    → all_of (λ c. is_open c.delivery.id t) (keep_if (is_candidate now) cs) ≡ true
unfolding is_candidate
candidates_open now t [] h = refl
candidates_open now t (c ∷ cs) h = ground (arith, candidates_open now t cs)

listed_open :
    (t : List Delivery) (j : ℕ) (cs : List Candidate)
    → all_of (λ c. is_open c.delivery.id t) cs ≡ true
    → elem j (map (λ c. c.delivery.id) cs) ≡ true
    → is_open j t ≡ true
unfolding elem
listed_open t j [] h e = ground arith
listed_open t j (c ∷ cs) h e = elim (Bool-cases (j == c.delivery.id)) [
  | inl f ↦ let same : j ≡ c.delivery.id = (==_iff j c.delivery.id).0 f in rw same (ground arith)
  | inr f ↦ listed_open t j cs (ground arith) (ground arith)
]

got_open :
    (j : ℕ) (t : List Delivery) (d : Delivery)
    → get Deliveries.id_of j t ≡ some d
    → is_terminal_delivery d.status ≡ false
    → is_open j t ≡ true
unfolding get
got_open j [] d h o = ground arith
got_open j (x ∷ t) d h o = elim (Bool-cases (x.id == j)) [
  | inl e ↦ ground arith
  | inr e ↦ ground (arith, got_open j t d)
]

open_reactable :
    (k : ActionKind) (d : DeliveryStatus) (o : OccurrenceStatus) (expires : Moment)
    (s : Option Moment) (now : Moment)
    → check_reactable k d o expires s now ≡ none
    → is_terminal_delivery d ≡ false
unfolding check_reactable
open_reactable k d o expires s now h = ground arith

pub claimed_open :
    (now : Moment) (lock : Duration) (batch : ℕ) (held : ℕ → Bool) (j : ℕ) (t : List Delivery)
    → elem j (Deliveries.ids (Deliveries.claim_due now lock batch held t).0) ≡ true
    → is_open j t ≡ true
claimed_open now lock batch held j t k =
    due_open now held j t
      (due_ids-is_due j now batch held t (claimed_listed j now lock batch held t k))

pub candidate_open :
    (now : Moment) (batch : ℕ) (db : Db) (j : ℕ)
    → elem j (map (λ c. c.delivery.id) (list_repeat_candidates now batch db)) ≡ true
    → is_open j db.deliveries ≡ true
unfolding list_repeat_candidates
candidate_open now batch db j k =
    let q = λ (c : Candidate). is_open c.delivery.id db.deliveries in
    let found = joined _ db db.deliveries (sent_open db.deliveries db.deliveries (λ j k. k)) in
    let due = candidates_open now db.deliveries (join_rows db db.deliveries) found in
    let listed = all_of-take q batch _ (all_of-order_by q sent_before _ due) in
    listed_open db.deliveries j _ listed k

module _ {P : Db → Type 0} {May : ℕ → Type 0} (frame : Frame P May) where
  pub claim_keeps :
      (now : Moment) (lock : Duration) (batch : ℕ) (held : ℕ → Bool) (db : Db)
      → P db
      → P (record db { deliveries = (Deliveries.claim_due now lock batch held db.deliveries).1 })
  unfolding Deliveries.claim_due
  claim_keeps now lock batch held db h =
      frame.touch db _ _ (record { id = λ d. refl; occurrence = λ d. refl; user = λ d. refl })
        (λ d. refl) h

  pub dispatcher-keeps :
      (now : Moment) (lock : Duration) (batch : ℕ) (held : ℕ → Bool) (sendings : ℕ → Sending)
      (db : Db)
      → P db
      → Holds P (deliver now lock batch held sendings db)
  unfolding deliver
  dispatcher-keeps now lock batch held sendings db h =
      deliver_all-keeps frame sendings _ _ _
        (λ j k. frame.may db j h (claimed_open now lock batch held j db.deliveries k))
        (claim_keeps now lock batch held db h)

  repeat-keeps : (now : Moment) (batch : ℕ) (db : Db) → P db → P (repeat_unanswered now batch db).0
  unfolding repeat_unanswered
  repeat-keeps now batch db h =
      repeat_each-keeps frame now _ [] db
        (λ j k. frame.may db j h (candidate_open now batch db j k)) h

  pub reaper-keeps :
      (now : Moment) (batch : ℕ) (fsm_ttl : Duration) (db : Db)
      → P db
      → P (sweep now batch fsm_ttl db).0
  unfolding sweep expire_overdue Deliveries.release_stale_locks
  reaper-keeps now batch fsm_ttl db h =
      let overdue =
        keep_if (λ o. is_overdue o.status o.expires_at now)
          (Occurrences.list_expired now batch db.occurrences) in
      let db1 = expire_each now overdue db in
      let db2 = (repeat_unanswered now batch db1).0 in
      frame.beside
        (record db2 { deliveries = (Deliveries.release_stale_locks now db2.deliveries).0 }) _
        (record { deliveries = refl; occurrences = refl; recipients = refl; next_delivery = refl })
        (frame.touch db2 (Deliveries.is_stale_lock now) _
          (record { id = λ d. refl; occurrence = λ d. refl; user = λ d. refl }) (λ d. refl)
          (repeat-keeps now batch db1 (expire_each-keeps frame now overdue db h)))

  write_keeps :
      (d : Delivery) (r : Reaction) (now : Moment) (n : ℕ) (db : Db)
      → May d.id
      → P db
      → P (write d r now n db)
  unfolding write write_fields
  write_keeps d r now n db may h =
      frame.beside
        (record db { deliveries = update Deliveries.id_of d.id (write_fields r) db.deliveries }) _
        (record { deliveries = refl; occurrences = refl; recipients = refl; next_delivery = refl })
        (frame.settle db d.id (write_fields r)
          (record { id = λ x. refl; occurrence = λ x. refl; user = λ x. refl }) may h)

  rolled_keeps : (i : ℕ) (s : Option OccurrenceStatus) (db : Db) → P db → P (set_rolled i s db)
  rolled_keeps i none db h = h
  rolled_keeps i (some status) db h = set_status-keeps frame i status db h

  close_keeps : (o : Occurrence) (r : Reaction) (db : Db) → P db → P (close_occurrence o r db)
  unfolding close_occurrence
  close_keeps o r db h = elim (Bool-cases (is_terminal r)) [
    | inl e ↦ rw e (rolled_keeps o.id _ db h)
    | inr e ↦ rw e h
  ]

  apply_keeps :
      (k : ActionKind) (d : Delivery) (o : Occurrence) (user_id : ℕ) (now : Moment) (db : Db)
      → May d.id
      → P db
      → Holds P (apply_tap k d o user_id now db)
  unfolding apply_tap
  apply_keeps k d o user_id now db may h =
      >>=-Holds P (found (get Reminders.id_of o.reminder_id db.reminders)) _ (λ r e.
        >>=-Holds P (found (get People.id_of user_id db.users)) _ (λ u e'.
          >>=-Holds P (decide_reaction k now r.snooze_minutes (quiet_hours_of u) o.expires_at) _
            (λ x e''.
              close_keeps o x (write d x now r.snooze_minutes db)
                (write_keeps d x now r.snooze_minutes db may h))))

  answer_keeps :
      (c : Option RejectReason) (k : ActionKind) (d : Delivery) (o : Occurrence) (user_id : ℕ)
      (now : Moment) (db : Db)
      → (c ≡ none → May d.id)
      → P db
      → Holds P (answer c k d o user_id now db)
  answer_keeps (some reason) k d o user_id now db may h = h
  answer_keeps none k d o user_id now db may h = apply_keeps k d o user_id now db (may refl) h

  tap_keeps :
      (k : ActionKind) (d : Delivery) (user_id : ℕ) (now : Moment) (db : Db)
      → (is_terminal_delivery d.status ≡ false → May d.id)
      → P db
      → Holds P (tap k d user_id now db)
  unfolding tap
  tap_keeps k d user_id now db may h = elim (Bool-cases (d.user_id == user_id)) [
    | inl e ↦ rw e (
        >>=-Holds P (found (get Occurrences.id_of d.occurrence_id db.occurrences)) _ (λ o e'.
          answer_keeps _ k d o user_id now db
            (λ c. may (open_reactable k d.status o.status o.expires_at d.snoozed_until now c)) h))
    | inr e ↦ rw e tt
  ]

  pub react-keeps :
      (i user_id : ℕ) (a : Action) (now : Moment) (db : Db)
      → P db
      → Holds P (react i user_id a now db)
  unfolding react
  react-keeps i user_id a now db h =
      >>=-Holds P (found (get Deliveries.id_of i db.deliveries)) _ (λ d e.
        let at = found-eq-ok (get Deliveries.id_of i db.deliveries) e in
        tap_keeps (action_kind a) d user_id now db
          (λ o. frame.may db d.id h (
            rw (get-id Deliveries.id_of i db.deliveries {r = d} at)
              (got_open i db.deliveries d at o)))
          h)
