-- ===== src/Services/Dispatching/Drain.antt =====
-- A cycle with room for all of the queue leaves nothing due.
use remindo.Prelude.{
  ℕ, zero, suc, ◌≤◌, ◌<◌, ◌≡◌, ◌∙◌, refl, sym, ap, subst, Bool, true, false, not, ◌&&◌, ◌||◌,
  Option, none, some, List, [], ◌∷◌, arith, leb, ◌==◌, length, take, keep_if, elem, all_of,
  Bool-cases, inl, inr,
}
use remindo.Time.{Moment, Duration}
use remindo.Contracts.{DeliveryStatus, Result, ok}
use remindo.Dispatching.{
  AbortReason, occurrence_closed, user_blocked, context_missing, check_deliverable, decide_abort,
  decide_success, is_retry, Verdict,
}
use remindo.Dispatching.Table.{IsAfter, is_counted, decide_failure-FollowsTable}
use remindo.Db.{Db, Occurrence, Delivery}
use remindo.Db.Table.{update_where, order_by, order_insert}
use remindo.Db.Rows.{all_of-update_where}
use remindo.Db.Deliveries.{
  id_of, ids, is_due, queue_before, claim_due, due_ids, lease, lease_free, is_queued,
}
use remindo.Services.Dispatching.{
  Sending, SendReply, delivered, refused, SendContext, load_context, moment_or, verdict_fields,
  sent_fields, apply_verdict, apply_sent, send, deliver_checked, deliver_in, deliver_one,
  DispatchResult, tally, deliver_all, deliver,
}

take_all {ℓ} : {A : Type ℓ} (n : ℕ) (xs : List A) → length xs ≤ n → take n xs ≡ xs
take_all zero [] h = refl
take_all zero (x ∷ xs) h = absurd (omega arith)
take_all (suc n) [] h = refl
take_all (suc n) (x ∷ xs) h = ap (λ t. x ∷ t) (take_all n xs (omega arith))

length-order_insert :
    (d : Delivery) (t : List Delivery) → length (order_insert queue_before d t) ≡ suc (length t)
unfolding order_insert
length-order_insert d [] = refl
length-order_insert d (x ∷ t) = ground (arith, length-order_insert d t)

length-order_by : (t : List Delivery) → length (order_by queue_before t) ≡ length t
unfolding order_by
length-order_by [] = refl
length-order_by (d ∷ t) =
    length-order_insert d (order_by queue_before t) ∙ ap suc (length-order_by t)

elem-order_insert :
    (i : ℕ) (d : Delivery) (t : List Delivery)
    → elem i (ids (order_insert queue_before d t)) ≡ ((i == d.id) || elem i (ids t))
unfolding order_insert elem
elem-order_insert i d [] = refl
elem-order_insert i d (x ∷ t) = ground (arith, elem-order_insert i d t)

elem-order_by :
    (i : ℕ) (t : List Delivery) → elem i (ids (order_by queue_before t)) ≡ elem i (ids t)
unfolding order_by elem
elem-order_by i [] = refl
elem-order_by i (d ∷ t) =
    ground (arith, elem-order_insert i d (order_by queue_before t), elem-order_by i t)

-- Every row is in the list or fails the check.
abbrev Covered : List ℕ → (Delivery → Bool) → List Delivery → Type 0
Covered covered p t = all_of (λ r. elem r.id covered || not (p r)) t ≡ true

Covered-more :
    (more less : List ℕ) (p : Delivery → Bool) (t : List Delivery)
    → ((i : ℕ) → elem i less ≡ true → elem i more ≡ true)
    → Covered less p t
    → Covered more p t
Covered-more more less p [] grows h = refl
Covered-more more less p (r ∷ t) grows h =
    ground (arith, grows r.id, Covered-more more less p t grows)

kept-Covered : (p : Delivery → Bool) (t : List Delivery) → Covered (ids (keep_if p t)) p t
kept-Covered p [] = refl
kept-Covered p (r ∷ t) = elim (Bool-cases (p r)) [
  | inl e ↦
      let rest =
        Covered-more (r.id ∷ ids (keep_if p t)) (ids (keep_if p t)) p t
          (λ i h. unfold elem in ground arith) (kept-Covered p t) in
      let here : elem r.id (r.id ∷ ids (keep_if p t)) ≡ true = unfold elem in ground arith in
      let kept : keep_if p (r ∷ t) ≡ r ∷ keep_if p t = rw e refl in
      let whole : Covered (r.id ∷ ids (keep_if p t)) p (r ∷ t) = ground (arith, here, rest) in
      subst (λ k. Covered (ids k) p (r ∷ t)) (sym kept) whole
  | inr e ↦
      let kept : keep_if p (r ∷ t) ≡ keep_if p t = rw e refl in
      let whole : Covered (ids (keep_if p t)) p (r ∷ t) = ground (arith, kept-Covered p t) in
      subst (λ k. Covered (ids k) p (r ∷ t)) (sym kept) whole
]

-- The sorted list of the rows that pass covers them.
sorted-Covered :
    (p : Delivery → Bool) (t : List Delivery)
    → Covered (ids (order_by queue_before (keep_if p t))) p t
sorted-Covered p t =
    Covered-more (ids (order_by queue_before (keep_if p t))) (ids (keep_if p t)) p t
      (λ i h. elem-order_by i (keep_if p t) ∙ h) (kept-Covered p t)

module _ (now : Moment) (lock : Duration) (batch : ℕ) (held : ℕ → Bool) where
  -- With room for all, a row that is due is claimed.
  due_ids-Covered :
      (t : List Delivery)
      → length (keep_if (is_due now held) t) ≤ batch
      → Covered (due_ids now batch held t) (is_due now held) t
  unfolding due_ids
  due_ids-Covered t h =
      let queue = order_by queue_before (keep_if (is_due now held) t) in
      let whole : take batch queue ≡ queue =
        take_all batch queue (omega (arith, length-order_by (keep_if (is_due now held) t))) in
      subst (λ l. Covered (ids l) (is_due now held) t) (sym whole)
        (sorted-Covered (is_due now held) t)

  -- After the claim, every row that is still due is in hand.
  claim-Covered :
      (t : List Delivery)
      → length (keep_if (is_due now held) t) ≤ batch
      → let claimed = claim_due now lock batch held t in
        Covered (ids claimed.0) (is_due now held) claimed.1
  unfolding claim_due
  claim-Covered t h =
      let due = due_ids now batch held t in
      let after = update_where (λ d. elem d.id due) (lease now lock) t in
      let known : all_of (λ r. elem r.id due || not (is_due now held r)) after ≡ true =
        all_of-update_where (λ r. elem r.id due || not (is_due now held r)) (λ d. elem d.id due)
          (lease now lock) (λ r e k. ground (arith, e)) t (due_ids-Covered t h) in
      both due (ids (order_by queue_before (keep_if (λ d. elem d.id due) after))) after known
        (sorted-Covered (λ d. elem d.id due) after)
    where
      both :
          (due covered : List ℕ) (s : List Delivery)
          → Covered due (is_due now held) s
          → Covered covered (λ d. elem d.id due) s
          → Covered covered (is_due now held) s
      both due covered [] h k = refl
      both due covered (r ∷ s) h k = ground (arith, both due covered s)

-- A status that is counted and no retry is out of the queue, and a retry comes later.
not_due :
    (now : Moment) (s : DeliveryStatus) (next : Moment) (free : Bool)
    → is_counted s ≡ true
    → (s ≡ DeliveryStatus.pending → now < next)
    → (is_queued s && (leb next now && free)) ≡ false
not_due now DeliveryStatus.pending next free c later =
    let after : now < next = later refl in
    let passed : leb next now ≡ false = ground arith in rw passed refl
not_due now DeliveryStatus.sent next free c later = refl
not_due now DeliveryStatus.failed next free c later = refl
not_due now DeliveryStatus.blocked next free c later = refl
not_due now DeliveryStatus.done next free c later = cc
not_due now DeliveryStatus.skipped next free c later = cc
not_due now DeliveryStatus.snoozed next free c later = cc

retry_later :
    (now at : Moment) (m : Option Moment) (old : Moment)
    → now ≤ at
    → IsAfter at m
    → elim m [ none ↦ false | some m' ↦ true ] ≡ true
    → now < moment_or m old
retry_later now at none old le a h = ground arith
retry_later now at (some m) old le a h = ground arith

-- A delivery is out of the way: its rows are due no more.
module _ (now : Moment) (held : ℕ → Bool) where
  -- One row fewer in hand.
  settle_rows :
      (i : ℕ) (rest : List ℕ) (f : Delivery → Delivery) (t : List Delivery)
      → ((r : Delivery) → is_due now held (f r) ≡ false)
      → Covered (i ∷ rest) (is_due now held) t
      → Covered rest (is_due now held) (update_where (λ r. id_of r == i) f t)
  unfolding update_where elem
  settle_rows i rest f [] out h = refl
  settle_rows i rest f (r ∷ t) out h = elim (Bool-cases (id_of r == i)) [
    | inl e ↦ rw e (ground (arith, out r, settle_rows i rest f t out))
    | inr e ↦ rw e (ground (arith, settle_rows i rest f t out))
  ]

  -- What a verdict that is counted, and no retry for now, leaves.
  verdict_drains :
      (d : Delivery) (rest : List ℕ) (v : Verdict) (db : Db)
      → is_counted v.status ≡ true
      → (v.status ≡ DeliveryStatus.pending → (old : Moment) → now < moment_or v.next_attempt_at old)
      → Covered (d.id ∷ rest) (is_due now held) db.deliveries
      → Covered rest (is_due now held) (apply_verdict d v db).deliveries
  unfolding apply_verdict
  verdict_drains d rest v db counted later h =
      settle_rows d.id rest (verdict_fields v) db.deliveries
        (λ r.
          unfold is_due in
          unfold verdict_fields in
          not_due now v.status (moment_or v.next_attempt_at r.next_attempt_at)
            (lease_free now none && not (held r.id)) counted (λ e. later e r.next_attempt_at))
        h

  abort_drains :
      (reason : AbortReason) (d : Delivery) (rest : List ℕ) (db : Db)
      → Covered (d.id ∷ rest) (is_due now held) db.deliveries
      → Covered rest
          (is_due now held)
          (apply_verdict d (decide_abort reason d.attempts) db).deliveries
  abort_drains occurrence_closed d rest db h =
      verdict_drains d rest (decide_abort occurrence_closed d.attempts) db
        (unfold decide_abort in refl) (λ e old. unfold decide_abort in cc) h
  abort_drains user_blocked d rest db h =
      verdict_drains d rest (decide_abort user_blocked d.attempts) db (unfold decide_abort in refl)
        (λ e old. unfold decide_abort in cc) h
  abort_drains context_missing d rest db h =
      verdict_drains d rest (decide_abort context_missing d.attempts) db
        (unfold decide_abort in refl) (λ e old. unfold decide_abort in cc) h

  -- A step ends and takes its delivery out of the way.
  abbrev Drains : Delivery → List ℕ → Result (DeliveryStatus × Db) → Type 0
  Drains d rest r =
      (status : DeliveryStatus) × (db' : Db) × (r ≡ ok (status, db'))
      × Covered rest (is_due now held) db'.deliveries

  module _ (d : Delivery) (rest : List ℕ) (db : Db)
      (h : Covered (d.id ∷ rest) (is_due now held) db.deliveries) where
    sent_drains :
        (o : Occurrence) (message_id : ℕ) (at : Moment)
        → Covered rest (is_due now held) (apply_sent d o message_id at db).deliveries
    unfolding apply_sent
    sent_drains o message_id at =
        settle_rows d.id rest (sent_fields decide_success message_id at) db.deliveries
          (λ r. unfold is_due in unfold sent_fields in unfold decide_success in refl) h

    send-Drains :
        (o : Occurrence) (reply : SendReply) (at : Moment)
        → now ≤ at
        → Drains d rest (send d o reply at db)
    unfolding send is_retry
    send-Drains o (delivered message_id) at le = (_, _, refl, sent_drains o message_id at)
    send-Drains o (refused c code after) at le =
        let (v, e, t) = decide_failure-FollowsTable d.attempts c at code after in
        let again : v.status ≡ DeliveryStatus.pending
            → (old : Moment) → now < moment_or v.next_attempt_at old =
          λ q old. retry_later now at v.next_attempt_at old le t.later (t.again.1 (t.queued.0 q)) in
        (v.status, apply_verdict d v db, rw e refl, verdict_drains d rest v db t.counted again h)

    checked-Drains :
        (reason : Option AbortReason) (c : SendContext) (s : Sending)
        → now ≤ s.at
        → Drains d rest (deliver_checked reason d c s db)
    unfolding deliver_checked
    checked-Drains none c s le = send-Drains c.occurrence s.reply s.at le
    checked-Drains (some reason) c s le = (_, _, refl, abort_drains reason d rest db h)

    in-Drains :
        (c : Option SendContext) (s : Sending) → now ≤ s.at → Drains d rest (deliver_in d c s db)
    unfolding deliver_in
    in-Drains none s le = (_, _, refl, abort_drains context_missing d rest db h)
    in-Drains (some c) s le =
        checked-Drains (check_deliverable c.occurrence.status c.user.is_blocked) c s le

    one-Drains : (s : Sending) → now ≤ s.at → Drains d rest (deliver_one d s db)
    unfolding deliver_one
    one-Drains s le = in-Drains (load_context db d) s le

  all_drain :
      (sendings : ℕ → Sending) (ds : List Delivery) (db : Db) (r : DispatchResult)
      → ((i : ℕ) → now ≤ (sendings i).at)
      → Covered (ids ds) (is_due now held) db.deliveries
      → (r' : DispatchResult) × (db' : Db) × (deliver_all sendings ds db r ≡ ok (r', db'))
        × Covered [] (is_due now held) db'.deliveries
  unfolding deliver_all
  all_drain sendings [] db r le h = (r, db, refl, h)
  all_drain sendings (d ∷ ds) db r le h =
      let (status, db', e, c) = one-Drains d (ids ds) db h (sendings d.id) (le d.id) in
      let (r', db'', f, k) = all_drain sendings ds db' (tally status r) le c in
      (r', db'', rw e f, k)

only_left :
    (p : Delivery → Bool) (t : List Delivery) → Covered [] p t → all_of (λ d. not (p d)) t ≡ true
unfolding elem
only_left p [] h = refl
only_left p (d ∷ t) h = ground (arith, only_left p t)

-- A dispatcher cycle whose batch has room for every delivery that is due ends, and leaves none of
-- them due: each was sent, given up, or put off to a moment after the start of the cycle. (Deliveries
-- that another claim holds are not counted as due; the clock does not run backwards.)
pub deliver_drains :
    (now : Moment) (lock : Duration) (batch : ℕ) (held : ℕ → Bool) (sendings : ℕ → Sending)
    (db : Db)
    → length (keep_if (is_due now held) db.deliveries) ≤ batch
    → ((i : ℕ) → now ≤ (sendings i).at)
    → (r : DispatchResult) × (db' : Db) × (deliver now lock batch held sendings db ≡ ok (r, db'))
      × (all_of (λ d. not (is_due now held d)) db'.deliveries ≡ true)
unfolding deliver
deliver_drains now lock batch held sendings db room forward =
    let (claimed, t) = claim_due now lock batch held db.deliveries in
    let (r, db', e, c) =
      all_drain now held sendings claimed (record db { deliveries = t })
        (record { claimed = length claimed; sent = 0; retried = 0; failed = 0; blocked = 0 })
        forward (claim-Covered now lock batch held db.deliveries room) in
    (r, db', e, only_left (is_due now held) db'.deliveries c)
