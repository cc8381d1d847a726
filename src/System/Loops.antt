-- ===== src/System/Loops.antt =====
-- The loops of the worker's jobs keep what their writes keep.
use remindo.Prelude.{
  ℕ, ◌≡◌, refl, true, Option, none, some, List, [], ◌∷◌, ◌==◌, elem, map, subst, arith, Bool-cases,
  Option-cases, inl, inr,
}
use remindo.Time.{Moment}
use remindo.Contracts.{OccurrenceStatus}
use remindo.Dispatching.{
  AbortReason, Verdict, check_deliverable, decide_abort, decide_failure, decide_success,
}
use remindo.Sweeping.{RepeatPlan}
use remindo.Db.{Db, Occurrence, Delivery}
use remindo.Db.Table.{update}
use remindo.Db.Deliveries
use remindo.Db.Occurrences
use remindo.Services.Dispatching.{
  Sending, SendReply, delivered, refused, SendContext, load_context, verdict_fields, sent_fields,
  apply_verdict, apply_sent, is_sendable, send, deliver_checked, deliver_in, deliver_one,
  DispatchResult, tally, deliver_all,
}
use remindo.Services.Reaper.{
  Candidate, expire_one, expire_each, repeat_of, requeue, queue_repeat, bump, repeat_each,
}
use remindo.System.Frame.{KeepsDelivery, KeepsOccurrence, Frame, Holds, >>=-Holds}

verdict-Keeps : (v : Verdict) → KeepsDelivery (verdict_fields v)
unfolding verdict_fields
verdict-Keeps v = record { id = λ d. refl; occurrence = λ d. refl; user = λ d. refl }

sent-Keeps : (v : Verdict) (m now : ℕ) → KeepsDelivery (sent_fields v m now)
unfolding sent_fields
sent-Keeps v m now = record { id = λ d. refl; occurrence = λ d. refl; user = λ d. refl }

pub status-Keeps : (status : OccurrenceStatus) → KeepsOccurrence (λ o. record o { status = status })
status-Keeps status = record { reminder = λ o. refl; moment = λ o. refl }

module _ {P : Db → Type 0} {May : ℕ → Type 0} (frame : Frame P May) where
  pub set_status-keeps :
      (i : ℕ) (status : OccurrenceStatus) (db : Db)
      → P db
      → P (record db { occurrences = Occurrences.set_status i status db.occurrences })
  unfolding Occurrences.set_status
  set_status-keeps i status db h =
      frame.touch_firing db (λ o. o.id == i) (λ o. record o { status = status })
        (status-Keeps status) h

  verdict_keeps :
      (d : Delivery) (v : Verdict) (db : Db) → May d.id → P db → P (apply_verdict d v db)
  unfolding apply_verdict
  verdict_keeps d v db m h =
      frame.beside
        (record db { deliveries = update Deliveries.id_of d.id (verdict_fields v) db.deliveries }) _
        (record { deliveries = refl; occurrences = refl; recipients = refl; next_delivery = refl })
        (frame.settle db d.id (verdict_fields v) (verdict-Keeps v) m h)

  sent_keeps :
      (d : Delivery) (o : Occurrence) (m now : ℕ) (db : Db)
      → May d.id
      → P db
      → P (apply_sent d o m now db)
  unfolding apply_sent
  sent_keeps d o m now db may h =
      let sent = sent_fields decide_success m now in
      let db' : Db = record db { deliveries = update Deliveries.id_of d.id sent db.deliveries } in
      let h' = frame.settle db d.id sent (sent-Keeps decide_success m now) may h in
      elim (Bool-cases (is_sendable o.status)) [
        | inl e ↦ rw e (set_status-keeps o.id OccurrenceStatus.sent db' h')
        | inr e ↦ rw e h'
      ]

  send_keeps :
      (d : Delivery) (o : Occurrence) (r : SendReply) (now : Moment) (db : Db)
      → May d.id
      → P db
      → Holds P (send d o r now db)
  unfolding send
  send_keeps d o (delivered m) now db may h = sent_keeps d o m now db may h
  send_keeps d o (refused c code t) now db may h =
      >>=-Holds P (decide_failure d.attempts c now code t) _ (λ v e. verdict_keeps d v db may h)

  checked_keeps :
      (r : Option AbortReason) (d : Delivery) (c : SendContext) (s : Sending) (db : Db)
      → May d.id
      → P db
      → Holds P (deliver_checked r d c s db)
  unfolding deliver_checked
  checked_keeps (some reason) d c s db may h =
      verdict_keeps d (decide_abort reason d.attempts) db may h
  checked_keeps none d c s db may h = send_keeps d c.occurrence s.reply s.at db may h

  pub in_keeps :
      (d : Delivery) (c : Option SendContext) (s : Sending) (db : Db)
      → May d.id
      → P db
      → Holds P (deliver_in d c s db)
  unfolding deliver_in
  in_keeps d none s db may h = verdict_keeps d _ db may h
  in_keeps d (some c) s db may h =
      checked_keeps (check_deliverable c.occurrence.status c.user.is_blocked) d c s db may h

  one_keeps :
      (d : Delivery) (s : Sending) (db : Db) → May d.id → P db → Holds P (deliver_one d s db)
  unfolding deliver_one
  one_keeps d s db may h = in_keeps d (load_context db d) s db may h

  pub deliver_all-keeps :
      (sendings : ℕ → Sending) (ds : List Delivery) (db : Db) (r : DispatchResult)
      → ((j : ℕ) → elem j (Deliveries.ids ds) ≡ true → May j)
      → P db
      → Holds P (deliver_all sendings ds db r)
  unfolding deliver_all elem
  deliver_all-keeps sendings [] db r may h = h
  deliver_all-keeps sendings (d ∷ ds) db r may h =
      >>=-Holds P (deliver_one d (sendings d.id) db) _ (λ x e.
        deliver_all-keeps sendings ds x.1 (tally x.0 r) (λ j k. may j (ground arith))
          (subst (Holds P) e (one_keeps d (sendings d.id) db (may d.id (ground arith)) h)))

  pub expire_each-keeps :
      (now : Moment) (os : List Occurrence) (db : Db) → P db → P (expire_each now os db)
  unfolding expire_each expire_one
  expire_each-keeps now [] db h = h
  expire_each-keeps now (o ∷ os) db h = expire_each-keeps now os (expire_one now o db) (
      frame.beside
        (record db {
          occurrences = Occurrences.set_status o.id OccurrenceStatus.expired db.occurrences;
        })
        _
        (record { deliveries = refl; occurrences = refl; recipients = refl; next_delivery = refl })
        (set_status-keeps o.id OccurrenceStatus.expired db h))

  requeue_keeps :
      (i : ℕ) (next : Moment) (db : Db)
      → May i
      → P db
      → P (record db { deliveries = requeue i next db.deliveries })
  unfolding requeue
  requeue_keeps i next db may h =
      frame.settle db i _ (record { id = λ d. refl; occurrence = λ d. refl; user = λ d. refl }) may
        h

  pub repeat_keeps :
      (c : Candidate) (p : RepeatPlan) (bumped : List ℕ) (db : Db)
      → May c.delivery.id
      → P db
      → P (queue_repeat c p bumped db)
  unfolding queue_repeat Occurrences.bump_repeats
  repeat_keeps c p bumped db may h =
      let db' : Db = record db {
        deliveries = requeue c.delivery.id p.next_attempt_at db.deliveries;
      } in
      let h' = requeue_keeps c.delivery.id p.next_attempt_at db may h in
      elim (Bool-cases (elem c.context.occurrence.id bumped)) [
        | inl e ↦ rw e h'
        | inr e ↦ rw e (
            frame.touch_firing db' (λ o. o.id == c.context.occurrence.id) _
              (record { reminder = λ o. refl; moment = λ o. refl }) h')
      ]

  pub repeat_each-keeps :
      (now : Moment) (cs : List Candidate) (bumped : List ℕ) (db : Db)
      → ((j : ℕ) → elem j (map (λ c. c.delivery.id) cs) ≡ true → May j)
      → P db
      → P (repeat_each now cs bumped db).0
  unfolding repeat_each elem
  repeat_each-keeps now [] bumped db may h = h
  repeat_each-keeps now (c ∷ cs) bumped db may h = elim (Option-cases (repeat_of now c)) [
    | inl e ↦
        rw (repeat_each, e) (repeat_each-keeps now cs bumped db (λ j k. may j (ground arith)) h)
    | inr (p, e) ↦
        rw (repeat_each, e)
          (repeat_each-keeps now cs (bump c.context.occurrence.id bumped)
            (queue_repeat c p bumped db) (λ j k. may j (ground arith))
            (repeat_keeps c p bumped db (may c.delivery.id (ground arith)) h))
  ]
