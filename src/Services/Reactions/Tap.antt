-- ===== src/Services/Reactions/Tap.antt =====
-- A tap that was applied, taken apart; and that it is applied once.
use remindo.Prelude.{
  ℕ, ◌≡◌, refl, sym, ◌∙◌, ap, inl, inr, true, Option, none, some, ◌==◌, arith, Bool-cases, ==_iff,
}
use mathlib.Core.Bool.{false≢true}
use remindo.Time.{Moment}
use remindo.QuietHours.{QuietHours}
use remindo.Contracts.{Result, ok, >>=-eq-ok, ok-injective}
use remindo.Reactions.{RejectReason, Reaction, check_reactable, decide_reaction}
use remindo.Db.{Db, Occurrence, Delivery}
use remindo.Db.Table.{get}
use remindo.Db.Deliveries
use remindo.Db.Occurrences
use remindo.Db.Reminders
use remindo.Db.People
use remindo.Services.Reactions.{
  Action, action_kind, ReactionResult, found, tap, react, answer, apply_tap, write,
  close_occurrence, quiet_hours_of,
}

pub found-eq-ok {ℓ} : {A : Type ℓ} (o : Option A) {a : A} → found o ≡ ok a → o ≡ some a
found-eq-ok none h = cc
found-eq-ok (some b) h = cc

-- What an applied tap went through.
pub record Applied (i u : ℕ) (a : Action) (now : Moment) (db : Db) (res : ReactionResult) (db' : Db)
    : Type 0 where
  pub delivery : Delivery
  pub occurrence : Occurrence
  pub snooze_minutes : ℕ
  pub quiet : QuietHours
  pub reaction : Reaction
  pub was_delivery : get Deliveries.id_of i db.deliveries ≡ some delivery
  pub was_owner : delivery.user_id ≡ u
  pub was_occurrence : get Occurrences.id_of delivery.occurrence_id db.occurrences ≡ some occurrence
  pub was_open :
      check_reactable
        (action_kind a)
        delivery.status
        occurrence.status
        occurrence.expires_at
        delivery.snoozed_until
        now
      ≡ none
  pub decided :
      decide_reaction (action_kind a) now snooze_minutes quiet occurrence.expires_at ≡ ok reaction
  pub result : res.status ≡ reaction.status
  pub after :
      db' ≡ close_occurrence occurrence reaction (write delivery reaction now snooze_minutes db)

abbrev applied_result : Reaction → ReactionResult
applied_result r = record {
  applied = true;
  kind = r.kind;
  status = r.status;
  snoozed_until = r.snoozed_until;
  reason = none;
}

module _ (i u : ℕ) (a : Action) (now : Moment) (db : Db) (res : ReactionResult) (db' : Db)
    (d : Delivery) (o : Occurrence) (hd : get Deliveries.id_of i db.deliveries ≡ some d)
    (hu : d.user_id ≡ u) (ho : get Occurrences.id_of d.occurrence_id db.occurrences ≡ some o)
    (open_tap : check_reactable (action_kind a) d.status o.status o.expires_at d.snoozed_until now
      ≡ none) where
  decided-Applied :
      (n : ℕ) (q : QuietHours) (r : Reaction)
      → decide_reaction (action_kind a) now n q o.expires_at ≡ ok r
      → ◌≡◌ {A = Result (ReactionResult × Db)}
          (ok (applied_result r, close_occurrence o r (write d r now n db)))
          (ok (res, db'))
      → Applied i u a now db res db'
  decided-Applied n q r e h = record {
    delivery = d;
    occurrence = o;
    snooze_minutes = n;
    quiet = q;
    reaction = r;
    was_delivery = hd;
    was_owner = hu;
    was_occurrence = ho;
    was_open = open_tap;
    decided = e;
    result = ap (λ (p : ReactionResult × Db). p.0.status) (sym (ok-injective h));
    after = ap (λ (p : ReactionResult × Db). p.1) (sym (ok-injective h));
  }

  apply_tap-Applied :
      apply_tap (action_kind a) d o u now db ≡ ok (res, db') → Applied i u a now db res db'
  unfolding apply_tap
  apply_tap-Applied h =
      let (rem, _, h1) = >>=-eq-ok (found (get Reminders.id_of o.reminder_id db.reminders)) _ h in
      let (usr, _, h2) = >>=-eq-ok (found (get People.id_of u db.users)) _ h1 in
      let (r, e, h3) =
        >>=-eq-ok
          (decide_reaction (action_kind a) now rem.snooze_minutes (quiet_hours_of usr) o.expires_at)
          _ h2 in
      decided-Applied rem.snooze_minutes (quiet_hours_of usr) r e h3

answer-Applied :
    (i u : ℕ) (a : Action) (now : Moment) (db : Db) (res : ReactionResult) (db' : Db) (d : Delivery)
    (o : Occurrence)
    → get Deliveries.id_of i db.deliveries ≡ some d
    → d.user_id ≡ u
    → get Occurrences.id_of d.occurrence_id db.occurrences ≡ some o
    → (reason : Option RejectReason)
    → check_reactable (action_kind a) d.status o.status o.expires_at d.snoozed_until now ≡ reason
    → answer reason (action_kind a) d o u now db ≡ ok (res, db')
    → res.applied ≡ true
    → Applied i u a now db res db'
answer-Applied i u a now db res db' d o hd hu ho none e h applied =
    apply_tap-Applied i u a now db res db' d o hd hu ho e h
answer-Applied i u a now db res db' d o hd hu ho (some reason) e h applied =
    absurd (false≢true (ap (λ (p : ReactionResult × Db). p.0.applied) (ok-injective h) ∙ applied))

tap-Applied :
    (i u : ℕ) (a : Action) (now : Moment) (db : Db) (res : ReactionResult) (db' : Db) (d : Delivery)
    → get Deliveries.id_of i db.deliveries ≡ some d
    → tap (action_kind a) d u now db ≡ ok (res, db')
    → res.applied ≡ true
    → Applied i u a now db res db'
unfolding tap
tap-Applied i u a now db res db' d hd h applied = elim (Bool-cases (d.user_id == u)) [
  | inl own ↦
      let h0 = rw own at h in
      let (o, ho, h1) =
        >>=-eq-ok (found (get Occurrences.id_of d.occurrence_id db.occurrences)) _ h0 in
      answer-Applied i u a now db res db' d o hd ((==_iff d.user_id u).0 own) (found-eq-ok _ ho) _
        refl h1 applied
  | inr other ↦ ground arith
]

-- A tap that reports that it was applied found an open delivery of the user's own and wrote the
-- reaction that the domain decided.
pub react-Applied :
    (i u : ℕ) (a : Action) (now : Moment) (db : Db) (res : ReactionResult) (db' : Db)
    → react i u a now db ≡ ok (res, db')
    → res.applied ≡ true
    → Applied i u a now db res db'
unfolding react
react-Applied i u a now db res db' h applied =
    let (d, hd, h1) = >>=-eq-ok (found (get Deliveries.id_of i db.deliveries)) _ h in
    tap-Applied i u a now db res db' d (found-eq-ok _ hd) h1 applied
