-- ===== src/Services/Reactions/Once.antt =====
-- An applied tap is applied once: what the rows hold after it, and how later taps are answered.
use remindo.Prelude.{
  ℕ, ◌≡◌, ◌≢◌, refl, inl, inr, true, false, Option, none, some, List, ◌==◌, arith, Bool-cases,
}
use remindo.Time.{Moment}
use remindo.Contracts.{
  DeliveryStatus, OccurrenceStatus, ActionKind, done, snooze, skip, ok, is_terminal_delivery,
}
use remindo.QuietHours.{QuietHours}
use remindo.Reactions.{
  RejectReason, already_handled, Reaction, check_reactable, decide_reaction, is_terminal,
  roll_up_occurrence,
}
use remindo.Db.{Db, Occurrence, Delivery}
use remindo.Db.Table.{get, get-update, get-id}
use remindo.Db.Deliveries
use remindo.Db.Occurrences
use remindo.Services.Reactions.{
  Action, action_kind, ReactionResult, react, tap, write, write_fields, close_occurrence,
  set_rolled,
}
use remindo.Services.Reactions.Tap.{react-Applied}

deliveries-close_occurrence :
    (o : Occurrence) (r : Reaction) (db : Db) → (close_occurrence o r db).deliveries ≡ db.deliveries
unfolding close_occurrence roll_up_occurrence
deliveries-close_occurrence o r db = ground arith

-- The delivery's row holds what the reaction writes.
row_after :
    (i : ℕ) (d : Delivery) (o : Occurrence) (r : Reaction) (now : Moment) (n : ℕ) (db : Db)
    → get Deliveries.id_of i db.deliveries ≡ some d
    → get Deliveries.id_of i (close_occurrence o r (write d r now n db)).deliveries
      ≡ some (write_fields r d)
row_after i d o r now n db h = rw (deliveries-close_occurrence o r (write d r now n db)) (
    unfold write in
    ground (
      arith,
      get-id Deliveries.id_of i db.deliveries h,
      get-update Deliveries.id_of d.id i (write_fields r) db.deliveries
          (λ _. unfold write_fields in refl),
    ))

set_status_found :
    (j k : ℕ) (status : OccurrenceStatus) (t : List Occurrence) (o : Occurrence)
    → get Occurrences.id_of j t ≡ some o
    → (o' : Occurrence) × (get Occurrences.id_of j (Occurrences.set_status k status t) ≡ some o')
unfolding Occurrences.set_status
set_status_found j k status t o h = elim (Bool-cases (k == j)) [
  | inl e ↦ (
    record o { status = status },
    ground
        (arith, get-update Occurrences.id_of k j (λ x. record x { status = status }) t (λ _. refl)),
  )
  | inr e ↦ (
    o,
    ground
        (arith, get-update Occurrences.id_of k j (λ x. record x { status = status }) t (λ _. refl)),
  )
]

set_rolled_found :
    (j k : ℕ) (status : Option OccurrenceStatus) (db : Db) (o : Occurrence)
    → get Occurrences.id_of j db.occurrences ≡ some o
    → (o' : Occurrence) × (get Occurrences.id_of j (set_rolled k status db).occurrences ≡ some o')
set_rolled_found j k none db o h = (o, h)
set_rolled_found j k (some status) db o h = set_status_found j k status db.occurrences o h

-- No occurrence is lost.
occurrence_after :
    (j : ℕ) (d : Delivery) (o o' : Occurrence) (r : Reaction) (now : Moment) (n : ℕ) (db : Db)
    → get Occurrences.id_of j db.occurrences ≡ some o'
    → (o'' : Occurrence) × (get Occurrences.id_of j
          (close_occurrence o r (write d r now n db)).occurrences
        ≡ some o'')
unfolding close_occurrence
occurrence_after j d o o' r now n db h = elim (Bool-cases (is_terminal r)) [
  | inl e ↦ rw e (set_rolled_found j o.id _ (write d r now n db) o' (unfold write in h))
  | inr e ↦ rw e (o', unfold write in h)
]

-- The answer to a tap that changes nothing.
abbrev pub refused : ActionKind → DeliveryStatus → RejectReason → ReactionResult
refused k status reason = record {
  applied = false;
  kind = k;
  status = status;
  snoozed_until = none;
  reason = some reason;
}

rejected :
    (i u : ℕ) (b : Action) (later : Moment) (db : Db) (d : Delivery) (o : Occurrence)
    (reason : RejectReason)
    → get Deliveries.id_of i db.deliveries ≡ some d
    → d.user_id ≡ u
    → get Occurrences.id_of d.occurrence_id db.occurrences ≡ some o
    → check_reactable (action_kind b) d.status o.status o.expires_at d.snoozed_until later
      ≡ some reason
    → react i u b later db ≡ ok (refused (action_kind b) d.status reason, db)
unfolding react tap
rejected i u b later db d o reason hd hu ho hc =
    let own : d.user_id == u ≡ true = ground arith in rw (hd, own, ho, hc)

-- What the row says after an applied tap of any kind is a final answer, or a snooze.
applied_status :
    (k : ActionKind) (now n : ℕ) (q : QuietHours) (expires : Moment) (r : Reaction)
    → k ≢ snooze
    → decide_reaction k now n q expires ≡ ok r
    → is_terminal_delivery r.status ≡ true
unfolding decide_reaction
applied_status done now n q expires r ne h = ground arith
applied_status skip now n q expires r ne h = ground arith
applied_status snooze now n q expires r ne h = absurd (ne refl)
applied_status ActionKind.auto_expire now n q expires r ne h = ground arith

terminal_handled :
    (k : ActionKind) (d : DeliveryStatus) (o : OccurrenceStatus) (expires : Moment)
    (s : Option Moment) (now : Moment)
    → is_terminal_delivery d ≡ true
    → check_reactable k d o expires s now ≡ some already_handled
unfolding check_reactable
terminal_handled k d o expires s now h = rw h

-- Once `done` or `skip` was applied, no later tap of that user on the delivery writes anything,
-- whichever button it presses: it is answered with `already_handled` and the database is unchanged.
pub answered_for_good :
    (i u : ℕ) (a b : Action) (now later : Moment) (db : Db) (res : ReactionResult) (db' : Db)
    → action_kind a ≢ snooze
    → react i u a now db ≡ ok (res, db')
    → res.applied ≡ true
    → react i u b later db' ≡ ok (refused (action_kind b) res.status already_handled, db')
unfolding write_fields
answered_for_good i u a b now later db res db' ne h applied =
    let x = react-Applied i u a now db res db' h applied in
    after x.delivery x.occurrence x.reaction x.snooze_minutes x.quiet x.was_delivery x.was_owner
      x.was_occurrence x.decided x.result x.after
  where
    after :
        (d : Delivery) (o : Occurrence) (r : Reaction) (n : ℕ) (q : QuietHours)
        → get Deliveries.id_of i db.deliveries ≡ some d
        → d.user_id ≡ u
        → get Occurrences.id_of d.occurrence_id db.occurrences ≡ some o
        → decide_reaction (action_kind a) now n q o.expires_at ≡ ok r
        → res.status ≡ r.status
        → db' ≡ close_occurrence o r (write d r now n db)
        → react i u b later db' ≡ ok (refused (action_kind b) res.status already_handled, db')
    after d o r n q hd hu ho e hr hdb =
        let (o'', ho'') = occurrence_after d.occurrence_id d o o r now n db ho in
        rw (hdb, hr)
          (rejected i u b later (close_occurrence o r (write d r now n db)) (write_fields r d) o''
            already_handled (row_after i d o r now n db hd) hu ho''
            (terminal_handled (action_kind b) r.status _ _ _ later
              (applied_status (action_kind a) now n q o.expires_at r ne e)))
