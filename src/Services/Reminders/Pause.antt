-- ===== src/Services/Reminders/Pause.antt =====
-- What a pause leaves of the queue.
use remindo.Prelude.{
  ℕ, ◌≡◌, refl, Bool, true, false, not, ◌&&◌, List, [], ◌∷◌, map, arith, elem, keep_if, ◌==◌,
  ==_iff, Bool-cases, inl, inr,
}
use remindo.Db.{Db, Reminder, Occurrence, Delivery}
use remindo.Db.Occurrences
use remindo.Db.Reminders
use remindo.Time.{Moment}
use remindo.Services.Reminders.{drop_queued}

gone_unanswered :
    (reminder_id : ℕ) (ds : List Delivery) (i : ℕ) (os : List Occurrence)
    → elem i (map Occurrences.id_of (keep_if (Occurrences.is_unsent reminder_id ds) os)) ≡ true
    → Occurrences.is_answered i ds ≡ false
unfolding elem Occurrences.is_unsent
gone_unanswered reminder_id ds i [] h = ground arith
gone_unanswered reminder_id ds i (o ∷ os) h = elim (Bool-cases (i == o.id)) [
  | inl e ↦
      let same : i ≡ o.id = (==_iff i o.id).0 e in
      ground (arith, gone_unanswered reminder_id ds i os)
  | inr e ↦ ground (arith, gone_unanswered reminder_id ds i os)
]

answered_kept :
    (gone : List ℕ) (i : ℕ) (ds : List Delivery)
    → elem i gone ≡ false
    → Occurrences.is_answered i (keep_if (λ d. not (elem d.occurrence_id gone)) ds)
      ≡ Occurrences.is_answered i ds
unfolding Occurrences.is_answered
answered_kept gone i [] h = refl
answered_kept gone i (d ∷ ds) h = elim (Bool-cases (d.occurrence_id == i)) [
  | inl e ↦
      let same : d.occurrence_id ≡ i = (==_iff d.occurrence_id i).0 e in
      ground (arith, answered_kept gone i ds)
  | inr e ↦ ground (arith, answered_kept gone i ds)
]

module _ (reminder_id : ℕ) (ds : List Delivery) (gone : List ℕ)
    (unanswered : (i : ℕ) → elem i gone ≡ true → Occurrences.is_answered i ds ≡ false) where
  none_unsent :
      (os : List Occurrence)
      → keep_if
          (Occurrences.is_unsent reminder_id (keep_if (λ d. not (elem d.occurrence_id gone)) ds))
          (keep_if (λ o. not (Occurrences.is_unsent reminder_id ds o)) os)
        ≡ []
  unfolding Occurrences.is_unsent
  none_unsent [] = refl
  none_unsent (o ∷ os) = elim (Bool-cases (elem o.id gone)) [
    | inl e ↦ ground (arith, none_unsent os, unanswered o.id e)
    | inr e ↦ ground (arith, none_unsent os, answered_kept gone o.id ds e)
  ]

pub drop_unsent :
    (r : Reminder) (db : Db)
    → keep_if
        (Occurrences.is_unsent r.id (drop_queued r db).deliveries)
        (drop_queued r db).occurrences
      ≡ []
unfolding drop_queued Occurrences.delete_unsent
drop_unsent r db =
    let gone =
      map Occurrences.id_of (keep_if (Occurrences.is_unsent r.id db.deliveries) db.occurrences) in
    none_unsent r.id db.deliveries gone
      (λ i h. gone_unanswered r.id db.deliveries i db.occurrences h) db.occurrences

-- The planner takes up the reminder.
abbrev pub is_planned : ℕ → Moment → Reminder → Bool
is_planned reminder_id horizon_end r =
    (r.id == reminder_id) && Reminders.is_due_for_planning horizon_end r
