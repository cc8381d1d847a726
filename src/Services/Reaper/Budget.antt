-- ===== src/Services/Reaper/Budget.antt =====
-- What one sweep costs an occurrence, and the locks that it leaves.
use remindo.Prelude.{
  ℕ, ◌+◌, ◌≤◌, ◌≡◌, refl, ◌∙◌, Bool, true, false, Option, none, some, List, [], ◌∷◌, arith, ◌==◌,
  if◌then◌else◌, keep_if, elem, Bool-cases, ==_iff, Option-cases, inl, inr, ap,
}
use mathlib.Core.Option
use remindo.Time.{Moment, Duration}
use remindo.Contracts.{OccurrenceStatus}
use remindo.Sweeping.{is_overdue, RepeatPlan}
use remindo.Db.{Db, Occurrence, Delivery}
use remindo.Db.Table.{get, update_where, get-update}
use remindo.Db.Deliveries
use remindo.Db.Occurrences
use remindo.Services.Reaper.{
  Candidate, expire_one, expire_each, expire_overdue, repeat_of, queue_repeat, bump, repeat_each,
  repeat_unanswered, sweep, list_repeat_candidates,
}

abbrev repeats_in : Option Occurrence → ℕ
repeats_in none = 0
repeats_in (some o) = o.repeats_sent

-- The repeats sent for an occurrence; 0 if there is none under the id.
abbrev pub repeats_of : ℕ → List Occurrence → ℕ
repeats_of i t = repeats_in (get Occurrences.id_of i t)

abbrev once_more : Occurrence → Occurrence
once_more o = record o { repeats_sent = o.repeats_sent + 1 }

bumped_row :
    (b : Bool) (o : Option Occurrence)
    → repeats_in (if b then Option.map once_more o else o) ≤ repeats_in o + (if b then 1 else 0)
bumped_row true none = omega arith
bumped_row true (some o) = omega arith
bumped_row false o = omega arith

bump-repeats_of :
    (i j : ℕ) (t : List Occurrence)
    → repeats_of j (Occurrences.bump_repeats i t) ≤ repeats_of j t + (if i == j then 1 else 0)
unfolding Occurrences.bump_repeats
bump-repeats_of i j t =
    let row : get Occurrences.id_of j (Occurrences.bump_repeats i t) ≡ (
        if i == j
        then Option.map once_more (get Occurrences.id_of j t)
        else get Occurrences.id_of j t) =
      get-update Occurrences.id_of i j once_more t (λ _. refl) in
    rw (ap repeats_in row) (bumped_row (i == j) (get Occurrences.id_of j t))

-- What the rest of the sweep may still cost.
abbrev allowance : ℕ → List ℕ → ℕ
allowance j bumped = if elem j bumped then 0 else 1

one-repeats_of :
    (j : ℕ) (c : Candidate) (p : RepeatPlan) (bumped : List ℕ) (db : Db)
    → repeats_of j (queue_repeat c p bumped db).occurrences
        + allowance j (bump c.context.occurrence.id bumped)
      ≤ repeats_of j db.occurrences + allowance j bumped
unfolding queue_repeat bump elem
one-repeats_of j c p bumped db =
    let i = c.context.occurrence.id in
    elim (Bool-cases (elem i bumped)) [
      | inl e ↦ rw e (omega arith)
      | inr e ↦ rw e (elim (Bool-cases (i == j)) [
        | inl f ↦
            let same : i ≡ j = (==_iff i j).0 f in
            ground (arith, bump-repeats_of i j db.occurrences)
        | inr f ↦ ground (arith, bump-repeats_of i j db.occurrences, ==_iff i j, ==_iff j i)
      ])
    ]

each-repeats_of :
    (now : Moment) (j : ℕ) (cs : List Candidate) (bumped : List ℕ) (db : Db)
    → repeats_of j (repeat_each now cs bumped db).0.occurrences
      ≤ repeats_of j db.occurrences + allowance j bumped
unfolding repeat_each
each-repeats_of now j [] bumped db = omega arith
each-repeats_of now j (c ∷ cs) bumped db = elim (Option-cases (repeat_of now c)) [
  | inl e ↦ rw (repeat_each, e) (each-repeats_of now j cs bumped db)
  | inr (p, e) ↦
      rw (repeat_each, e)
        (ground (
          arith,
          one-repeats_of j c p bumped db,
          each-repeats_of now j cs (bump c.context.occurrence.id bumped)
              (queue_repeat c p bumped db),
        ))
]

closed_row :
    (b : Bool) (status : OccurrenceStatus) (o : Option Occurrence)
    → repeats_in (
        if b
        then Option.map {A = Occurrence} {B = Occurrence} (λ x. record x { status = status }) o
        else o)
      ≡ repeats_in o
closed_row true status none = refl
closed_row true status (some o) = refl
closed_row false status o = refl

id_kept :
    (i j : ℕ) (status : OccurrenceStatus) (t : List Occurrence)
    → repeats_of j (Occurrences.set_status i status t) ≡ repeats_of j t
unfolding Occurrences.set_status
id_kept i j status t =
    ap repeats_in
      (get-update Occurrences.id_of i j (λ o. record o { status = status }) t (λ _. refl))
    ∙ closed_row (i == j) status (get Occurrences.id_of j t)

expire-repeats_of :
    (now : Moment) (j : ℕ) (os : List Occurrence) (db : Db)
    → repeats_of j (expire_each now os db).occurrences ≡ repeats_of j db.occurrences
unfolding expire_each expire_one
expire-repeats_of now j [] db = refl
expire-repeats_of now j (o ∷ os) db =
    expire-repeats_of now j os (expire_one now o db)
    ∙ id_kept o.id j OccurrenceStatus.expired db.occurrences

stale_gone :
    (now : Moment) (t : List Delivery)
    → keep_if (Deliveries.is_stale_lock now) (Deliveries.release_stale_locks now t).0 ≡ []
unfolding Deliveries.release_stale_locks Deliveries.is_stale_lock update_where
stale_gone now [] = refl
stale_gone now (d ∷ t) = ground (arith, stale_gone now t)

-- One sweep costs an occurrence one repeat at most, however many of its recipients are reminded
-- again, and after it no delivery in the queue has a lock that has run out.
pub sweep_budget :
    (now : Moment) (batch : ℕ) (fsm_ttl : Duration) (db : Db)
    → ((j : ℕ)
        → repeats_of j (sweep now batch fsm_ttl db).0.occurrences ≤ repeats_of j db.occurrences + 1)
      × (keep_if (Deliveries.is_stale_lock now) (sweep now batch fsm_ttl db).0.deliveries ≡ [])
unfolding sweep repeat_unanswered expire_overdue
sweep_budget now batch fsm_ttl db =
    let db1 = (expire_overdue now batch db).0 in
    let overdue =
      keep_if (λ o. is_overdue o.status o.expires_at now)
        (Occurrences.list_expired now batch db.occurrences) in
    let cs = list_repeat_candidates now batch db1 in
    (
      λ j. ground (arith, each-repeats_of now j cs [] db1, expire-repeats_of now j overdue db),
      stale_gone now (repeat_each now cs [] db1).0.deliveries,
    )
