-- ===== src/Services/Planning/Union.antt =====
-- The planner's write as an operation on sets.
use remindo.Prelude.{
  ℕ, ◌+◌, ◌≡◌, ◌∙◌, refl, ap, Bool, true, false, ◌&&◌, ◌||◌, List, [], ◌∷◌, ◌++◌, map, arith, ◌==◌,
  elem, Bool-cases, inl, inr,
}
use remindo.Time.{Moment, Duration}
use remindo.QuietHours.{QuietHours}
use remindo.Db.{Db, Occurrence, Delivery}
use remindo.Db.Insert.{taken, insert_rows}
use remindo.Db.Occurrences
use remindo.Db.Occurrences.{NewOccurrence}
use remindo.Db.Deliveries
use remindo.Db.Deliveries.{NewDelivery}
use remindo.Db.People
use remindo.Services.Planning.{
  occurrence_row, occurrence_rows, delivery_row, delivery_rows, create_occurrences,
  create_deliveries, write_rows,
}

abbrev pub some_of : {A : Type 0} → (A → Bool) → List A → Bool
some_of p [] = false
some_of p (a ∷ t) = p a || some_of p t

some_of-append :
    {A : Type 0} (p : A → Bool) (s t : List A) → some_of p (s ++ t) ≡ (some_of p s || some_of p t)
some_of-append p [] t = refl
some_of-append p (a ∷ s) t = ground (arith, some_of-append p s t)

-- A check of the unique key sees an insert as a union.
module _ {A N : Type 0} (conflicts : N → A → Bool) (make : ℕ → N → A) (p : A → Bool) (q : N → Bool)
    (same : (n : N) (r : A) → conflicts n r ≡ true → p r ≡ q n)
    (made : (i : ℕ) (n : N) → p (make i n) ≡ q n) where
  taken_counts :
      (n : N) (t : List A) → taken conflicts make n t ≡ true → q n ≡ true → some_of p t ≡ true
  unfolding taken
  taken_counts n [] h e = ground arith
  taken_counts n (r ∷ t) h e = ground (arith, same n r, taken_counts n t)

  insert_union :
      (ns : List N) (next : ℕ) (t : List A)
      → some_of p (insert_rows conflicts make ns next t).0 ≡ (some_of p t || some_of q ns)
  unfolding insert_rows
  insert_union [] next t = ground arith
  insert_union (n ∷ ns) next t = elim (Bool-cases (taken conflicts make n t)) [
    | inl e ↦ rw e (ground (arith, insert_union ns (next + 1) t, taken_counts n t e))
    | inr e ↦ rw e (
        ground (
          arith,
          insert_union ns (next + 1) (t ++ make next n ∷ []),
          some_of-append p t (make next n ∷ []),
          made next n,
        ))
  ]

-- The moments of the reminders that are in the queue, as a set.
abbrev pub planned : Db → ℕ → Moment → Bool
planned db reminder_id m =
    some_of (λ o. (o.reminder_id == reminder_id) && (o.scheduled_for == m)) db.occurrences

-- The recipients of the occurrences, as a set.
abbrev pub addressed : Db → ℕ → ℕ → Bool
addressed db occurrence_id user_id =
    some_of (λ d. (d.occurrence_id == occurrence_id) && (d.user_id == user_id)) db.deliveries

-- The occurrences of the reminder at one of the moments.
abbrev pub among : Db → ℕ → List Moment → ℕ → Bool
among db reminder_id moments occurrence_id =
    some_of (λ o. o.id == occurrence_id)
      (Occurrences.list_for_schedule reminder_id moments db.occurrences)

rows_planned :
    (reminder_id r : ℕ) (q : QuietHours) (ttl : Duration) (m : Moment) (moments : List Moment)
    → some_of
        (λ n. (n.reminder_id == r) && (n.scheduled_for == m))
        (occurrence_rows reminder_id q ttl moments)
      ≡ ((reminder_id == r) && elem m moments)
unfolding elem occurrence_row
rows_planned reminder_id r q ttl m [] = ground arith
rows_planned reminder_id r q ttl m (x ∷ moments) =
    ground (arith, rows_planned reminder_id r q ttl m moments)

user_rows :
    (o : Occurrence) (i u : ℕ) (users : List ℕ)
    → some_of (λ n. (n.occurrence_id == i) && (n.user_id == u)) (map (delivery_row o) users)
      ≡ ((o.id == i) && elem u users)
unfolding elem
user_rows o i u [] = ground arith
user_rows o i u (x ∷ users) = ground (arith, user_rows o i u users)

rows_addressed :
    (os : List Occurrence) (i u : ℕ) (users : List ℕ)
    → some_of (λ n. (n.occurrence_id == i) && (n.user_id == u)) (delivery_rows os users)
      ≡ (some_of (λ o. o.id == i) os && elem u users)
unfolding delivery_rows
rows_addressed [] i u users = refl
rows_addressed (o ∷ os) i u users =
    some_of-append (λ n. (n.occurrence_id == i) && (n.user_id == u)) (map (delivery_row o) users)
      (delivery_rows os users)
    ∙ ground (arith, user_rows o i u users, rows_addressed os i u users)

occurrences_union :
    (reminder_id : ℕ) (quiet : QuietHours) (ttl : Duration) (moments : List Moment) (next : ℕ)
    (t : List Occurrence) (r m : ℕ)
    → some_of
        (λ o. (o.reminder_id == r) && (o.scheduled_for == m))
        (Occurrences.insert_missing (occurrence_rows reminder_id quiet ttl moments) next t).0
      ≡ (some_of (λ o. (o.reminder_id == r) && (o.scheduled_for == m)) t
          || ((reminder_id == r) && elem m moments))
unfolding Occurrences.conflicts Occurrences.new_row
occurrences_union reminder_id quiet ttl moments next t r m =
    insert_union Occurrences.conflicts Occurrences.new_row
      (λ o. (o.reminder_id == r) && (o.scheduled_for == m))
      (λ n. (n.reminder_id == r) && (n.scheduled_for == m)) (λ n o h. ground arith) (λ i n. refl)
      (occurrence_rows reminder_id quiet ttl moments) next t
    ∙ ap (λ b. some_of (λ o. (o.reminder_id == r) && (o.scheduled_for == m)) t || b)
        (rows_planned reminder_id r quiet ttl m moments)

deliveries_union :
    (os : List Occurrence) (users : List ℕ) (next : ℕ) (t : List Delivery) (i u : ℕ)
    → some_of
        (λ d. (d.occurrence_id == i) && (d.user_id == u))
        (Deliveries.insert_missing (delivery_rows os users) next t).0
      ≡ (some_of (λ d. (d.occurrence_id == i) && (d.user_id == u)) t
          || (some_of (λ o. o.id == i) os && elem u users))
unfolding Deliveries.conflicts Deliveries.new_row
deliveries_union os users next t i u =
    insert_union Deliveries.conflicts Deliveries.new_row
      (λ d. (d.occurrence_id == i) && (d.user_id == u))
      (λ n. (n.occurrence_id == i) && (n.user_id == u)) (λ n d h. ground arith) (λ k n. refl)
      (delivery_rows os users) next t
    ∙ ap (λ b. some_of (λ d. (d.occurrence_id == i) && (d.user_id == u)) t || b)
        (rows_addressed os i u users)

-- The planner's write is a union of sets, whatever rows there are before and under whatever ids. The
-- moments in the queue afterwards are those before and the ones written, and the recipients of an
-- occurrence are those before and, when it is one of the reminder at a written moment, everyone who
-- accepted.
pub write_rows-union :
    (reminder_id : ℕ) (quiet : QuietHours) (ttl : Duration) (moments : List Moment) (db : Db)
    → let after = (write_rows reminder_id quiet ttl moments db).0 in
      ((r m : ℕ) → planned after r m ≡ (planned db r m || ((reminder_id == r) && elem m moments)))
      × ((i u : ℕ)
          → addressed after i u ≡ (
              addressed db i u
              || (among after reminder_id moments i
                  && elem u (People.list_accepted_user_ids reminder_id db.recipients))))
unfolding write_rows create_occurrences create_deliveries
write_rows-union reminder_id quiet ttl moments db =
    let rows = occurrence_rows reminder_id quiet ttl moments in
    let os = (Occurrences.insert_missing rows db.next_occurrence db.occurrences).0 in
    (
      λ r m. occurrences_union reminder_id quiet ttl moments db.next_occurrence db.occurrences r m,
      λ i u.
          deliveries_union (Occurrences.list_for_schedule reminder_id moments os)
            (People.list_accepted_user_ids reminder_id db.recipients) db.next_delivery db.deliveries
            i u,
    )
