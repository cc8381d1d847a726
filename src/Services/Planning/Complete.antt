-- ===== src/Services/Planning/Complete.antt =====
-- Nobody is left out: the planner's rows reach every recipient.
use remindo.Prelude.{
  ℕ, ◌≡◌, refl, Bool, true, false, ◌&&◌, ◌||◌, List, [], ◌∷◌, map, arith, all_of, ◌==◌, elem,
  keep_if, Bool-cases, inl, inr, ==_iff,
}
use remindo.Time.{Moment, Duration}
use remindo.QuietHours.{QuietHours}
use remindo.Db.{Db, Occurrence, Delivery}
use remindo.Db.Insert.{taken, insert_takes}
use remindo.Db.Rows.{all_of-append}
use remindo.Db.Occurrences
use remindo.Db.Occurrences.{NewOccurrence}
use remindo.Db.Deliveries
use remindo.Db.Deliveries.{NewDelivery}
use remindo.Db.People
use remindo.Services.Planning.{
  occurrence_row, occurrence_rows, delivery_row, delivery_rows, create_occurrences,
  create_deliveries, write_rows,
}
use remindo.Services.Planning.Rows.{occurrence_own, delivery_own}

abbrev any_of : {A : Type 0} → (A → Bool) → List A → Bool
any_of p [] = false
any_of p (a ∷ t) = p a || any_of p t

abbrev is_firing : ℕ → Moment → Occurrence → Bool
is_firing reminder_id m o = (o.reminder_id == reminder_id) && (o.scheduled_for == m)

-- The user has a delivery of the occurrence.
abbrev gets : ℕ → List Delivery → Occurrence → Bool
gets user_id ds o = any_of (λ d. (d.occurrence_id == o.id) && (d.user_id == user_id)) ds

-- The moment of the reminder is in the queue, and the user has a delivery of it.
abbrev pub is_reached : ℕ → Moment → ℕ → Db → Bool
is_reached reminder_id m user_id db =
    any_of (λ o. is_firing reminder_id m o && gets user_id db.deliveries o) db.occurrences

module _ {A : Type 0} (c c' p : A → Bool) (wider : (a : A) → c a ≡ true → c' a ≡ true) where
  any_kept :
      (t : List A)
      → any_of c t ≡ true
      → all_of p (keep_if c' t) ≡ true
      → any_of (λ a. c a && p a) t ≡ true
  any_kept [] h k = h
  any_kept (a ∷ t) h k = ground (arith, wider a, any_kept t)

all_of-map :
    {A : Type 0} (p : A → Bool) (f : ℕ → A) (t : List ℕ) (n : ℕ)
    → all_of p (map f t) ≡ true
    → elem n t ≡ true
    → p (f n) ≡ true
unfolding elem
all_of-map p f [] n h e = ground arith
all_of-map p f (a ∷ t) n h e = elim (Bool-cases (n == a)) [
  | inl same ↦ let same' : n ≡ a = (==_iff n a).0 same in rw same' (ground arith)
  | inr apart ↦ all_of-map p f t n (ground arith) (ground arith)
]

-- A check that all rows pass is passed by the row of each occurrence and each user.
rows_cover :
    (p : NewDelivery → Bool) (os : List Occurrence) (us : List ℕ) (u : ℕ)
    → all_of p (delivery_rows os us) ≡ true
    → elem u us ≡ true
    → all_of (λ o. p (delivery_row o u)) os ≡ true
unfolding delivery_rows
rows_cover p [] us u h e = refl
rows_cover p (o ∷ os) us u h e =
    let (here, there) = all_of-append p (map (delivery_row o) us) (delivery_rows os us) h in
    ground (arith, all_of-map p (delivery_row o) us u here e, rows_cover p os us u there e)

firing_kept :
    (reminder_id : ℕ) (moments : List Moment) (m : Moment)
    → elem m moments ≡ true
    → (o : Occurrence) → is_firing reminder_id m o ≡ true
    → ((o.reminder_id == reminder_id) && elem o.scheduled_for moments) ≡ true
firing_kept reminder_id moments m h o f =
    let same : o.scheduled_for ≡ m = (==_iff o.scheduled_for m).0 (ground arith) in
    rw same (ground arith)

found_firing :
    (reminder_id : ℕ) (q : QuietHours) (ttl : Duration) (m : Moment) (os : List Occurrence)
    → taken Occurrences.conflicts Occurrences.new_row (occurrence_row reminder_id q ttl m) os ≡ true
    → any_of (is_firing reminder_id m) os ≡ true
unfolding taken Occurrences.conflicts occurrence_row
found_firing reminder_id q ttl m [] h = h
found_firing reminder_id q ttl m (o ∷ os) h = ground (arith, found_firing reminder_id q ttl m os)

found_delivery :
    (user_id : ℕ) (o : Occurrence) (ds : List Delivery)
    → taken Deliveries.conflicts Deliveries.new_row (delivery_row o user_id) ds ≡ gets user_id ds o
unfolding taken Deliveries.conflicts
found_delivery user_id o [] = refl
found_delivery user_id o (d ∷ ds) = ground (arith, found_delivery user_id o ds)

all_of_each :
    (user_id : ℕ) (ds : List Delivery) (os : List Occurrence)
    → all_of (λ o. taken Deliveries.conflicts Deliveries.new_row (delivery_row o user_id) ds) os
      ≡ true
    → all_of (gets user_id ds) os ≡ true
all_of_each user_id ds [] h = refl
all_of_each user_id ds (o ∷ os) h =
    ground (arith, found_delivery user_id o ds, all_of_each user_id ds os)

-- After the planner's write, each of its moments is in the queue, and every recipient who accepted
-- has a delivery of it, whatever rows there were before.
pub write_rows_complete :
    (reminder_id : ℕ) (q : QuietHours) (ttl : Duration) (moments : List Moment) (db : Db)
    (m user_id : ℕ)
    → elem m moments ≡ true
    → elem user_id (People.list_accepted_user_ids reminder_id db.recipients) ≡ true
    → is_reached reminder_id m user_id (write_rows reminder_id q ttl moments db).0 ≡ true
unfolding write_rows create_occurrences create_deliveries
write_rows_complete reminder_id q ttl moments db m user_id hm hu =
    let rows = occurrence_rows reminder_id q ttl moments in
    let os = (Occurrences.insert_missing rows db.next_occurrence db.occurrences).0 in
    let firings = Occurrences.list_for_schedule reminder_id moments os in
    let users = People.list_accepted_user_ids reminder_id db.recipients in
    let news = delivery_rows firings users in
    let ds = (Deliveries.insert_missing news db.next_delivery db.deliveries).0 in
    let queued =
      all_of-map (λ n. taken Occurrences.conflicts Occurrences.new_row n os)
        (occurrence_row reminder_id q ttl) moments m
        (insert_takes Occurrences.conflicts Occurrences.new_row occurrence_own rows
          db.next_occurrence db.occurrences)
        hm in
    let sent =
      rows_cover (λ n. taken Deliveries.conflicts Deliveries.new_row n ds) firings users user_id
        (insert_takes Deliveries.conflicts Deliveries.new_row delivery_own news db.next_delivery
          db.deliveries)
        hu in
    any_kept (is_firing reminder_id m)
      (λ o. (o.reminder_id == reminder_id) && elem o.scheduled_for moments) (gets user_id ds)
      (firing_kept reminder_id moments m hm) os (found_firing reminder_id q ttl m os queued)
      (unfold Occurrences.list_for_schedule in
        all_of_each user_id ds _ (unfold Occurrences.list_for_schedule in sent))
