-- ===== src/Db/Deliveries/Claim.antt =====
-- A lease keeps a delivery to one worker.
use remindo.Prelude.{
  ℕ, ◌+◌, ◌≤◌, ◌≡◌, refl, Bool, true, false, ◌&&◌, ◌||◌, List, [], ◌∷◌, ◌==◌, take, keep_if, elem,
  arith, zero, suc, Bool-cases, inl, inr,
}
use remindo.Time.{Moment, Duration}
use remindo.Db.{Delivery}
use remindo.Db.Table.{update_where, order_insert, order_by}
use remindo.Db.Deliveries.{ids, is_due, queue_before, lease, due_ids, claim_due}

elem-order_insert :
    (i : ℕ) (r : Delivery) (t : List Delivery)
    → elem i (ids (order_insert queue_before r t)) ≡ ((i == r.id) || elem i (ids t))
unfolding elem order_insert
elem-order_insert i r [] = refl
elem-order_insert i r (x ∷ t) = elim (Bool-cases (queue_before x r)) [
  | inl e ↦ rw e (ground (arith, elem-order_insert i r t))
  | inr e ↦ rw e refl
]

elem-order_by :
    (i : ℕ) (t : List Delivery) → elem i (ids (order_by queue_before t)) ≡ elem i (ids t)
unfolding elem order_by
elem-order_by i [] = refl
elem-order_by i (r ∷ t) =
    ground (arith, elem-order_insert i r (order_by queue_before t), elem-order_by i t)

elem-kept :
    (i : ℕ) (p : Delivery → Bool) (r : Delivery) (t : List Delivery)
    → elem i (ids (keep_if p (r ∷ t))) ≡ ((p r && (i == r.id)) || elem i (ids (keep_if p t)))
unfolding elem
elem-kept i p r t = elim (Bool-cases (p r)) [ inl e ↦ rw e | inr e ↦ rw e ]

elem-ids_listed :
    (i : ℕ) (listed : List ℕ) (t : List Delivery)
    → elem i (ids (keep_if (λ d. elem d.id listed) t)) ≡ true
    → elem i listed ≡ true
elem-ids_listed i listed [] h = unfold elem in ground arith
elem-ids_listed i listed (r ∷ t) h =
    ground (arith, elem-kept i (λ d. elem d.id listed) r t, elem-ids_listed i listed t)

lease_holds :
    (now later : Moment) (lock : Duration) (held : ℕ → Bool) (r : Delivery)
    → later ≤ now + lock
    → is_due later held (lease now lock r) ≡ false
unfolding is_due
lease_holds now later lock held r h = ground arith

leased_not_due :
    (i now later : ℕ) (lock : Duration) (held : ℕ → Bool) (listed : List ℕ) (t : List Delivery)
    → later ≤ now + lock
    → elem i listed ≡ true
    → elem i (
        ids (keep_if (is_due later held) (update_where (λ d. elem d.id listed) (lease now lock) t)))
      ≡ false
unfolding update_where
leased_not_due i now later lock held listed [] h e = unfold elem in refl
leased_not_due i now later lock held listed (r ∷ t) h e = elim (Bool-cases (elem r.id listed)) [
  | inl l ↦
      rw
        (
          l,
          elem-kept i (is_due later held) (lease now lock r) _,
          lease_holds now later lock held r h,
        )
        (leased_not_due i now later lock held listed t h e)
  | inr l ↦
      rw (l, elem-kept i (is_due later held) r _)
        (ground (arith, leased_not_due i now later lock held listed t h e))
]

elem-ids-take :
    (i n : ℕ) (t : List Delivery) → elem i (ids (take n t)) ≡ true → elem i (ids t) ≡ true
unfolding elem
elem-ids-take i zero t h = ground arith
elem-ids-take i (suc n) [] h = h
elem-ids-take i (suc n) (r ∷ t) h = ground (arith, elem-ids-take i n t)

pub due_ids-is_due :
    (i now batch : ℕ) (held : ℕ → Bool) (t : List Delivery)
    → elem i (due_ids now batch held t) ≡ true
    → elem i (ids (keep_if (is_due now held) t)) ≡ true
unfolding due_ids
due_ids-is_due i now batch held t h = ground (
  arith,
  elem-ids-take i batch (order_by queue_before (keep_if (is_due now held) t)),
  elem-order_by i (keep_if (is_due now held) t),
)

pub claimed_listed :
    (i now : ℕ) (lock : Duration) (batch : ℕ) (held : ℕ → Bool) (t : List Delivery)
    → elem i (ids (claim_due now lock batch held t).0) ≡ true
    → elem i (due_ids now batch held t) ≡ true
unfolding claim_due
claimed_listed i now lock batch held t h =
    let due = due_ids now batch held t in elem-ids_listed i due _ (rw (elem-order_by i _) at h)

-- As long as a lease lasts, no later claim takes the row again, whatever batch it asks for.
pub claim_due_exclusive :
    (i now later : ℕ) (lock lock' : Duration) (batch batch' : ℕ) (held held' : ℕ → Bool)
    (t : List Delivery)
    → later ≤ now + lock
    → elem i (ids (claim_due now lock batch held t).0) ≡ true
    → elem i (ids (claim_due later lock' batch' held' (claim_due now lock batch held t).1).0)
      ≡ false
claim_due_exclusive i now later lock lock' batch batch' held held' t h c =
    let t' = (claim_due now lock batch held t).1 in
    let free : elem i (ids (keep_if (is_due later held') t')) ≡ false =
      unfold claim_due in
      leased_not_due i now later lock held' (due_ids now batch held t) t h
        (claimed_listed i now lock batch held t c) in
    ground (
      arith,
      free,
      claimed_listed i later lock' batch' held' t',
      due_ids-is_due i later batch' held' t',
    )
