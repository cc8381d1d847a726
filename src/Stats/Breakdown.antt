-- ===== src/Stats/Breakdown.antt =====
-- The breakdown by category against the summary of everything.
use remindo.Prelude.{
  ℕ, ◌+◌, ◌≡◌, ◌∙◌, refl, sym, ap, subst, Bool, true, false, ◌&&◌, List, [], ◌∷◌, map, arith, ◌==◌,
  if◌then◌else◌, length, keep_if, all_of, elem, set_of, sorted, sorted_insert, Distinct, Ascending,
  set_of-Distinct, elem-set_of, sorted-Ascending, Bool-cases, ==_iff, inl, inr,
}
use remindo.Time.{Moment}
use remindo.Time.Zone.{Zone}
use remindo.Stats.{
  ActionRecord, is_done, is_outcome, in_period, period, measure_of, category_entry, breakdown,
  build_summary,
}

-- The sum of a count over the entries of a list.
abbrev pub sum_map {ℓ} : {A : Type ℓ} → (A → ℕ) → List A → ℕ
sum_map f [] = 0
sum_map f (x ∷ xs) = f x + sum_map f xs

abbrev count {ℓ} : {A : Type ℓ} → (A → Bool) → List A → ℕ
count p xs = sum_map (λ x. if p x then 1 else 0) xs

module _ {ℓ} {A : Type ℓ} where
  length-keep_if : (p : A → Bool) (xs : List A) → length (keep_if p xs) ≡ count p xs
  length-keep_if p [] = refl
  length-keep_if p (x ∷ xs) = ground (arith, length-keep_if p xs)

  count-keep_if :
      (p q : A → Bool) (xs : List A) → count p (keep_if q xs) ≡ count (λ x. q x && p x) xs
  count-keep_if p q [] = refl
  count-keep_if p q (x ∷ xs) = elim (Bool-cases (q x)) [
    | inl e ↦ rw e (ap (λ n. (if p x then 1 else 0) + n) (count-keep_if p q xs))
    | inr e ↦ rw e (omega (arith, count-keep_if p q xs))
  ]

  sum_map-add :
      (f g : A → ℕ) (xs : List A) → sum_map (λ x. f x + g x) xs ≡ sum_map f xs + sum_map g xs
  sum_map-add f g [] = refl
  sum_map-add f g (x ∷ xs) = omega (arith, sum_map-add f g xs)

sum_map-sorted_insert :
    (f : ℕ → ℕ) (x : ℕ) (s : List ℕ) → sum_map f (sorted_insert x s) ≡ f x + sum_map f s
unfolding sorted_insert
sum_map-sorted_insert f x [] = refl
sum_map-sorted_insert f x (y ∷ s) = ground (arith, sum_map-sorted_insert f x s)

sum_map-sorted : (f : ℕ → ℕ) (s : List ℕ) → sum_map f (sorted s) ≡ sum_map f s
unfolding sorted
sum_map-sorted f [] = refl
sum_map-sorted f (x ∷ s) = omega (arith, sum_map-sorted_insert f x (sorted s), sum_map-sorted f s)

sum_map-map :
    {A : Type 0} (f : A → ℕ) (g : ℕ → A) (xs : List ℕ)
    → sum_map f (map g xs) ≡ sum_map (λ x. f (g x)) xs
sum_map-map f g [] = refl
sum_map-map f g (x ∷ xs) = omega (arith, sum_map-map f g xs)

sum_map-ext : (f g : ℕ → ℕ) (xs : List ℕ) → ((x : ℕ) → f x ≡ g x) → sum_map f xs ≡ sum_map g xs
sum_map-ext f g [] h = refl
sum_map-ext f g (x ∷ xs) h = omega (arith, h x, sum_map-ext f g xs h)

sum_map-zero : (xs : List ℕ) → sum_map (λ c. 0) xs ≡ 0
sum_map-zero [] = refl
sum_map-zero (x ∷ xs) = omega (arith, sum_map-zero xs)

-- Of the members of a set, one at most is `x`.
sum_map-pick :
    (x k : ℕ) (s : List ℕ)
    → Distinct s
    → sum_map (λ c. if x == c then k else 0) s ≡ (if elem x s then k else 0)
unfolding elem
sum_map-pick x k [] d = refl
sum_map-pick x k (y ∷ s) d = elim (Bool-cases (x == y)) [
  | inl e ↦
      let same : x ≡ y = (==_iff x y).0 e in
      let out : elem x s ≡ false = rw same d.0 in rw e (ground (arith, sum_map-pick x k s))
  | inr e ↦ rw e (omega (arith, sum_map-pick x k s d.1))
]

-- The records of each category of a set that has them all, counted apart.
count_by :
    (p : ActionRecord → Bool) (s : List ℕ) (outcomes : List ActionRecord)
    → Distinct s
    → all_of (λ r. elem r.category_id s) outcomes ≡ true
    → sum_map (λ c. count p (keep_if (λ r. r.category_id == c) outcomes)) s ≡ count p outcomes
count_by p s [] d h = sum_map-zero s
count_by p s (r ∷ outcomes) d h =
    let k : ℕ = (if p r then 1 else 0) in
    let rest : ℕ → ℕ = λ c. count p (keep_if (λ q. q.category_id == c) outcomes) in
    let one : (c : ℕ)
        → count p (keep_if (λ q. q.category_id == c) (r ∷ outcomes))
          ≡ (if r.category_id == c then k else 0) + rest c =
      λ c. elim (Bool-cases (r.category_id == c)) [
        | inl e ↦ rw e refl
        | inr e ↦ rw e (omega arith)
      ] in
    let split =
      sum_map-ext (λ c. count p (keep_if (λ q. q.category_id == c) (r ∷ outcomes)))
        (λ c. (if r.category_id == c then k else 0) + rest c) s one
      ∙ sum_map-add (λ c. if r.category_id == c then k else 0) rest s in
    let own : sum_map (λ c. if r.category_id == c then k else 0) s ≡ k =
      sum_map-pick r.category_id k s d ∙ ground arith in
    let others : sum_map rest s ≡ count p outcomes = count_by p s outcomes d (ground arith) in
    split ∙ omega (arith, own, others)

elem-ids_of :
    (s : List ℕ) (outcomes : List ActionRecord)
    → ((r : ℕ) → elem r (map (λ q. q.category_id) outcomes) ≡ true → elem r s ≡ true)
    → all_of (λ r. elem r.category_id s) outcomes ≡ true
unfolding elem
elem-ids_of s [] h = refl
elem-ids_of s (r ∷ outcomes) h =
    let here : elem r.category_id s ≡ true = h r.category_id (ground arith) in
    rw here (elem-ids_of s outcomes (λ x e. h x (ground arith)))

sum_by_category :
    (p : ActionRecord → Bool) (outcomes : List ActionRecord)
    → sum_map
        (λ c. count p (keep_if (λ r. r.category_id == c) outcomes))
        (sorted (set_of (map (λ r. r.category_id) outcomes)))
      ≡ count p outcomes
sum_by_category p outcomes =
    let ids = map (λ r. r.category_id) outcomes in
    sum_map-sorted (λ c. count p (keep_if (λ r. r.category_id == c) outcomes)) (set_of ids)
    ∙ count_by p (set_of ids) outcomes (set_of-Distinct ids)
        (elem-ids_of (set_of ids) outcomes (λ x e. elem-set_of x ids ∙ e))

period-total :
    (records : List ActionRecord) (now : Moment) (days : ℕ)
    → (period records now days).total ≡ count (in_period now days) records
unfolding period
period-total records now days = length-keep_if (in_period now days) records

period-completed :
    (records : List ActionRecord) (now : Moment) (days : ℕ)
    → (period records now days).completed
      ≡ count (λ r. in_period now days r && is_done r.kind) records
unfolding period
period-completed records now days =
    length-keep_if (λ r. is_done r.kind) (keep_if (in_period now days) records)
    ∙ count-keep_if (λ r. is_done r.kind) (in_period now days) records

-- A count over the categories of a set of outcomes, one after the other.
sum_by :
    (f : List ActionRecord → ℕ) (p : ActionRecord → Bool) (outcomes : List ActionRecord)
    → ((rs : List ActionRecord) → f rs ≡ count p rs)
    → sum_map
        (λ c. f (keep_if (λ r. r.category_id == c) outcomes))
        (sorted (set_of (map (λ r. r.category_id) outcomes)))
      ≡ f outcomes
sum_by f p outcomes h =
    sum_map-ext (λ c. f (keep_if (λ r. r.category_id == c) outcomes))
      (λ c. count p (keep_if (λ r. r.category_id == c) outcomes))
      (sorted (set_of (map (λ r. r.category_id) outcomes)))
      (λ c. h (keep_if (λ r. r.category_id == c) outcomes))
    ∙ sum_by_category p outcomes
    ∙ sym (h outcomes)

module _ (outcomes : List ActionRecord) (z : Zone) (now : Moment) where
  total_7 :
      sum_map (λ e. e.measure.last_7_days.total) (breakdown outcomes z now)
      ≡ (measure_of outcomes z now).last_7_days.total
  unfolding breakdown category_entry measure_of
  total_7 =
      sum_map-map (λ e. e.measure.last_7_days.total) (category_entry outcomes z now)
        (sorted (set_of (map (λ r. r.category_id) outcomes)))
      ∙ sum_by (λ rs. (period rs now 7).total) (in_period now 7) outcomes
          (λ rs. period-total rs now 7)

  total_30 :
      sum_map (λ e. e.measure.last_30_days.total) (breakdown outcomes z now)
      ≡ (measure_of outcomes z now).last_30_days.total
  unfolding breakdown category_entry measure_of
  total_30 =
      sum_map-map (λ e. e.measure.last_30_days.total) (category_entry outcomes z now)
        (sorted (set_of (map (λ r. r.category_id) outcomes)))
      ∙ sum_by (λ rs. (period rs now 30).total) (in_period now 30) outcomes
          (λ rs. period-total rs now 30)

  completed_7 :
      sum_map (λ e. e.measure.last_7_days.completed) (breakdown outcomes z now)
      ≡ (measure_of outcomes z now).last_7_days.completed
  unfolding breakdown category_entry measure_of
  completed_7 =
      sum_map-map (λ e. e.measure.last_7_days.completed) (category_entry outcomes z now)
        (sorted (set_of (map (λ r. r.category_id) outcomes)))
      ∙ sum_by (λ rs. (period rs now 7).completed) (λ r. in_period now 7 r && is_done r.kind)
          outcomes (λ rs. period-completed rs now 7)

  completed_30 :
      sum_map (λ e. e.measure.last_30_days.completed) (breakdown outcomes z now)
      ≡ (measure_of outcomes z now).last_30_days.completed
  unfolding breakdown category_entry measure_of
  completed_30 =
      sum_map-map (λ e. e.measure.last_30_days.completed) (category_entry outcomes z now)
        (sorted (set_of (map (λ r. r.category_id) outcomes)))
      ∙ sum_by (λ rs. (period rs now 30).completed) (λ r. in_period now 30 r && is_done r.kind)
          outcomes (λ rs. period-completed rs now 30)

  entry_ids :
      map (λ e. e.category_id) (breakdown outcomes z now)
      ≡ sorted (set_of (map (λ r. r.category_id) outcomes))
  unfolding breakdown category_entry
  entry_ids = ids-entries (sorted (set_of (map (λ r. r.category_id) outcomes)))
    where
      ids-entries :
          (cs : List ℕ) → map (λ e. e.category_id) (map (category_entry outcomes z now) cs) ≡ cs
      ids-entries [] = refl
      ids-entries (c ∷ cs) = ap (λ l. c ∷ l) (ids-entries cs)

-- The entries of a summary by category add up to the summary: in both windows the outcomes and the
-- completed ones of all categories together are those of the whole. The categories ascend, so none
-- has two entries.
pub by_category_partition :
    (records : List ActionRecord) (z : Zone) (now : Moment)
    → let s = build_summary records z now in
      (sum_map (λ e. e.measure.last_7_days.total) s.by_category ≡ s.measure.last_7_days.total)
      × (sum_map (λ e. e.measure.last_7_days.completed) s.by_category
          ≡ s.measure.last_7_days.completed)
      × (sum_map (λ e. e.measure.last_30_days.total) s.by_category ≡ s.measure.last_30_days.total)
      × (sum_map (λ e. e.measure.last_30_days.completed) s.by_category
          ≡ s.measure.last_30_days.completed)
      × Ascending (map (λ e. e.category_id) s.by_category)
unfolding build_summary
by_category_partition records z now =
    let outcomes = keep_if (λ r. is_outcome r.kind) records in
    let ids = set_of (map (λ r. r.category_id) outcomes) in
    let ascending : Ascending (sorted ids) =
      sorted-Ascending ids (set_of-Distinct (map (λ r. r.category_id) outcomes)) in
    (
      total_7 outcomes z now,
      completed_7 outcomes z now,
      total_30 outcomes z now,
      completed_30 outcomes z now,
      subst Ascending (sym (entry_ids outcomes z now)) ascending,
    )
