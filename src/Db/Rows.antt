-- ===== src/Db/Rows.antt =====
-- What a table keeps under updates and deletions.
use remindo.Prelude.{
  ℕ, zero, suc, ◌≡◌, refl, Bool, true, not, List, [], ◌∷◌, ◌++◌, arith, all_of, keep_if, take,
  Bool-cases, inl, inr,
}
use remindo.Db.Table.{update_where, order_insert, order_by}
use remindo.Db.Insert.{NoClash}

module _ {A : Type 0} (q : A → Bool) where
  pub all_of-append :
      (s t : List A) → all_of q (s ++ t) ≡ true → (all_of q s ≡ true) × (all_of q t ≡ true)
  all_of-append [] t h = (refl, h)
  all_of-append (a ∷ s) t h = ground (arith, all_of-append s t)

  pub append-all_of :
      (s t : List A) → all_of q s ≡ true → all_of q t ≡ true → all_of q (s ++ t) ≡ true
  append-all_of [] t g h = h
  append-all_of (a ∷ s) t g h = ground (arith, append-all_of s t)

  -- Rows that pass a check pass it after an update that keeps the check.
  pub all_of-update_where :
      (p : A → Bool) (f : A → A)
      → ((r : A) → p r ≡ true → q r ≡ true → q (f r) ≡ true)
      → (t : List A) → all_of q t ≡ true
      → all_of q (update_where p f t) ≡ true
  unfolding update_where
  all_of-update_where p f keep [] h = refl
  all_of-update_where p f keep (r ∷ t) h = ground (arith, keep r, all_of-update_where p f keep t)

  pub all_of-keep_if :
      (p : A → Bool) (t : List A) → all_of q t ≡ true → all_of q (keep_if p t) ≡ true
  all_of-keep_if p [] h = refl
  all_of-keep_if p (r ∷ t) h = ground (arith, all_of-keep_if p t)

  pub all_of-take : (n : ℕ) (t : List A) → all_of q t ≡ true → all_of q (take n t) ≡ true
  all_of-take zero t h = refl
  all_of-take (suc n) [] h = refl
  all_of-take (suc n) (r ∷ t) h = ground (arith, all_of-take n t)

  all_of-order_insert :
      (before : A → A → Bool) (r : A) (t : List A)
      → q r ≡ true
      → all_of q t ≡ true
      → all_of q (order_insert before r t) ≡ true
  unfolding order_insert
  all_of-order_insert before r [] g h = ground arith
  all_of-order_insert before r (x ∷ t) g h = ground (arith, all_of-order_insert before r t)

  pub all_of-order_by :
      (before : A → A → Bool) (t : List A) → all_of q t ≡ true → all_of q (order_by before t) ≡ true
  unfolding order_by
  all_of-order_by before [] h = refl
  all_of-order_by before (r ∷ t) h =
      ground (arith, all_of-order_insert before r (order_by before t), all_of-order_by before t)

  -- What was kept passed the check.
  pub kept-all_of : (t : List A) → all_of q (keep_if q t) ≡ true
  kept-all_of [] = refl
  kept-all_of (r ∷ t) = ground (arith, kept-all_of t)

module _ {A : Type 0} (clash : A → A → Bool) where
  -- Rows that clash with no row of a table clash with none after an update that keeps the key.
  pub NoClash-update_where :
      (p : A → Bool) (f : A → A)
      → ((r s : A) → clash (f r) s ≡ clash r s)
      → ((r s : A) → clash r (f s) ≡ clash r s)
      → (t : List A) → NoClash clash t
      → NoClash clash (update_where p f t)
  unfolding update_where
  NoClash-update_where p f left right [] c = c
  NoClash-update_where p f left right (r ∷ t) c =
      let rest = NoClash-update_where p f left right t c.1 in
      elim (Bool-cases (p r)) [
        | inl e ↦ rw e (
          all_of-update_where (λ s. not (clash (f r) s)) p f (λ s _ h. rw (right (f r) s) h) t
              (apart r (f r) (λ s. left r s) t c.0),
          rest,
        )
        | inr e ↦
            rw e (
              all_of-update_where (λ s. not (clash r s)) p f (λ s _ h. rw (right r s) h) t c.0,
              rest,
            )
      ]
    where
      apart :
          (a b : A)
          → ((s : A) → clash b s ≡ clash a s)
          → (t : List A) → all_of (λ s. not (clash a s)) t ≡ true
          → all_of (λ s. not (clash b s)) t ≡ true
      apart a b same [] h = refl
      apart a b same (x ∷ t) h = ground (arith, same x, apart a b same t)

  pub NoClash-keep_if : (p : A → Bool) (t : List A) → NoClash clash t → NoClash clash (keep_if p t)
  NoClash-keep_if p [] c = c
  NoClash-keep_if p (r ∷ t) c = elim (Bool-cases (p r)) [
    | inl e ↦ rw e (all_of-keep_if (λ s. not (clash r s)) p t c.0, NoClash-keep_if p t c.1)
    | inr e ↦ rw e (NoClash-keep_if p t c.1)
  ]
