-- ===== src/Db/Insert.antt =====
-- INSERT ... ON CONFLICT DO NOTHING, for any table: `conflicts n r` says that the new row `n` has the
-- unique key of the row `r`, and `make i n` is the row that `n` becomes under the id `i`.
use remindo.Prelude.{
  ℕ, ◌+◌, ◌≡◌, refl, Bool, true, false, not, ◌||◌, List, [], ◌∷◌, ◌++◌, arith, all_of,
  if◌then◌else◌, Bool-cases, inl, inr,
}

module _ {A N : Type 0} (conflicts : N → A → Bool) (make : ℕ → N → A) where
  -- The key of the new row is taken.
  unfoldable pub taken : N → List A → Bool
  taken n [] = false
  taken n (r ∷ t) = conflicts n r || taken n t

  -- The table with the rows that went in, under ids from `next` on, and how many they are. Python
  -- sends all rows in one statement; a row that conflicts with one before it is skipped as well.
  unfoldable pub insert_rows : List N → ℕ → List A → List A × ℕ
  insert_rows [] next t = (t, 0)
  insert_rows (n ∷ ns) next t =
      let (u, k) = insert_rows ns (next + 1) (if taken n t then t else t ++ make next n ∷ []) in
      (u, if taken n t then k else k + 1)

  taken-append : (n : N) (s t : List A) → taken n (s ++ t) ≡ (taken n s || taken n t)
  unfolding taken
  taken-append n [] t = refl
  taken-append n (r ∷ s) t = ground (arith, taken-append n s t)

  -- A key that is taken stays taken.
  taken_stays :
      (n : N) (ns : List N) (next : ℕ) (t : List A)
      → taken n t ≡ true
      → taken n (insert_rows ns next t).0 ≡ true
  unfolding insert_rows
  taken_stays n [] next t h = h
  taken_stays n (m ∷ ns) next t h =
      taken_stays n ns (next + 1) (if taken m t then t else t ++ make next m ∷ [])
        (ground (arith, taken-append n t (make next m ∷ [])))

  head_taken :
      ((i : ℕ) (n : N) → conflicts n (make i n) ≡ true)
      → (n : N) (next : ℕ) (t : List A)
      → taken n (if taken n t then t else t ++ make next n ∷ []) ≡ true
  head_taken own n next t = elim (Bool-cases (taken n t)) [
    | inl e ↦ rw e e
    | inr e ↦
        rw (e, taken-append n t (make next n ∷ []), e) (unfold taken in ground (arith, own next n))
  ]

  -- A row whose key is its own conflict is in the table after the insert.
  pub insert_takes :
      ((i : ℕ) (n : N) → conflicts n (make i n) ≡ true)
      → (ns : List N) (next : ℕ) (t : List A)
      → all_of (λ n. taken n (insert_rows ns next t).0) ns ≡ true
  unfolding insert_rows
  insert_takes own [] next t = refl
  insert_takes own (n ∷ ns) next t =
      let u = (if taken n t then t else t ++ make next n ∷ []) in
      ground (
        arith,
        taken_stays n ns (next + 1) u (head_taken own n next t),
        insert_takes own ns (next + 1) u,
      )

  pub insert_rows_none :
      (ns : List N) (next : ℕ) (t : List A)
      → all_of (λ n. taken n t) ns ≡ true
      → insert_rows ns next t ≡ (t, 0)
  unfolding insert_rows
  insert_rows_none [] next t h = refl
  insert_rows_none (n ∷ ns) next t h =
      let here : taken n t ≡ true = ground arith in
      rw here (rw (insert_rows_none ns (next + 1) t (ground arith)))

  -- A second insert of the same rows changes nothing, under whatever ids.
  pub insert_rows_twice :
      ((i : ℕ) (n : N) → conflicts n (make i n) ≡ true)
      → (ns : List N) (next later : ℕ) (t : List A)
      → insert_rows ns later (insert_rows ns next t).0 ≡ ((insert_rows ns next t).0, 0)
  insert_rows_twice own ns next later t =
      insert_rows_none ns later (insert_rows ns next t).0 (insert_takes own ns next t)

-- No two rows of the table clash.
abbrev pub NoClash : {A : Type 0} → (A → A → Bool) → List A → Type 0
NoClash clash [] = Unit
NoClash clash (r ∷ t) = (all_of (λ s. not (clash r s)) t ≡ true) × NoClash clash t

module _ {A N : Type 0} (conflicts : N → A → Bool) (make : ℕ → N → A) (clash : A → A → Bool)
    (agree : (i : ℕ) (n : N) (r : A) → clash r (make i n) ≡ conflicts n r) where
  free_apart :
      (n : N) (i : ℕ) (r : A) (t : List A)
      → all_of (λ s. not (clash r s)) t ≡ true
      → conflicts n r ≡ false
      → all_of (λ s. not (clash r s)) (t ++ make i n ∷ []) ≡ true
  free_apart n i r [] a f = ground (arith, agree i n r)
  free_apart n i r (x ∷ t) a f = ground (arith, free_apart n i r t)

  append-NoClash :
      (n : N) (i : ℕ) (t : List A)
      → taken conflicts make n t ≡ false
      → NoClash clash t
      → NoClash clash (t ++ make i n ∷ [])
  unfolding taken
  append-NoClash n i [] f c = (refl, tt)
  append-NoClash n i (r ∷ t) f c =
      (free_apart n i r t c.0 (ground arith), append-NoClash n i t (ground arith) c.1)

  -- An insert keeps the unique key.
  pub insert_rows-NoClash :
      (ns : List N) (next : ℕ) (t : List A)
      → NoClash clash t
      → NoClash clash (insert_rows conflicts make ns next t).0
  unfolding insert_rows
  insert_rows-NoClash [] next t c = c
  insert_rows-NoClash (n ∷ ns) next t c = elim (Bool-cases (taken conflicts make n t)) [
    | inl e ↦ rw e (insert_rows-NoClash ns (next + 1) t c)
    | inr e ↦
        rw e
          (insert_rows-NoClash ns (next + 1) (t ++ make next n ∷ []) (append-NoClash n next t e c))
  ]
