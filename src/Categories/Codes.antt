-- ===== src/Categories/Codes.antt =====
-- There is always a free code.
use remindo.Prelude.{
  ℕ, zero, suc, ◌+◌, ◌-◌, ◌*◌, ◌/◌, ◌%◌, ◌≤◌, ◌<◌, ◌≡◌, ◌⊎◌, ◌∙◌, refl, sym, ap, subst, true, false,
  List, [], ◌∷◌, ◌++◌, map, arith, Text, text_eq, ltb, ◌==◌, if◌then◌else◌, length, take, elem,
  Bool-cases, inl, inr, IsRun, IsRun-le, ==_iff,
}
use remindo.Contracts.{DomainError, Result, ok, err}
use remindo.Categories.{
  decimal_of, suffix_of, candidate, code_max_length, lstrip, rstrip, is_taken, free_from,
  next_free_code,
}

-- The number behind the last underscore of a text.
index_from : ℕ → Text → ℕ
index_from n [] = n
index_from n (c ∷ t) = index_from (if c == 95 then 0 else n * 10 + (c - 48)) t

index_from-append : (n : ℕ) (s t : Text) → index_from n (s ++ t) ≡ index_from (index_from n s) t
unfolding index_from
index_from-append n [] t = refl
index_from-append n (c ∷ s) t = index_from-append (if c == 95 then 0 else n * 10 + (c - 48)) s t

index_from-decimal : (fuel n : ℕ) → n < fuel → index_from 0 (decimal_of fuel n) ≡ n
unfolding index_from decimal_of
index_from-decimal zero n h = absurd (omega arith)
index_from-decimal (suc fuel) n h = elim (Bool-cases (ltb n 10)) [
  | inl e ↦ rw e (ground arith)
  | inr e ↦
      let tens = decimal_of fuel (n / 10) in
      rw e (
        index_from-append 0 tens ((48 + n % 10) ∷ [])
        ∙ rw (index_from-decimal fuel (n / 10) (ground arith)) (ground arith))
]

index_from-candidate : (base : Text) (index : ℕ) → index_from 0 (candidate base index) ≡ index
unfolding candidate suffix_of index_from
index_from-candidate base index =
    index_from-append 0 (rstrip (lstrip (take (code_max_length - length (suffix_of index)) base)))
      (95 ∷ decimal_of (index + 1) index)
    ∙ index_from-decimal (index + 1) index (omega arith)

text_eq→≡ : (s t : Text) → text_eq s t ≡ true → s ≡ t
text_eq→≡ [] [] h = refl
text_eq→≡ [] (d ∷ t) h = cc
text_eq→≡ (c ∷ s) [] h = cc
text_eq→≡ (c ∷ s) (d ∷ t) h =
    let head : c ≡ d = (==_iff c d).0 (ground arith) in
    let tail : s ≡ t = text_eq→≡ s t (ground arith) in rw (head, tail) refl

-- The index of a taken candidate is that of a taken code.
is_taken-index :
    (base : Text) (index : ℕ) (taken : List Text)
    → is_taken (candidate base index) taken ≡ true
    → elem index (map (index_from 0) taken) ≡ true
unfolding is_taken elem
is_taken-index base index [] h = h
is_taken-index base index (t ∷ taken) h = elim (Bool-cases (text_eq (candidate base index) t)) [
  | inl e ↦
      let same : candidate base index ≡ t = text_eq→≡ (candidate base index) t e in
      let own : index ≡ index_from 0 t =
        sym (index_from-candidate base index) ∙ ap (index_from 0) same in
      ground (arith, own)
  | inr e ↦ ground (arith, is_taken-index base index taken)
]

-- A search that fails has met that many taken codes.
free_from-IsRun :
    (more index : ℕ) (base : Text) (taken : List Text) {e : DomainError}
    → free_from more index base taken ≡ err e
    → IsRun (map (index_from 0) taken) index more
unfolding free_from
free_from-IsRun zero index base taken h = λ d low high. absurd (omega arith)
free_from-IsRun (suc more) index base taken {e} h =
    let codes = map (index_from 0) taken in
    λ d low high. elim (Bool-cases (is_taken (candidate base index) taken)) [
      | inl full ↦
          let later : free_from more (index + 1) base taken ≡ err e = ground arith in
          elim (Bool-cases (d == index)) [
            | inl here ↦
                let same : index ≡ d = sym ((==_iff d index).0 here) in
                subst (λ x. elem x codes ≡ true) same (is_taken-index base index taken full)
            | inr there ↦
                free_from-IsRun more (index + 1) base taken later d (ground arith) (ground arith)
          ]
      | inr free ↦ ground arith
    ]

free_from-free :
    (more index : ℕ) (base : Text) (taken : List Text) {code : Text}
    → free_from more index base taken ≡ ok code
    → is_taken code taken ≡ false
unfolding free_from
free_from-free zero index base taken h = cc
free_from-free (suc more) index base taken {code} h =
    elim (Bool-cases (is_taken (candidate base index) taken)) [
      | inl full ↦ free_from-free more (index + 1) base taken (ground arith)
      | inr free ↦
          let same : candidate base index ≡ code = ground arith in
          subst (λ c. is_taken c taken ≡ false) same free
    ]

Result-cases :
    {A : Type 0} (r : Result A) → ((e : DomainError) × (r ≡ err e)) ⊎ ((a : A) × (r ≡ ok a))
Result-cases (err e) = inl (e, refl)
Result-cases (ok a) = inr (a, refl)

-- There is always a free code: the search ends with one that no category has, whatever the base and
-- whatever codes are taken, since one candidate more is tried than there are codes.
pub next_free_code_total :
    (base : Text) (taken : List Text)
    → (code : Text) × (next_free_code base taken ≡ ok code) × (is_taken code taken ≡ false)
unfolding next_free_code
next_free_code_total base taken = elim (Bool-cases (is_taken base taken)) [
  | inl e ↦ elim (Result-cases (free_from (length taken + 1) 2 base taken)) [
    | inl failed ↦
        let run = free_from-IsRun (length taken + 1) 2 base taken failed.1 in
        let short : length taken + 1 ≤ length (map (index_from 0) taken) =
          IsRun-le (map (index_from 0) taken) 2 (length taken + 1) run in
        absurd (omega (arith, length-map taken))
    | inr found ↦ rw e (found.0, found.1, free_from-free (length taken + 1) 2 base taken found.1)
  ]
  | inr e ↦ rw e (base, refl, e)
]
  where
    length-map : (ts : List Text) → length (map (index_from 0) ts) ≡ length ts
    length-map [] = refl
    length-map (t ∷ ts) = ap suc (length-map ts)
