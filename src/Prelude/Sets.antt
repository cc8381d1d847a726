-- ===== src/Prelude/Sets.antt =====
-- Python's `set` and `sorted` over numbers (moments, days, minutes, ids). A set is a list without
-- repeats; the program observes it by membership, by size and through `sorted`.
use Prim.Native.Nat.{ℕ, zero, suc, ◌+◌, ◌≤◌, ◌<◌}
use mathlib.Core.Path.{◌≡◌, refl}
use mathlib.Core.Logic.{◌⊎◌, inl, inr}
use mathlib.Core.Bool.{Bool, true, false, ◌||◌}
use mathlib.Core.List.{List, [], ◌∷◌}
use native.Mathlib.Omega.{arith}
use remindo.Prelude.Tests.{leb, ◌==◌, if◌then◌else◌, Bool-cases, ==_iff}
use remindo.Prelude.Lists.{length, take, last_of, all_of}

-- x in s
unfoldable pub elem : ℕ → List ℕ → Bool
elem x [] = false
elem x (y ∷ ys) = (x == y) || elem x ys

-- s.add(x)
unfoldable pub set_add : ℕ → List ℕ → List ℕ
unfolding elem
set_add x s = if elem x s then s else x ∷ s

-- set(xs)
unfoldable pub set_of : List ℕ → List ℕ
unfolding set_add
set_of [] = []
set_of (x ∷ xs) = set_add x (set_of xs)

unfoldable pub sorted_insert : ℕ → List ℕ → List ℕ
sorted_insert x [] = x ∷ []
sorted_insert x (y ∷ ys) = let rest = sorted_insert x ys in if leb x y then x ∷ y ∷ ys else y ∷ rest

-- sorted(s)
unfoldable pub sorted : List ℕ → List ℕ
unfolding sorted_insert
sorted [] = []
sorted (x ∷ xs) = sorted_insert x (sorted xs)

abbrev pub Distinct : List ℕ → Type 0
Distinct [] = Unit
Distinct (x ∷ xs) = (elem x xs ≡ false) × Distinct xs

-- Strictly ascending from above a bound, and strictly ascending.
abbrev pub Above : ℕ → List ℕ → Type 0
Above b [] = Unit
Above b (x ∷ xs) = (b < x) × Above x xs

abbrev pub Ascending : List ℕ → Type 0
Ascending [] = Unit
Ascending (x ∷ xs) = Above x xs

pub elem-set_add : (y x : ℕ) (s : List ℕ) → elem y (set_add x s) ≡ ((y == x) || elem y s)
unfolding set_add elem
elem-set_add y x s = ground arith

pub set_add-Distinct : (x : ℕ) (s : List ℕ) → Distinct s → Distinct (set_add x s)
unfolding set_add
set_add-Distinct x s d = ground arith

pub set_of-Distinct : (xs : List ℕ) → Distinct (set_of xs)
unfolding set_of
set_of-Distinct [] = tt
set_of-Distinct (x ∷ xs) = set_add-Distinct x (set_of xs) (set_of-Distinct xs)

pub elem-set_of : (y : ℕ) (xs : List ℕ) → elem y (set_of xs) ≡ elem y xs
unfolding set_of elem
elem-set_of y [] = refl
elem-set_of y (x ∷ xs) = ground (arith, elem-set_add y x (set_of xs), elem-set_of y xs)

pub elem-sorted_insert :
    (y x : ℕ) (s : List ℕ) → elem y (sorted_insert x s) ≡ ((y == x) || elem y s)
unfolding sorted_insert elem
elem-sorted_insert y x [] = refl
elem-sorted_insert y x (z ∷ s) = ground (arith, elem-sorted_insert y x s)

pub elem-sorted : (y : ℕ) (s : List ℕ) → elem y (sorted s) ≡ elem y s
unfolding sorted elem
elem-sorted y [] = refl
elem-sorted y (x ∷ s) = ground (arith, elem-sorted_insert y x (sorted s), elem-sorted y s)

Above-sorted_insert :
    (b x : ℕ) (s : List ℕ) → b < x → elem x s ≡ false → Above b s → Above b (sorted_insert x s)
unfolding sorted_insert elem
Above-sorted_insert b x [] h e a = (h, tt)
Above-sorted_insert b x (y ∷ s) h e a = ground (arith, Above-sorted_insert y x s)

Ascending-sorted_insert :
    (x : ℕ) (s : List ℕ) → elem x s ≡ false → Ascending s → Ascending (sorted_insert x s)
unfolding sorted_insert elem
Ascending-sorted_insert x [] e a = tt
Ascending-sorted_insert x (y ∷ s) e a = ground (arith, Above-sorted_insert y x s)

-- `sorted` of a set ascends strictly.
pub sorted-Ascending : (s : List ℕ) → Distinct s → Ascending (sorted s)
unfolding sorted
sorted-Ascending [] d = tt
sorted-Ascending (x ∷ s) d =
    ground (arith, Ascending-sorted_insert x (sorted s), elem-sorted x s, sorted-Ascending s d.1)

take-Above : (b n : ℕ) (s : List ℕ) → Above b s → Above b (take n s)
take-Above b zero s a = tt
take-Above b (suc n) [] a = tt
take-Above b (suc n) (x ∷ s) a = (a.0, take-Above x n s a.1)

pub take-Ascending : (n : ℕ) (s : List ℕ) → Ascending s → Ascending (take n s)
take-Ascending zero s a = tt
take-Ascending (suc n) [] a = tt
take-Ascending (suc n) (x ∷ s) a = take-Above x n s a

pub elem-take : (y n : ℕ) (s : List ℕ) → elem y (take n s) ≡ true → elem y s ≡ true
unfolding elem
elem-take y zero s h = ground arith
elem-take y (suc n) [] h = h
elem-take y (suc n) (x ∷ s) h = ground (arith, elem-take y n s)

length-sorted_insert : (x : ℕ) (s : List ℕ) → length (sorted_insert x s) ≡ length s + 1
unfolding sorted_insert
length-sorted_insert x [] = omega arith
length-sorted_insert x (y ∷ s) = ground (arith, length-sorted_insert x s)

pub length-sorted : (s : List ℕ) → length (sorted s) ≡ length s
unfolding sorted
length-sorted [] = refl
length-sorted (x ∷ s) = omega (arith, length-sorted_insert x (sorted s), length-sorted s)

-- A member that the first `n` entries leave out means that there are `n` of them.
pub elem-take_full :
    (y n : ℕ) (s : List ℕ) → elem y s ≡ true → (elem y (take n s) ≡ true) ⊎ (length (take n s) ≡ n)
unfolding elem
elem-take_full y zero s h = inr refl
elem-take_full y (suc n) [] h = ground arith
elem-take_full y (suc n) (x ∷ s) h = ground (arith, elem-take_full y n s)

pub length-take_full : (n : ℕ) (s : List ℕ) → n ≤ length s → length (take n s) ≡ n
length-take_full zero s h = refl
length-take_full (suc n) [] h = absurd (omega arith)
length-take_full (suc n) (x ∷ s) h = omega (arith, length-take_full n s (omega arith))

Above-elem : (b y : ℕ) (s : List ℕ) → Above b s → elem y s ≡ true → b < y
unfolding elem
Above-elem b y [] a h = ground arith
Above-elem b y (x ∷ s) a h = ground (arith, Above-elem x y s a.1)

take-Above_initial :
    (b n m x : ℕ) (s : List ℕ)
    → Above b s
    → elem m s ≡ true
    → elem x (take n s) ≡ true
    → m ≤ x
    → elem m (take n s) ≡ true
unfolding elem
take-Above_initial b zero m x s a hm hx le = ground arith
take-Above_initial b (suc n) m x [] a hm hx le = hm
take-Above_initial b (suc n) m x (y ∷ s) a hm hx le =
    ground (arith, take-Above_initial y n m x s a.1, Above-elem y m s a.1)

-- The first entries of an ascending list hold everything below any of them.
pub take_initial :
    (n m x : ℕ) (s : List ℕ)
    → Ascending s
    → elem m s ≡ true
    → elem x (take n s) ≡ true
    → m ≤ x
    → elem m (take n s) ≡ true
unfolding elem
take_initial n m x [] a hm hx le = ground arith
take_initial zero m x (y ∷ s) a hm hx le = ground arith
take_initial (suc n) m x (y ∷ s) a hm hx le =
    ground (arith, take-Above_initial y n m x s a, Above-elem y m s a)

pub elem-last_of : (x : ℕ) (xs : List ℕ) → elem (last_of x xs) (x ∷ xs) ≡ true
unfolding elem
elem-last_of x [] = ground arith
elem-last_of x (y ∷ ys) = ground (arith, elem-last_of y ys)

Distinct-set_of : (s : List ℕ) → Distinct s → set_of s ≡ s
unfolding set_of set_add
Distinct-set_of [] d = refl
Distinct-set_of (x ∷ s) d = rw (Distinct-set_of s d.1, d.0) refl

Above-Distinct : (b : ℕ) (s : List ℕ) → Above b s → Distinct s × (elem b s ≡ false)
unfolding elem
Above-Distinct b [] a = (tt, refl)
Above-Distinct b (x ∷ s) a =
    let rest = Above-Distinct x s a.1 in ((rest.1, rest.0), ground (arith, Above-elem x b s a.1))

Ascending-Distinct : (s : List ℕ) → Ascending s → Distinct s
Ascending-Distinct [] a = tt
Ascending-Distinct (x ∷ s) a = let rest = Above-Distinct x s a in (rest.1, rest.0)

Above-sorted : (b : ℕ) (s : List ℕ) → Above b s → sorted s ≡ s
unfolding sorted sorted_insert
Above-sorted b [] a = refl
Above-sorted b (x ∷ []) a = refl
Above-sorted b (x ∷ y ∷ s) a =
    let le : leb x y ≡ true = ground arith in rw (Above-sorted x (y ∷ s) a.1, le) refl

-- A set that is already in order is left as it is.
pub sorted-set_of_fixed : (s : List ℕ) → Ascending s → sorted (set_of s) ≡ s
unfolding sorted sorted_insert
sorted-set_of_fixed [] a = rw (Distinct-set_of [] tt) refl
sorted-set_of_fixed (x ∷ s) a =
    rw (Distinct-set_of (x ∷ s) (Ascending-Distinct (x ∷ s) a)) (below x s a)
  where
    below : (x : ℕ) (s : List ℕ) → Above x s → sorted_insert x (sorted s) ≡ x ∷ s
    below x [] a = refl
    below x (y ∷ s) a =
        let le : leb x y ≡ true = ground arith in rw (Above-sorted x (y ∷ s) a, le) refl

pub length-set_of_le : (xs : List ℕ) → length (set_of xs) ≤ length xs
unfolding set_of set_add
length-set_of_le [] = omega arith
length-set_of_le (x ∷ xs) = ground (arith, length-set_of_le xs)

pub elem-length : (x : ℕ) (s : List ℕ) → elem x s ≡ true → 1 ≤ length s
unfolding elem
elem-length x [] h = ground arith
elem-length x (y ∷ s) h = omega arith

pub all_of-elem :
    (p : ℕ → Bool) (s : List ℕ) → ((x : ℕ) → elem x s ≡ true → p x ≡ true) → all_of p s ≡ true
unfolding elem
all_of-elem p [] h = refl
all_of-elem p (x ∷ s) h = rw (h x (ground arith)) (all_of-elem p s (λ y e. h y (ground arith)))

pub elem-all_of :
    (p : ℕ → Bool) (s : List ℕ) (x : ℕ) → all_of p s ≡ true → elem x s ≡ true → p x ≡ true
unfolding elem
elem-all_of p [] x h e = ground arith
elem-all_of p (y ∷ s) x h e = elim (Bool-cases (x == y)) [
  | inl same ↦ let eq : x ≡ y = (==_iff x y).0 same in rw eq (ground arith)
  | inr other ↦ elem-all_of p s x (ground arith) (ground arith)
]
