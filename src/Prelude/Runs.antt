-- ===== src/Prelude/Runs.antt =====
-- Runs of consecutive numbers in a list.
use Prim.Native.Nat.{ℕ, zero, suc, ◌+◌, ◌≤◌, ◌<◌}
use mathlib.Core.Path.{◌≡◌}
use mathlib.Core.Logic.{◌≢◌}
use mathlib.Core.Bool.{true, not}
use mathlib.Core.List.{List, [], ◌∷◌}
use native.Mathlib.Omega.{arith}
use remindo.Prelude.Tests.{◌==◌}
use remindo.Prelude.Lists.{length, keep_if}
use remindo.Prelude.Sets.{elem}

-- All of the `n` numbers from `start` on are in the list.
abbrev pub IsRun : List ℕ → ℕ → ℕ → Type 0
IsRun days start n = (d : ℕ) → start ≤ d → d < start + n → elem d days ≡ true

elem-drop :
    (x y : ℕ) (days : List ℕ)
    → elem x days ≡ true
    → x ≢ y
    → elem x (keep_if (λ d. not (d == y)) days) ≡ true
unfolding elem
elem-drop x y [] h n = h
elem-drop x y (d ∷ days) h n = ground (arith, elem-drop x y days)

length-drop_le : (y : ℕ) (days : List ℕ) → length (keep_if (λ d. not (d == y)) days) ≤ length days
length-drop_le y [] = omega arith
length-drop_le y (d ∷ days) = ground (arith, length-drop_le y days)

length-drop :
    (y : ℕ) (days : List ℕ)
    → elem y days ≡ true
    → length (keep_if (λ d. not (d == y)) days) < length days
unfolding elem
length-drop y [] h = ground arith
length-drop y (d ∷ days) h = ground (arith, length-drop y days, length-drop_le y days)

-- A run is no longer than the list that holds it.
pub IsRun-le : (days : List ℕ) (start : ℕ) (n : ℕ) → IsRun days start n → n ≤ length days
IsRun-le days start zero run = omega arith
IsRun-le days start (suc n) run =
    let others = keep_if (λ d. not (d == start)) days in
    let rest : IsRun others (start + 1) n =
      λ d low high. elem-drop d start days (run d (omega arith) (omega arith)) (λ e. omega arith) in
    let shorter : length others < length days =
      length-drop start days (run start (omega arith) (omega arith)) in
    omega (arith, IsRun-le others (start + 1) n rest)
