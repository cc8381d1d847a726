-- ===== src/Retry/Backoff.antt =====
-- The delay before the next attempt: its bounds and its growth.
use remindo.Prelude.{
  ℕ, zero, suc, ◌+◌, ◌-◌, ◌*◌, ◌^◌, ◌≤◌, ◌<◌, ◌≡◌, ap, Bool-cases, inl, inr, arith, min, max, ltb,
}
use native.Mathlib.Nat.{pow-suc}
use remindo.Retry.{base_backoff, max_backoff, backoff}

pow_pos : (k : ℕ) → 1 ≤ 2 ^ k
pow_pos zero = omega arith
pow_pos (suc k) = omega (arith, pow-suc 2 k, pow_pos k)

pow_mono : (a b : ℕ) → a ≤ b → 2 ^ a ≤ 2 ^ b
pow_mono zero b h = pow_pos b
pow_mono (suc a) zero h = absurd (omega arith)
pow_mono (suc a) (suc b) h = omega (arith, pow-suc 2 a, pow-suc 2 b, pow_mono a b (omega arith))

-- Whatever the number of attempts, the delay lies between the base and the cap.
pub backoff_bounds :
    (attempts : ℕ) → (base_backoff ≤ backoff attempts) × (backoff attempts ≤ max_backoff)
unfolding backoff
backoff_bounds attempts = omega (arith, pow_pos (min (max attempts 1 - 1) 16))

-- More attempts never mean a shorter delay.
pub backoff_mono : (a b : ℕ) → a ≤ b → backoff a ≤ backoff b
unfolding backoff
backoff_mono a b h =
    omega (arith, pow_mono (min (max a 1 - 1) 16) (min (max b 1 - 1) 16) (omega arith))

backoff_capped : (a : ℕ) → 7 ≤ a → backoff a ≡ max_backoff
unfolding backoff
backoff_capped a h = omega (arith, pow_mono 6 (min (max a 1 - 1) 16) (omega arith))

backoff_uncapped : (a : ℕ) → a < 7 → backoff (suc a) ≡ min (base_backoff * 2 ^ a) max_backoff
unfolding backoff
backoff_uncapped a h = let e : min (max (suc a) 1 - 1) 16 ≡ a = omega arith in rw e

capped_or_top : (a : ℕ) → 6 ≤ a → max_backoff ≤ 2 * backoff (suc a)
capped_or_top a h =
    omega (arith, backoff_mono 7 (suc a) (omega arith), backoff_capped 7 (omega arith))

-- From one attempt to the next the delay doubles, up to the cap.
pub backoff_doubles : (a : ℕ) → 1 ≤ a → backoff (a + 1) ≡ min (2 * backoff a) max_backoff
backoff_doubles zero h = absurd (omega arith)
backoff_doubles (suc a) h = elim (Bool-cases (ltb a 6)) [
  | inl low ↦ omega (
    arith,
    next,
    backoff_uncapped a (ground arith),
    backoff_uncapped (suc a) (ground arith),
    pow-suc 2 a,
  )
  | inr high ↦
      omega (arith, backoff_capped (suc a + 1) (ground arith), capped_or_top a (ground arith))
]
  where
    next : backoff (suc a + 1) ≡ backoff (suc (suc a))
    next = ap backoff (omega arith)
