-- ===== src/Bot/Throttle.antt =====
-- A user's events are handled no more often than the limit says.
use remindo.Prelude.{
  ℕ, ◌≡◌, refl, Bool, true, false, Option, some, List, [], ◌∷◌, ◌==◌, ◌&&◌, not, if◌then◌else◌,
  Bool-cases, inl, inr, ==_iff, subst,
}
use remindo.Time.{Moment, Duration}
use remindo.Bot.{Seen, last_seen, is_burst, throttle}

pub record Event : Type 0 where
  pub user_id : ℕ
  pub at : Moment

-- The moments at which the user's events are handled.
unfoldable pub handled : Duration → ℕ → List Event → List Seen → List Moment
unfolding throttle
handled min_interval i [] seen = []
handled min_interval i (e ∷ es) seen =
    let passed = throttle min_interval e.at e.user_id seen in
    let rest = handled min_interval i es passed.1 in
    if passed.0 && (e.user_id == i) then e.at ∷ rest else rest

-- Each moment comes at least the interval after the one before.
abbrev pub spaced : Duration → Option Moment → List Moment → Bool
spaced min_interval previous [] = true
spaced min_interval previous (m ∷ ms) =
    not (is_burst min_interval m previous) && spaced min_interval (some m) ms

-- Whatever events come, those of one user that are handled lie at least the interval apart, and the
-- first of them at least that far behind the last one seen before.
pub handled-spaced :
    (min_interval : Duration) (i : ℕ) (es : List Event) (seen : List Seen)
    → spaced min_interval (last_seen i seen) (handled min_interval i es seen) ≡ true
unfolding handled throttle last_seen
handled-spaced min_interval i [] seen = refl
handled-spaced min_interval i (e ∷ es) seen =
    let entry : Seen = record { user_id = e.user_id; at = e.at } in
    let rest = handled-spaced min_interval i es (entry ∷ seen) in
    let later = handled min_interval i es (entry ∷ seen) in
    elim (Bool-cases (is_burst min_interval e.at (last_seen e.user_id seen))) [
      | inl burst ↦ rw burst (handled-spaced min_interval i es seen)
      | inr calm ↦
          let passed : throttle min_interval e.at e.user_id seen ≡ (true, entry ∷ seen) =
            rw calm refl in
          elim (Bool-cases (e.user_id == i)) [
            | inl own ↦
                let same : e.user_id ≡ i = (==_iff e.user_id i).0 own in
                let first : is_burst min_interval e.at (last_seen i seen) ≡ false =
                  subst (λ u. is_burst min_interval e.at (last_seen u seen) ≡ false) same calm in
                let newest : last_seen i (entry ∷ seen) ≡ some e.at = rw own refl in
                let behind : spaced min_interval (some e.at) later ≡ true =
                  subst (λ p. spaced min_interval p later ≡ true) newest rest in
                rw (passed, own, first) behind
            | inr other ↦
                let kept : last_seen i (entry ∷ seen) ≡ last_seen i seen = rw other refl in
                rw (passed, other) (subst (λ p. spaced min_interval p later ≡ true) kept rest)
          ]
    ]
