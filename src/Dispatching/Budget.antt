-- ===== src/Dispatching/Budget.antt =====
-- How long a delivery is tried again.
use remindo.Prelude.{
  ℕ, ◌+◌, ◌<◌, ◌≡◌, refl, Bool, true, false, not, ◌&&◌, Option, none, some, List, [], ◌∷◌, arith,
  String, ltb, if◌then◌else◌, all_of, Bool-cases, inl, inr,
}
use remindo.Time.{Moment}
use remindo.Contracts.{
  DeliveryStatus, ErrorClass, retry_after, forbidden, bad_request, transient, Result, ok, err,
}
use remindo.Retry.{should_retry, next_attempt, max_attempts, is_fatal}
use remindo.Dispatching.{Verdict, decide_failure}

-- A failed send: the error's class, the moment of the verdict, the error's name and what flood
-- control asks for.
pub record Failure : Type 0 where
  pub error_class : ErrorClass
  pub at : Moment
  pub code : String
  pub after : Option ℕ

abbrev still_queued : Result Verdict → Option ℕ
still_queued (err e) = none
still_queued (ok v) = elim v.status [ DeliveryStatus.pending ↦ some v.attempts | _ ↦ none ]

-- The charge that is left after one more claim and a send that fails; none once the delivery is out
-- of the queue. The claim charges one attempt before the verdict.
unfoldable pub fail_once : ℕ → Failure → Option ℕ
fail_once attempts f =
    still_queued (decide_failure (attempts + 1) f.error_class f.at f.code f.after)

abbrev unless_out : Option ℕ → (ℕ → Option ℕ) → Option ℕ
unless_out none next = none
unless_out (some n) next = next n

-- The charge after a sequence of failures.
unfoldable pub fail_all : ℕ → List Failure → Option ℕ
fail_all attempts [] = some attempts
fail_all attempts (f ∷ fs) = unless_out (fail_once attempts f) λ n. fail_all n fs

abbrev is_transient : ErrorClass → Bool
is_transient transient = true
is_transient _ = false

abbrev pub transients : List Failure → ℕ
transients [] = 0
transients (f ∷ fs) = (if is_transient f.error_class then 1 else 0) + transients fs

abbrev pub none_fatal : List Failure → Bool
none_fatal fs = all_of (λ f. not (is_fatal f.error_class)) fs

-- The charge after one failure, with room in the budget.
abbrev charged : ErrorClass → ℕ → Option ℕ
charged c attempts =
    if not (is_fatal c) && ltb (attempts + (if is_transient c then 1 else 0)) max_attempts
    then some (attempts + (if is_transient c then 1 else 0))
    else none

fail_once_lem :
    (attempts : ℕ) (c : ErrorClass) (at : Moment) (code : String) (after : Option ℕ)
    → attempts < max_attempts
    → fail_once attempts (record { error_class = c; at = at; code = code; after = after })
      ≡ charged c attempts
unfolding fail_once decide_failure should_retry next_attempt
fail_once_lem attempts forbidden at code after h = refl
fail_once_lem attempts bad_request at code after h = refl
fail_once_lem attempts retry_after at code none h = ground arith
fail_once_lem attempts retry_after at code (some s) h = ground arith
fail_once_lem attempts transient at code after h =
    elim (Bool-cases (ltb (attempts + 1) max_attempts)) [
      | inl e ↦ rw (decide_failure, e) (ground arith)
      | inr e ↦ rw (decide_failure, e) (ground arith)
    ]

-- A delivery is tried again after any sequence of failures in which no error is fatal and fewer than
-- five are transient, and after no other: flood control costs it nothing, and the fifth transient
-- failure takes it out of the queue.
pub fail_all_lem :
    (attempts : ℕ) (fs : List Failure)
    → attempts < max_attempts
    → fail_all attempts fs ≡ (
        if none_fatal fs && ltb (attempts + transients fs) max_attempts
        then some (attempts + transients fs)
        else none)
unfolding fail_all
fail_all_lem attempts [] h = ground arith
fail_all_lem attempts (f ∷ fs) h =
    let k : ℕ = (if is_transient f.error_class then 1 else 0) in
    let once : fail_once attempts f ≡ charged f.error_class attempts =
      fail_once_lem attempts f.error_class f.at f.code f.after h in
    elim (Bool-cases (not (is_fatal f.error_class) && ltb (attempts + k) max_attempts)) [
      | inl e ↦
          let left : charged f.error_class attempts ≡ some (attempts + k) = ground arith in
          rw (once, left) (ground (arith, fail_all_lem (attempts + k) fs))
      | inr e ↦
          let left : charged f.error_class attempts ≡ none = ground arith in
          rw (once, left) (ground arith)
    ]
