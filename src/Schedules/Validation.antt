-- ===== src/Schedules/Validation.antt =====
-- What is stored was validated, and validates again as it is.
use remindo.Prelude.{
  ℕ, ◌%◌, ◌≤◌, ◌≡◌, ◌∙◌, refl, sym, subst, Bool, true, false, ◌&&◌, List, [], ◌∷◌, arith, ◌==◌,
  if◌then◌else◌, length, all_of, elem, set_of, sorted, elem-set_of, elem-sorted, length-set_of_le,
  length-sorted, set_of-Distinct, sorted-Ascending, sorted-set_of_fixed, elem-length, all_of-elem,
  elem-all_of,
}
use remindo.Time.{minute}
use remindo.Contracts.{ok, err, value_error, ok-injective}
use remindo.Schedules.{
  Schedule, once, interval, daily, weekly, monthly, validate, normalize, times_fit, days_fit,
  within, is_wall_time,
}

pub elem-normalize : (x : ℕ) (values : List ℕ) → elem x (normalize values) ≡ elem x values
unfolding normalize
elem-normalize x values = elem-sorted x (set_of values) ∙ elem-set_of x values

-- Normalising twice is normalising once.
pub normalize_twice : (values : List ℕ) → normalize (normalize values) ≡ normalize values
unfolding normalize
normalize_twice values =
    sorted-set_of_fixed (sorted (set_of values))
      (sorted-Ascending (set_of values) (set_of-Distinct values))

elem-head : (v : ℕ) (values : List ℕ) → elem v (v ∷ values) ≡ true
unfolding elem
elem-head v values = ground arith

pub normalize-fits :
    (p : ℕ → Bool) (high : ℕ) (values : List ℕ)
    → (within 1 high (length values) && all_of p values) ≡ true
    → (within 1 high (length (normalize values)) && all_of p (normalize values)) ≡ true
unfolding normalize
normalize-fits p high [] h = ground arith
normalize-fits p high (v ∷ values) h =
    let result = normalize (v ∷ values) in
    let here : elem v (v ∷ values) ≡ true = elem-head v values in
    let some_left : 1 ≤ length result =
      elem-length v result (elem-normalize v (v ∷ values) ∙ here) in
    let shorter : length result ≤ length (v ∷ values) =
      omega (arith, length-sorted (set_of (v ∷ values)), length-set_of_le (v ∷ values)) in
    let every : all_of p result ≡ true =
      all_of-elem p result
        (λ x e. elem-all_of p (v ∷ values) x (ground arith) (elem-eq x (v ∷ values) e)) in
    rw every (ground arith)
  where
    elem-eq : (x : ℕ) (l : List ℕ) → elem x (normalize l) ≡ true → elem x l ≡ true
    elem-eq x l e = sym (elem-normalize x l) ∙ e

guarded :
    (c : Bool) (s v : Schedule)
    → (if c then ok s else err value_error) ≡ ok v
    → (c ≡ true) × (s ≡ v)
guarded true s v h = (refl, ok-injective h)
guarded false s v h = cc

-- A schedule that was validated is validated to itself: what the database holds is read back as it
-- was written, with its lists in order and within the limits.
pub validate_twice : (s : Schedule) {v : Schedule} → validate s ≡ ok v → validate v ≡ ok v
unfolding validate
validate_twice (once at) {v} h =
    let read = guarded (at % minute == 0) (once at) v h in
    subst (λ x. validate x ≡ ok x) read.1 (rw read.0 refl)
validate_twice (interval every from to) {v} h =
    let read =
      guarded (within 5 1440 every && (is_wall_time from && is_wall_time to))
        (interval every from to) v h in
    subst (λ x. validate x ≡ ok x) read.1 (rw read.0 refl)
validate_twice (daily times n) {v} h =
    let read = guarded (times_fit times && within 1 366 n) (daily (normalize times) n) v h in
    let fits = normalize-fits is_wall_time 12 times (ground (arith, read.0)) in
    let days : within 1 366 n ≡ true = ground (arith, read.0) in
    subst (λ x. validate x ≡ ok x) read.1 (rw (fits, days, normalize_twice times) refl)
validate_twice (weekly times weekdays) {v} h =
    let read =
      guarded (times_fit times && days_fit 7 weekdays)
        (weekly (normalize times) (normalize weekdays)) v h in
    let fits = normalize-fits is_wall_time 12 times (ground (arith, read.0)) in
    let days = normalize-fits (within 1 7) 7 weekdays (ground (arith, read.0)) in
    subst (λ x. validate x ≡ ok x) read.1
      (rw (fits, days, normalize_twice times, normalize_twice weekdays) refl)
validate_twice (monthly times days rule) {v} h =
    let read =
      guarded (times_fit times && days_fit 31 days)
        (monthly (normalize times) (normalize days) rule) v h in
    let fits = normalize-fits is_wall_time 12 times (ground (arith, read.0)) in
    let fit_days = normalize-fits (within 1 31) 31 days (ground (arith, read.0)) in
    subst (λ x. validate x ≡ ok x) read.1
      (rw (fits, fit_days, normalize_twice times, normalize_twice days) refl)
