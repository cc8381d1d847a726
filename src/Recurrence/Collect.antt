-- ===== src/Recurrence/Collect.antt =====
-- The loop over the local days: what it collects.
use remindo.Prelude.{
  ℕ, ◌+◌, ◌≤◌, ◌≡◌, ◌⊎◌, inl, inr, true, ◌&&◌, ◌||◌, List, [], ◌∷◌, arith, length, elem, set_add,
  Distinct, elem-set_add, set_add-Distinct, Bool-cases,
}
use remindo.Time.{Moment}
use remindo.Time.Zone.{Zone}
use remindo.Recurrence.Days.{on_some_day}
use remindo.Schedules.{Schedule}
use remindo.Recurrence.{moments_for_day, in_range, collect_day, collect, safety_buffer}

module _ (after until : Moment) where
  elem-collect_day :
      (y : Moment) (ms found : List Moment)
      → elem y (collect_day after until ms found)
        ≡ (elem y found || (in_range after until y && elem y ms))
  unfolding collect_day elem
  elem-collect_day y [] found = ground arith
  elem-collect_day y (m ∷ ms) found = elim (Bool-cases (in_range after until m)) [
    | inl e ↦ rw (e, elem-collect_day y ms (set_add m found), elem-set_add y m found) (ground arith)
    | inr e ↦ rw (e, elem-collect_day y ms found) (ground arith)
  ]

  collect_day-Distinct :
      (ms found : List Moment) → Distinct found → Distinct (collect_day after until ms found)
  unfolding collect_day
  collect_day-Distinct [] found d = d
  collect_day-Distinct (m ∷ ms) found d = elim (Bool-cases (in_range after until m)) [
    | inl e ↦ rw e (collect_day-Distinct ms (set_add m found) (set_add-Distinct m found d))
    | inr e ↦ rw e (collect_day-Distinct ms found d)
  ]

module _ (s : Schedule) (z : Zone) (after until : Moment) (limit : ℕ) where
  pub collect-Distinct :
      (ds found : List Moment) → Distinct found → Distinct (collect s z after until limit ds found)
  unfolding collect
  collect-Distinct [] found d = d
  collect-Distinct (x ∷ ds) found d = ground (
    arith,
    collect_day-Distinct after until (moments_for_day s z x) found d,
    collect-Distinct ds (collect_day after until (moments_for_day s z x) found),
  )

  pub collect_sound :
      (y : Moment) (ds found : List Moment)
      → elem y (collect s z after until limit ds found) ≡ true
      → (elem y found ≡ true) ⊎ ((in_range after until y ≡ true) × (on_some_day s z y ds ≡ true))
  unfolding collect on_some_day
  collect_sound y [] found h = inl h
  collect_sound y (x ∷ ds) found h = ground (
    arith,
    elem-collect_day after until y (moments_for_day s z x) found,
    collect_sound y ds (collect_day after until (moments_for_day s z x) found),
  )

  collect_grows :
      (y : Moment) (ds found : List Moment)
      → elem y found ≡ true
      → elem y (collect s z after until limit ds found) ≡ true
  unfolding collect
  collect_grows y [] found h = h
  collect_grows y (x ∷ ds) found h = ground (
    arith,
    elem-collect_day after until y (moments_for_day s z x) found,
    collect_grows y ds (collect_day after until (moments_for_day s z x) found),
  )

  pub collect_complete :
      (y : Moment) (ds found : List Moment)
      → in_range after until y ≡ true
      → on_some_day s z y ds ≡ true
      → (elem y (collect s z after until limit ds found) ≡ true)
        ⊎ (limit + safety_buffer ≤ length (collect s z after until limit ds found))
  unfolding collect on_some_day
  collect_complete y [] found r h = ground arith
  collect_complete y (x ∷ ds) found r h = ground (
    arith,
    elem-collect_day after until y (moments_for_day s z x) found,
    collect_grows y ds (collect_day after until (moments_for_day s z x) found),
    collect_complete y ds (collect_day after until (moments_for_day s z x) found) r,
  )
