-- ===== src/Recurrence/Resolve.antt =====
-- `to_utc`: which instant a local time stands for.
use remindo.Prelude.{
  ℕ, zero, suc, ◌+◌, ◌-◌, ◌*◌, ◌/◌, ◌%◌, ◌≤◌, ◌<◌, ◌≡◌, inl, inr, Bool, true, false, arith, ltb,
  leb, Bool-cases,
}
use remindo.Time.{Naive, Moment, second, day}
use remindo.Time.Zone.{Zone, IsZone, IsWholeSeconds, to_instant, astimezone}
use remindo.Recurrence.{bisect, first_existing_moment, to_utc}

-- Where `bisect` ends, its test turns from false to true.
bisect_turn :
    (fuel : ℕ) (reached : ℕ → Bool) (low high : ℕ)
    → low < high
    → high - low ≤ fuel
    → reached low ≡ false
    → reached high ≡ true
    → let r = bisect fuel reached low high in
      (low < r) × (r ≤ high) × (reached r ≡ true) × (reached (r - 1) ≡ false)
unfolding bisect
bisect_turn zero reached low high h f l r = absurd (omega arith)
bisect_turn (suc fuel) reached low high h f l r = elim (Bool-cases (ltb 1 (high - low))) [
  | inl wide ↦ elim (Bool-cases (reached ((low + high) / 2))) [
    | inl e ↦ rw (wide, e) (ground (arith, bisect_turn fuel reached low ((low + high) / 2)))
    | inr e ↦ rw (wide, e) (ground (arith, bisect_turn fuel reached ((low + high) / 2) high))
  ]
  | inr narrow ↦ let e : high - 1 ≡ low = ground arith in rw narrow (h, omega arith, r, rw e l)
]

pub to_utc-early :
    (n : Naive) (z : Zone)
    → z.utcoffset true n ≤ z.utcoffset false n
    → to_utc n z ≡ to_instant z false n
unfolding to_utc
to_utc-early n z e = ground arith

pub to_utc-first :
    (n : Naive) (z : Zone)
    → z.utcoffset false n < z.utcoffset true n
    → to_utc n z ≡ first_existing_moment n z (to_instant z true n) (to_instant z false n)
unfolding to_utc
to_utc-first n z e = ground arith

-- The two readings of a local time in a gap lie on both sides of it.
gap_sides :
    {z : Zone} (laws : IsZone z) (n : Naive)
    → day ≤ n
    → z.utcoffset false n < z.utcoffset true n
    → (to_instant z true n < to_instant z false n)
      × (astimezone z (to_instant z true n) < n)
      × (n < astimezone z (to_instant z false n))
unfolding to_instant astimezone
gap_sides laws n w e = ground (arith, laws.gap n e w, laws.bounded true n, laws.bounded false n)

bisect_le :
    (fuel : ℕ) (reached : ℕ → Bool) (low high : ℕ)
    → low ≤ high
    → bisect fuel reached low high ≤ high
unfolding bisect
bisect_le zero reached low high h = omega arith
bisect_le (suc fuel) reached low high h = ground (
  arith,
  bisect_le fuel reached low ((low + high) / 2),
  bisect_le fuel reached ((low + high) / 2) high,
)

first_existing_le :
    (n : Naive) (z : Zone) (low high : Moment)
    → low ≤ high
    → first_existing_moment n z low high ≤ high
unfolding first_existing_moment
first_existing_le n z low high h =
    let reached : ℕ → Bool = λ ts. leb n (astimezone z (ts * second)) in
    let bound =
      bisect_le (high / second - low / second) reached (low / second) (high / second)
        (omega arith) in
    omega (arith, bound)

-- An instant lies less than a day behind the local time that it stands for.
pub to_utc-lt : {z : Zone} (laws : IsZone z) (n : Naive) → to_utc n z < n + day
unfolding to_instant
to_utc-lt {z} laws n =
    let off = laws.bounded false n in
    elim (Bool-cases (ltb (z.utcoffset false n) (z.utcoffset true n))) [
      | inl gap ↦
          let order : to_instant z true n ≤ to_instant z false n = ground arith in
          rw (to_utc-first n z (ground arith)) (
            ground
              (arith, first_existing_le n z (to_instant z true n) (to_instant z false n) order))
      | inr early ↦ rw (to_utc-early n z (ground arith)) (omega (arith, off))
    ]

to_instant_mono :
    (z : Zone) (n : Naive)
    → z.utcoffset true n ≤ z.utcoffset false n
    → to_instant z false n ≤ to_instant z true n
unfolding to_instant
to_instant_mono z n e = omega arith

-- Between whole seconds `a` and `b` the search ends at the first one that shows `n` or later,
-- after one that does not.
seconds_turn :
    (n : Naive) (z : Zone) (a b : ℕ)
    → a < b
    → astimezone z (a * second) < n
    → n ≤ astimezone z (b * second)
    → let r = bisect (b - a) (λ ts. leb n (astimezone z (ts * second))) a b in
      (n ≤ astimezone z (r * second)) × (astimezone z (r * second - second) < n) × (a < r) × (r ≤ b)
seconds_turn n z a b h before after =
    let r = bisect (b - a) (λ ts. leb n (astimezone z (ts * second))) a b in
    let turn =
      bisect_turn (b - a) (λ ts. leb n (astimezone z (ts * second))) a b h (omega arith)
        (ground arith) (ground arith) in
    let e : r * second - second ≡ (r - 1) * second = omega arith in
    (ground (arith, turn), rw e (ground (arith, turn)), turn.0, turn.1)

first_existing_lem :
    (n : Naive) (z : Zone) (a b : ℕ) (low high : Moment)
    → low ≡ a * second
    → high ≡ b * second
    → low < high
    → astimezone z low < n
    → n ≤ astimezone z high
    → let r = first_existing_moment n z low high in
      (n ≤ astimezone z r) × (astimezone z (r - second) < n) × (low < r) × (r ≤ high)
unfolding first_existing_moment
first_existing_lem n z a b low high el eh h before after =
    let low_ts : low / second ≡ a = omega arith in
    let high_ts : high / second ≡ b = omega arith in
    let turn = seconds_turn n z a b (omega arith) (rw el at before) (rw eh at after) in
    rw (low_ts, high_ts) (turn.0, turn.1, omega (arith, turn.2), omega (arith, turn.3))

to_instant_seconds :
    (z : Zone) (ws : IsWholeSeconds z) (f : Bool) (n : Naive)
    → n % second ≡ 0
    → to_instant z f n ≡ to_instant z f n / second * second
unfolding to_instant
to_instant_seconds z ws f n m = let (k, e) = ws.multiple f n in omega arith

module _ {z : Zone} (laws : IsZone z) (n : Naive) (late_enough : day ≤ n) where
  -- A local time that exists is shown by the instant that it resolves to, and no earlier instant
  -- shows it: an ambiguous time takes the first of its two instants.
  pub to_utc_existing :
      z.utcoffset true n ≤ z.utcoffset false n
      → (astimezone z (to_utc n z) ≡ n)
        × ((u : Moment) → day ≤ u → astimezone z u ≡ n → to_utc n z ≤ u)
  to_utc_existing e = rw (to_utc-early n z e) (laws.existing false n e late_enough, earliest)
    where
      earliest : (u : Moment) → day ≤ u → astimezone z u ≡ n → to_instant z false n ≤ u
      earliest u w p = ground (arith, laws.shown u w, to_instant_mono z n e)

  -- A local time that the clock jumps over resolves to the end of the jump: the local clock has
  -- reached it there and had not a second before. The result lies between the two readings.
  pub to_utc_gap :
      IsWholeSeconds z
      → n % second ≡ 0
      → z.utcoffset false n < z.utcoffset true n
      → let r = to_utc n z in
        (n ≤ astimezone z r)
        × (astimezone z (r - second) < n)
        × (to_instant z true n < r)
        × (r ≤ to_instant z false n)
  to_utc_gap ws m e =
      rw (to_utc-first n z e)
        let sides = gap_sides laws n late_enough e in
          first_existing_lem n z _ _ _ _ (to_instant_seconds z ws true n m)
            (to_instant_seconds z ws false n m) sides.0 sides.1 (omega (arith, sides.2))
