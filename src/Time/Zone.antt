-- ===== src/Time/Zone.antt =====
-- `zoneinfo.ZoneInfo` as the source uses it, and what it relies on. The zone database is no part of
-- the program: a zone is a parameter.
use remindo.Prelude.{
  ℕ, ◌+◌, ◌-◌, ◌*◌, ◌/◌, ◌≤◌, ◌<◌, ◌≡◌, ◌⊎◌, Bool, true, false, ltb, if◌then◌else◌, arith, refl,
}
use remindo.Time.Units.{second, hour, day}

-- Offsets are stored a day too high, so that they are numbers: Python keeps every offset strictly
-- between -24 h and 24 h. `utcoffset fold n` is `n.replace(tzinfo=tz, fold=fold).utcoffset()`;
-- `offset_at u` is the offset that `u.astimezone(tz)` adds.
pub record Zone : Type 0 where
  pub utcoffset : Bool → ℕ → ℕ
  pub offset_at : ℕ → ℕ

-- n.replace(tzinfo=tz, fold=fold).astimezone(UTC)
unfoldable pub to_instant : Zone → Bool → ℕ → ℕ
to_instant z fold n = n + day - z.utcoffset fold n

-- u.astimezone(tz).replace(tzinfo=None)
unfoldable pub astimezone : Zone → ℕ → ℕ
astimezone z u = u + z.offset_at u - day

-- PEP 495. A local time is read with the offset before a transition (fold 0) or after it (fold 1).
-- Where the clock was not set forward (`existing`) both readings show that local time; in a gap each
-- reading is shown with the other's offset. An instant shows a local time of which it is a reading.
pub record IsZone (z : Zone) : Type 0 where
  pub bounded : (f : Bool) (n : ℕ) → (0 < z.utcoffset f n) × (z.utcoffset f n < 2 * day)
  pub shown_bounded : (u : ℕ) → (0 < z.offset_at u) × (z.offset_at u < 2 * day)
  pub existing :
      (f : Bool) (n : ℕ)
      → z.utcoffset true n ≤ z.utcoffset false n
      → day ≤ n
      → astimezone z (to_instant z f n) ≡ n
  pub gap :
      (n : ℕ)
      → z.utcoffset false n < z.utcoffset true n
      → day ≤ n
      → (z.offset_at (to_instant z true n) ≡ z.utcoffset false n)
        × (z.offset_at (to_instant z false n) ≡ z.utcoffset true n)
  pub shown :
      (u : ℕ)
      → day ≤ u
      → (to_instant z false (astimezone z u) ≡ u) ⊎ (to_instant z true (astimezone z u) ≡ u)

-- Offsets change by whole seconds.
pub record IsWholeSeconds (z : Zone) : Type 0 where
  pub multiple : (f : Bool) (n : ℕ) → (k : ℕ) × (z.utcoffset f n ≡ k * second)

-- Transitions are at whole seconds, and the local clock is never more than `b` behind what it showed
-- before.
pub record IsSteady (z : Zone) (b : ℕ) : Type 0 where
  pub steady : (u v : ℕ) → u / second ≡ v / second → z.offset_at u ≡ z.offset_at v
  pub back : (u v : ℕ) → u ≤ v → astimezone z u ≤ astimezone z v + b

-- No two offsets of the zone lie more than a day apart.
pub record IsNarrow (z : Zone) : Type 0 where
  pub spread : (f g : Bool) (n m : ℕ) → z.utcoffset f n ≤ z.utcoffset g m + day

-- A zone whose offset never changes.
abbrev pub fixed_zone : ℕ → Zone
fixed_zone k = record { utcoffset = λ f n. k; offset_at = λ u. k }

-- A zone that sets its clock forward by an hour at the instant `t`, from offset zero.
abbrev pub spring_zone : ℕ → Zone
spring_zone t = record {
  utcoffset = λ f n.
      if ltb n t
      then day
      else if ltb n (t + hour)
      then (if f then day + hour else day)
      else day + hour;
  offset_at = λ u. if ltb u t then day else day + hour;
}

pub fixed_zone-IsZone : (k : ℕ) → 0 < k → k < 2 * day → IsZone (fixed_zone k)
unfolding to_instant astimezone
fixed_zone-IsZone k lo hi = record {
  bounded = λ f n. (lo, hi);
  shown_bounded = λ u. (lo, hi);
  existing = λ f n e h. omega arith;
  gap = λ n h w. absurd (omega arith);
  shown = λ u h. ground arith;
}

pub spring_zone-IsZone : (t : ℕ) → IsZone (spring_zone t)
unfolding to_instant astimezone
spring_zone-IsZone t = record {
  bounded = λ f n. ground arith;
  shown_bounded = λ u. ground arith;
  existing = λ f n e h. ground arith;
  gap = λ n h w. ground arith;
  shown = λ u h. ground arith;
}

pub fixed_zone-IsSteady : (k : ℕ) → IsSteady (fixed_zone k) 0
unfolding astimezone
fixed_zone-IsSteady k = record { steady = λ u v e. refl; back = λ u v h. omega arith }
