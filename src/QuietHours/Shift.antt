-- ===== src/QuietHours/Shift.antt =====
-- What `shift` promises: never earlier, untouched outside the silence, and, where the zone's offset
-- stays, the end of the silence exactly.
use remindo.Prelude.{
  ℕ, ◌+◌, ◌-◌, ◌*◌, ◌%◌, ◌≤◌, ◌<◌, ◌≡◌, refl, ◌⊎◌, inl, inr, Bool, true, false, Option, none, some,
  arith, ltb, Bool-cases,
}
use remindo.Time.{Moment, Naive, Time, second, day, combine, time_of}
use remindo.Time.Zone.{Zone, IsZone, IsWholeSeconds, IsNarrow, to_instant, astimezone, fixed_zone}
use remindo.Recurrence.{to_utc}
use remindo.Recurrence.Resolve.{to_utc-early, to_utc_gap}
use remindo.QuietHours.{
  is_quiet, end_date, resolve_end, apply_quiet_hours, QuietHours, covers, covers_between, shift,
}

-- Outside the silence nothing moves.
pub shift-not_covered : (q : QuietHours) (m : Moment) → covers q m ≡ false → shift q m ≡ m
unfolding shift covers covers_between apply_quiet_hours
shift-not_covered q m h = go q.tz q.start q.end h
  where
    go :
        (z : Zone) (s e : Option Time)
        → covers_between z s e m ≡ false
        → apply_quiet_hours m z s e ≡ m
    go z none e h = refl
    go z (some s) none h = refl
    go z (some s) (some e) h = rw h

-- The end of the silence lies ahead on the local clock.
end_ahead :
    (local s e : ℕ)
    → is_quiet (time_of local) s e ≡ true
    → e < day
    → local < combine (end_date local s e) e
unfolding is_quiet end_date
end_ahead local s e h b = ground arith

-- The offset shown at an instant is one of the two that its local time has.
offset_shown :
    {z : Zone} (laws : IsZone z) (u : Moment)
    → day ≤ u
    → 2 * day ≤ astimezone z u
    → (z.utcoffset false (astimezone z u) ≡ z.offset_at u)
      ⊎ (z.utcoffset true (astimezone z u) ≡ z.offset_at u)
unfolding to_instant astimezone
offset_shown {z} laws u w p = ground (
  arith,
  laws.shown u w,
  laws.shown_bounded u,
  laws.bounded false (astimezone z u),
  laws.bounded true (astimezone z u),
)

-- A resolved local time is no earlier than one of its readings.
to_utc_lower :
    {z : Zone} (laws : IsZone z) (ws : IsWholeSeconds z) (n : Naive)
    → day ≤ n
    → n % second ≡ 0
    → (to_instant z false n ≤ to_utc n z) ⊎ (to_instant z true n ≤ to_utc n z)
to_utc_lower {z} laws ws n w m =
    elim (Bool-cases (ltb (z.utcoffset false n) (z.utcoffset true n))) [
      | inl gap ↦ inr (omega (arith, (to_utc_gap laws n w ws m (ground arith)).2))
      | inr existing ↦ inl (rw (to_utc-early n z (ground arith)) (omega arith))
    ]

-- Even its last resort puts the end of the silence after the moment that it moves.
resolve_end-gt :
    {z : Zone} (laws : IsZone z) (ws : IsWholeSeconds z) (narrow : IsNarrow z) (fire_at : Moment)
    (d e : ℕ)
    → day ≤ fire_at
    → 2 * day ≤ astimezone z fire_at
    → e % second ≡ 0
    → astimezone z fire_at < combine d e
    → fire_at < resolve_end fire_at z d e
unfolding resolve_end
resolve_end-gt {z} laws ws narrow fire_at d e w p m ahead = ground (arith, last_resort)
  where
    n : Naive
    n = combine d e + day

    far : (f : Bool) → fire_at < to_instant z f n
    far f =
        unfold to_instant astimezone in
        ground (
          arith,
          offset_shown laws fire_at w p,
          laws.shown_bounded fire_at,
          narrow.spread f false n (astimezone z fire_at),
          narrow.spread f true n (astimezone z fire_at),
        )

    last_resort : fire_at < to_utc n z
    last_resort =
        omega (arith, to_utc_lower laws ws n (omega arith) (omega arith), far false, far true)

-- A minute-precise silence.
abbrev pub IsWholeMinute : Option Time → Type 0
IsWholeMinute none = Unit
IsWholeMinute (some t) = (t % second ≡ 0) × (t < day)

-- Quiet hours never bring a delivery forward, in any zone whose offsets lie within a day of one
-- another.
pub shift-le :
    (q : QuietHours) (m : Moment)
    → IsZone q.tz
    → IsWholeSeconds q.tz
    → IsNarrow q.tz
    → IsWholeMinute q.end
    → day ≤ m
    → 2 * day ≤ astimezone q.tz m
    → m ≤ shift q m
unfolding shift apply_quiet_hours
shift-le q m laws ws narrow whole w p = go q.start q.end whole
  where
    go : (s e : Option Time) → IsWholeMinute e → m ≤ apply_quiet_hours m q.tz s e
    go none e h = omega arith
    go (some s) none h = omega arith
    go (some s) (some e) h = elim (Bool-cases (is_quiet (time_of (astimezone q.tz m)) s e)) [
      | inl quiet ↦
          let d = end_date (astimezone q.tz m) s e in
          rw quiet (
            omega (
              arith,
              resolve_end-gt laws ws narrow m d e w p h.0
                  (end_ahead (astimezone q.tz m) s e quiet h.1),
            ))
      | inr loud ↦ rw loud (omega arith)
    ]

fixed_resolve :
    (k : ℕ) (m d e : ℕ)
    → k < 2 * day
    → 2 * day ≤ m
    → astimezone (fixed_zone k) m < combine d e
    → resolve_end m (fixed_zone k) d e ≡ combine d e + day - k
unfolding resolve_end to_utc to_instant astimezone
fixed_resolve k m d e hk hm ahead = ground arith

-- Up to its end the silence has no hole, and its end is outside it.
quiet_until :
    (local s e v : ℕ)
    → is_quiet (time_of local) s e ≡ true
    → e < day
    → local ≤ v
    → v < combine (end_date local s e) e
    → is_quiet (time_of v) s e ≡ true
unfolding is_quiet end_date
quiet_until local s e v h b lo hi = ground arith

quiet_over :
    (local s e : ℕ) → e < day → is_quiet (time_of (combine (end_date local s e) e)) s e ≡ false
unfolding is_quiet end_date
quiet_over local s e b = ground arith

-- In a zone of one offset the shifted moment is the end of the silence: everything from the moment
-- on is covered until then, and that is not.
pub shift_exact :
    (k : ℕ) (start end : Option Time) (m : Moment)
    → k < 2 * day
    → 2 * day ≤ m
    → IsWholeMinute end
    → let q : QuietHours = record { tz = fixed_zone k; start = start; end = end } in
      (covers q (shift q m) ≡ false) × ((u : Moment) → m ≤ u → u < shift q m → covers q u ≡ true)
unfolding shift covers covers_between apply_quiet_hours
shift_exact k none e m hk hm whole = (refl, λ u lo hi. absurd (omega arith))
shift_exact k (some s) none m hk hm whole = (refl, λ u lo hi. absurd (omega arith))
shift_exact k (some s) (some e) m hk hm whole =
    elim (Bool-cases (is_quiet (time_of (astimezone (fixed_zone k) m)) s e)) [
      | inl quiet ↦
          let local = astimezone (fixed_zone k) m in
          let n = combine (end_date local s e) e in
          let ahead = end_ahead local s e quiet whole.1 in
          let shown : astimezone (fixed_zone k) (n + day - k) ≡ n =
            unfold astimezone in omega arith in
          rw (quiet, fixed_resolve k m (end_date local s e) e hk hm ahead)
            (
              rw shown (quiet_over local s e whole.1),
              λ u lo hi.
                  quiet_until local s e (astimezone (fixed_zone k) u) quiet whole.1
                    (unfold astimezone in omega arith) (unfold astimezone in omega arith),
            )
      | inr loud ↦ rw loud (loud, λ u lo hi. absurd (omega arith))
    ]
