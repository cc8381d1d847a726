-- ===== src/Digest/Weekly.antt =====
-- The weekly moment and the window of a digest.
use remindo.Prelude.{
  ℕ, ◌+◌, ◌-◌, ◌*◌, ◌%◌, ◌≤◌, ◌<◌, ◌≡◌, ◌⊎◌, inl, inr, refl, Option, none, some, arith, ltb, leb,
  ◌==◌, Bool-cases,
}
use remindo.Time.{Moment, Naive, Duration, second, day, hour, combine, date_of, time_of, isoweekday}
use remindo.Time.Zone.{Zone, IsZone, IsWholeSeconds, IsSteady, astimezone}
use remindo.Recurrence.{to_utc}
use remindo.Recurrence.Resolve.{to_utc-lt}
use remindo.Recurrence.Days.{after_shows}
use remindo.QuietHours.{QuietHours, shift}
use remindo.Digest.{
  days_behind, candidate_of, last_digest_moment, digest_window, digest_due_at, days_in_week,
}

days_behind_lem :
    (d weekday : ℕ)
    → 1 ≤ weekday
    → weekday ≤ 7
    → 7 ≤ d
    → let b = days_behind (isoweekday d) weekday in (b < 7) × (isoweekday (d - b) ≡ weekday)
unfolding days_behind
days_behind_lem d weekday lo hi w = ground arith

candidate_of_lem :
    (d weekday at : ℕ)
    → 1 ≤ weekday
    → weekday ≤ 7
    → at < 24
    → 7 ≤ d
    → let c = candidate_of d weekday at in
      (isoweekday (date_of c) ≡ weekday)
      × (time_of c ≡ at * hour)
      × (date_of c ≤ d)
      × (d < date_of c + 7)
unfolding candidate_of
candidate_of_lem d weekday at lo hi h w =
    let behind = days_behind_lem d weekday lo hi w in
    let e : ℕ = days_behind (isoweekday d) weekday in
    let date_eq : date_of (combine (d - e) (at * hour)) ≡ d - e = omega arith in
    let time_eq : time_of (combine (d - e) (at * hour)) ≡ at * hour = omega arith in
    (rw date_eq behind.1, time_eq, rw date_eq (omega arith), rw date_eq (omega (arith, behind.0)))

-- `c` is the local time of the digest's weekday and hour.
abbrev pub IsSlot : ℕ → ℕ → Naive → Type 0
IsSlot weekday at c = (isoweekday (date_of c) ≡ weekday) × (time_of c ≡ at * hour)

-- A slot a week earlier.
week_before :
    (weekday at : ℕ) (c : Naive)
    → 7 * day ≤ c
    → IsSlot weekday at c
    → IsSlot weekday at (c - 7 * day) × (date_of (c - 7 * day) + 7 ≡ date_of c)
week_before weekday at c h slot =
    let d_eq : date_of (c - 7 * day) + 7 ≡ date_of c = omega arith in
    let t_eq : time_of (c - 7 * day) ≡ time_of c = omega arith in
    ((omega (arith, slot, d_eq), omega (arith, slot, t_eq)), d_eq)

-- The digest's moment is the instant of a local time on the wanted weekday at the wanted hour, it is
-- not after `now`, and the same time a week later lies past the local day or is still to come.
moment-IsSlot :
    {z : Zone} (laws : IsZone z) (now : Moment) (weekday at : ℕ)
    → 1 ≤ weekday
    → weekday ≤ 7
    → at < 24
    → 21 * day ≤ now
    → let m = last_digest_moment now z weekday at in
      (m ≤ now)
      × ((c : Naive) × (m ≡ to_utc c z)
          × IsSlot weekday at c
          × (date_of (astimezone z now) < date_of c + 14)
          × ((date_of (astimezone z now) < date_of c + 7) ⊎ (now < to_utc (c + 7 * day) z)))
unfolding last_digest_moment astimezone
moment-IsSlot {z} laws now weekday at lo hi h w =
    let off = laws.shown_bounded now in
    let local : ℕ = now + z.offset_at now - day in
    let c : ℕ = candidate_of (date_of local) weekday at in
    let slot = candidate_of_lem (date_of local) weekday at lo hi h (omega (arith, off)) in
    elim (Bool-cases (ltb now (to_utc c z))) [
      | inl e ↦
          let far : 7 * day ≤ c = omega (arith, off, slot) in
          let before = week_before weekday at c far (slot.0, slot.1) in
          let back : (c - 7 * day) + 7 * day ≡ c = omega arith in
          rw e (
            omega (arith, off, slot, before, to_utc-lt laws (c - 7 * day)),
            (
              c - 7 * day,
              refl,
              before.0,
              omega (arith, before.1, slot.3),
              inr (rw back (ground arith)),
            ),
          )
      | inr e ↦ rw e (ground arith, (c, refl, (slot.0, slot.1), omega (arith, slot.3), inl slot.3))
    ]

-- Two slots are a week apart or more.
slots_apart :
    (weekday at : ℕ) (c c' : Naive)
    → IsSlot weekday at c
    → IsSlot weekday at c'
    → c < c'
    → (c' ≡ c + 7 * day) ⊎ (date_of c + 14 ≤ date_of c')
slots_apart weekday at c c' s s' lt =
    let later : date_of c < date_of c' = omega (arith, s.1, s'.1) in
    let week : date_of c + 7 ≤ date_of c' = omega (arith, later, s.0, s'.0) in
    elim (Bool-cases (date_of c' == date_of c + 7)) [
      | inl e ↦
          let same : date_of c' ≡ date_of c + 7 = ground arith in
          inl (omega (arith, same, s.1, s'.1))
      | inr e ↦
          let more : date_of c + 7 < date_of c' = ground arith in
          inr (omega (arith, more, s.0, s'.0))
    ]

-- A slot that has come is not past the local day, if its hour is not less than `b` after midnight.
come_today :
    {z : Zone} {b : Duration} (laws : IsZone z) (ws : IsWholeSeconds z) (st : IsSteady z b)
    (now : Moment) (weekday at : ℕ) (c : Naive)
    → b ≤ at * hour
    → day ≤ c
    → IsSlot weekday at c
    → to_utc c z ≤ now
    → date_of c ≤ date_of (astimezone z now)
come_today {z} laws ws st now weekday at c late first s come =
    let whole : c % second ≡ 0 = omega (arith, s.1) in
    let shows = after_shows laws ws st c now first whole come in omega (arith, shows, s.1)

-- The digest's moment is the last one that has come: it is the instant of a local time on the wanted
-- weekday at the wanted hour, it is not after `now`, and every other such time whose instant has come
-- is an earlier one. From three weeks after datetime.min on, in a zone whose transitions are at whole
-- seconds, for an hour that is at least as far from midnight as the zone ever sets its clock back.
pub last_digest_moment_lem :
    {z : Zone} {b : Duration} (laws : IsZone z) (ws : IsWholeSeconds z) (st : IsSteady z b)
    (now : Moment) (weekday at : ℕ)
    → 1 ≤ weekday
    → weekday ≤ 7
    → at < 24
    → b ≤ at * hour
    → 21 * day ≤ now
    → let m = last_digest_moment now z weekday at in
      (m ≤ now)
      × ((c : Naive) × (m ≡ to_utc c z)
          × IsSlot weekday at c
          × ((c' : Naive) → IsSlot weekday at c' → to_utc c' z ≤ now → c' ≤ c))
last_digest_moment_lem {z} laws ws st now weekday at lo hi h late w =
    let (le, (c, e, slot, near, next)) = moment-IsSlot laws now weekday at lo hi h w in
    (le, (c, e, slot, λ c' s' come. last c slot near next c' s' come))
  where
    last :
        (c : Naive)
        → IsSlot weekday at c
        → date_of (astimezone z now) < date_of c + 14
        → (date_of (astimezone z now) < date_of c + 7) ⊎ (now < to_utc (c + 7 * day) z)
        → (c' : Naive) → IsSlot weekday at c'
        → to_utc c' z ≤ now
        → c' ≤ c
    last c slot near next c' s' come = elim (Bool-cases (leb c' c)) [
      | inl e ↦ ground arith
      | inr e ↦
          let gt : c < c' = ground arith in
          let later : day ≤ c' = omega (arith, slot.0, s'.0, slot.1, s'.1) in
          let today = come_today laws ws st now weekday at c' late later s' come in
          elim (slots_apart weekday at c c' slot s' gt) [
            | inl f ↦ elim next [
              | inl n ↦ absurd (omega (arith, n, today, f))
              | inr n ↦ absurd (let n' : now < to_utc c' z = rw f n in omega (arith, n', come))
            ]
            | inr f ↦ absurd (omega (arith, f, today, near))
          ]
    ]

-- The window of a digest ends at its moment, and when its local time exists (the clock shows it at
-- that moment) it starts at the moment of the same local time a week earlier, so that the windows of
-- two weeks meet. In a gap of the clock this is not said: the moment then shows a later time.
pub digest_window_meets :
    (c : Naive) (z : Zone)
    → astimezone z (to_utc c z) ≡ c
    → ((digest_window (to_utc c z) z).start ≡ to_utc (c - days_in_week * day) z)
      × ((digest_window (to_utc c z) z).end ≡ to_utc c z)
unfolding digest_window
digest_window_meets c z shown = (rw shown refl, refl)

-- A digest is due exactly for the last weekly moment, when no mark covers it yet and the silence
-- around it is over.
pub digest_due_at_lem :
    (now : Moment) (z : Zone) (weekday at : ℕ) (sent_at : Option Moment) (quiet : QuietHours)
    {m : Moment}
    → digest_due_at now z weekday at sent_at quiet ≡ some m
    → (m ≡ last_digest_moment now z weekday at) × (shift quiet m ≤ now)
unfolding digest_due_at
digest_due_at_lem now z weekday at sent_at quiet h = ground arith

-- A mark silences the digest until a weekly moment after it has come.
pub digest_due_at-marked :
    (now : Moment) (z : Zone) (weekday at : ℕ) (m : Moment) (quiet : QuietHours)
    → last_digest_moment now z weekday at ≤ m
    → digest_due_at now z weekday at (some m) quiet ≡ none
unfolding digest_due_at
digest_due_at-marked now z weekday at m quiet h = ground arith
