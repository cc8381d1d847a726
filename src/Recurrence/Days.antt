-- ===== src/Recurrence/Days.antt =====
-- `_local_days`: the days that the search visits are all that can contribute to its range.
use remindo.Prelude.{
  ℕ, zero, suc, ◌+◌, ◌-◌, ◌*◌, ◌/◌, ◌%◌, ◌≤◌, ◌<◌, ◌≡◌, ◌⊎◌, inl, inr, Bool, true, false, ◌&&◌,
  ◌||◌, List, [], ◌∷◌, arith, ltb, leb, ◌==◌, if◌then◌else◌, elem, all_of, Bool-cases,
}
use remindo.Time.{Moment, Naive, Date, Time, Duration, second, day, minutes, combine, date_of}
use remindo.Time.Zone.{Zone, IsZone, IsWholeSeconds, IsSteady, astimezone}
use remindo.Schedules.{Schedule, once, interval, daily, weekly, monthly}
use remindo.Recurrence.{
  to_utc, first_existing_moment, at_times, moments_for_day, interval_moments, monthly_moments,
  days_from, local_days,
}
use remindo.Recurrence.Resolve.{to_utc_existing, to_utc_gap, to_utc-lt, to_utc-first}
use remindo.Recurrence.Kinds.{window_opens, window_closes, window_sound}

-- The moment is one of those that the schedule puts on one of the days.
unfoldable pub on_some_day : Schedule → Zone → Moment → List Date → Bool
on_some_day s z m [] = false
on_some_day s z m (d ∷ ds) = elem m (moments_for_day s z d) || on_some_day s z m ds

-- A time of day without a fraction of a second.
abbrev pub is_whole : Time → Bool
is_whole t = ltb t day && (t % second == 0)

-- The times of the schedule are whole seconds, and a window across midnight closes long enough
-- before the next one that a clock set back by `b` does not show it on a third day.
unfoldable pub Fits : Duration → Schedule → Type 0
Fits b (once at) = Unit
Fits b (interval every from to) =
    (is_whole from ≡ true) × (is_whole to ≡ true) × ((from < to) ⊎ (to + b + second ≤ day))
Fits b (daily times n) = all_of is_whole times ≡ true
Fits b (weekly times ds) = all_of is_whole times ≡ true
Fits b (monthly times ds rule) = all_of is_whole times ≡ true

on_some_day-days_from :
    (s : Schedule) (z : Zone) (m : Moment) (d : Date) (n : ℕ) (first : Date)
    → elem m (moments_for_day s z d) ≡ true
    → first ≤ d
    → d < first + n
    → on_some_day s z m (days_from n first) ≡ true
unfolding on_some_day days_from
on_some_day-days_from s z m d zero first h lo hi = absurd (omega arith)
on_some_day-days_from s z m d (suc n) first h lo hi = elim (Bool-cases (first == d)) [
  | inl e ↦ let same : first ≡ d = ground arith in rw same (ground arith)
  | inr e ↦
      ground (arith, on_some_day-days_from s z m d n (first + 1) h (ground arith) (omega arith))
]

pub on_some_day_sound :
    (s : Schedule) (z : Zone) (m : Moment) (ds : List Date)
    → on_some_day s z m ds ≡ true
    → (d : Date) × (elem m (moments_for_day s z d) ≡ true)
unfolding on_some_day
on_some_day_sound s z m [] h = absurd (ground arith)
on_some_day_sound s z m (d ∷ ds) h = elim (Bool-cases (elem m (moments_for_day s z d))) [
  | inl e ↦ (d, e)
  | inr e ↦ on_some_day_sound s z m ds (ground arith)
]

whole_second :
    (n : Naive) (z : Zone) → z.utcoffset false n < z.utcoffset true n → to_utc n z % second ≡ 0
unfolding first_existing_moment
whole_second n z e = rw (to_utc-first n z e) (omega arith)

module _ {z : Zone} (laws : IsZone z) (ws : IsWholeSeconds z) {b : Duration}
    (st : IsSteady z b) where
  same_second :
      (u v : Moment)
      → day ≤ u
      → u ≤ v
      → v < u + second
      → u % second ≡ 0
      → astimezone z v < astimezone z u + second
  unfolding astimezone
  same_second u v w lo hi m =
      let same : u / second ≡ v / second = omega arith in
      let off = st.steady u v same in omega (arith, off, laws.shown_bounded u)

  -- Before the instant of a local time the clock shows at most `b` more.
  before_shows :
      (n : Naive) (u : Moment)
      → 3 * day ≤ n
      → n % second ≡ 0
      → u < to_utc n z
      → 2 * day ≤ u
      → astimezone z u < n + b + second
  before_shows n u w m h early =
      elim (Bool-cases (ltb (z.utcoffset false n) (z.utcoffset true n))) [
        | inl gap ↦
            let r = to_utc_gap laws n (omega arith) ws m (ground arith) in
            let e = whole_second n z (ground arith) in
            elim (Bool-cases (leb u (to_utc n z - second))) [
              | inl below ↦ omega (arith, st.back u (to_utc n z - second) (ground arith), r.1)
              | inr inside ↦
                  let s =
                    same_second (to_utc n z - second) u (omega arith) (ground arith) (omega arith)
                      (omega (arith, e)) in
                  omega (arith, s, r.1)
            ]
        | inr shown ↦
            let r = to_utc_existing laws n (omega arith) (ground arith) in
            omega (arith, r.0, st.back u (to_utc n z) (omega arith))
      ]

  -- From the instant of a local time on the clock shows at most `b` less.
  pub after_shows :
      (n : Naive) (u : Moment) → day ≤ n → n % second ≡ 0 → to_utc n z ≤ u → n ≤ astimezone z u + b
  after_shows n u w m h = elim (Bool-cases (ltb (z.utcoffset false n) (z.utcoffset true n))) [
    | inl gap ↦
        let r = to_utc_gap laws n w ws m (ground arith) in
        omega (arith, r.0, st.back (to_utc n z) u h)
    | inr shown ↦
        let r = to_utc_existing laws n w (ground arith) in
        omega (arith, r.0, st.back (to_utc n z) u h)
  ]

  module _ (after until m : Moment) (early : 4 * day ≤ after) (lo : after < m)
      (hi : m ≤ until) where
    -- The day lies at most two before the local day of `after`, and at most `b` past `until`.
    Near : Date → Type 0
    Near d = (astimezone z after < (d + 2) * day) × (d * day ≤ astimezone z until + b)

    between-Near :
        (d : Date) (opens closes : Naive)
        → opens % second ≡ 0
        → closes % second ≡ 0
        → d * day ≤ opens
        → closes + b + second ≤ (d + 2) * day
        → to_utc opens z ≤ m
        → m ≤ to_utc closes z
        → Near d
    unfolding Near
    between-Near d opens closes om cm ol ch below above =
        let bound = to_utc-lt laws closes in
        let late : 3 * day ≤ closes = omega (arith, bound) in
        (
          omega (arith, before_shows closes after late cm (omega arith) (omega arith)),
          omega (arith, after_shows opens until (omega arith) om (omega arith)),
        )

    at-Near :
        (d : Date) (t : Time) → b ≤ day → is_whole t ≡ true → m ≡ to_utc (combine d t) z → Near d
    at-Near d t small w e =
        between-Near d (combine d t) (combine d t) (ground arith) (ground arith) (omega arith)
          (ground arith) (omega arith) (omega arith)

    at_times-Near :
        (d : Date) (times : List Time)
        → b ≤ day
        → all_of is_whole times ≡ true
        → elem m (at_times z d times) ≡ true
        → Near d
    unfolding at_times elem
    at_times-Near d [] small w h = absurd (ground arith)
    at_times-Near d (t ∷ ts) small w h = elim (Bool-cases (m == to_utc (combine d t) z)) [
      | inl e ↦ at-Near d t small (ground arith) (ground arith)
      | inr e ↦ at_times-Near d ts small (ground arith) (ground arith)
    ]

    if-Near :
        (d : Date) (c : Bool) (times : List Time)
        → b ≤ day
        → all_of is_whole times ≡ true
        → elem m (if c then at_times z d times else []) ≡ true
        → Near d
    unfolding elem
    if-Near d true times small w h = at_times-Near d times small w h
    if-Near d false times small w h = absurd (ground arith)

    window-Near :
        (d : Date) (every : ℕ) (from to : Time)
        → b ≤ day
        → is_whole from ≡ true
        → is_whole to ≡ true
        → (from < to) ⊎ (to + b + second ≤ day)
        → elem m (interval_moments every from to z d) ≡ true
        → Near d
    unfolding interval_moments
    window-Near d every from to small wf wt fits h =
        elim (window_sound (window_opens from z d) (window_closes from to z d) (minutes every) m
          h) [
            | inl e ↦ at-Near d from small wf e
            | inr (k, e, le) ↦
                between-Near d (combine d from) (combine (if ltb from to then d else d + 1) to)
                  (ground arith) (ground arith) (omega arith) (ground arith) (omega arith) le
          ]

    day-Near :
        (s : Schedule) (d : Date)
        → b ≤ day
        → Fits b s
        → elem m (moments_for_day s z d) ≡ true
        → Near d
    unfolding Fits moments_for_day monthly_moments elem
    day-Near (once at) d small f h = absurd (ground arith)
    day-Near (interval every from to) d small f h = window-Near d every from to small f.0 f.1 f.2 h
    day-Near (daily times n) d small f h = if-Near d _ times small f h
    day-Near (weekly times ds) d small f h = if-Near d _ times small f h
    day-Near (monthly times ds rule) d small f h = if-Near d _ times small f h

    -- Every day with a moment in a range of up to 3656 days is visited.
    pub visited :
        (s : Schedule) (d : Date)
        → b ≤ day
        → Fits b s
        → until ≤ after + 3656 * day
        → elem m (moments_for_day s z d) ≡ true
        → on_some_day s z m (local_days z after until) ≡ true
    unfolding local_days Near astimezone
    visited s d small f short h =
        let near = day-Near s d small f h in
        let off = laws.shown_bounded after in
        let off' = laws.shown_bounded until in
        let first = date_of (astimezone z after - day) in
        let last = date_of (astimezone z until + day) in
        let order : first ≤ last = omega (arith, near) in
        let cap : last - first ≤ 3660 = omega (arith, off, off') in
        let within : (first ≤ d) × (d ≤ last) = (omega (arith, near), omega (arith, near)) in
        let here =
          on_some_day-days_from s z m d (last - first + 1) first h within.0
            (omega (arith, within)) in
        ground (arith, here)
