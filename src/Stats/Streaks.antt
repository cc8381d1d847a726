-- ===== src/Stats/Streaks.antt =====
-- Streaks: the loops against runs of done days.
use remindo.Prelude.{
  IsRun, IsRun-le, ℕ, zero, suc, ◌+◌, ◌-◌, ◌≤◌, ◌<◌, ◌≡◌, ◌⊎◌, inl, inr, refl, sym, ap, subst, true,
  false, List, [], ◌∷◌, max, arith, ltb, leb, ◌==◌, if◌then◌else◌, length, elem, Bool-cases, ==_iff,
}
use remindo.Time.{Date}
use remindo.Stats.{walk_back, current_streak, walk_on, longest_from, longest_streak}

-- A run with one more day before it.
IsRun-before :
    (days : List Date) (c : Date) (n : ℕ)
    → elem c days ≡ true
    → IsRun days (c + 1) n
    → IsRun days c (suc n)
IsRun-before days c n h run d low high = elim (Bool-cases (c == d)) [
  | inl e ↦ let same : c ≡ d = (==_iff c d).0 e in subst (λ x. elem x days ≡ true) same h
  | inr e ↦ run d (ground arith) (omega arith)
]

-- The walk forward counts a run, and unless the fuel ends it, up to its end.
walk_on_lem :
    (fuel : ℕ) (days : List Date) (c : Date)
    → IsRun days c (walk_on fuel days c)
      × ((walk_on fuel days c ≡ fuel) ⊎ (elem (c + walk_on fuel days c) days ≡ false))
unfolding walk_on
walk_on_lem zero days c = (λ d low high. absurd (omega arith), inl refl)
walk_on_lem (suc fuel) days c =
    let n = walk_on fuel days (c + 1) in
    let next = walk_on_lem fuel days (c + 1) in
    elim (Bool-cases (elem c days)) [
      | inl e ↦
          let stop : (n ≡ fuel) ⊎ (elem (c + suc n) days ≡ false) = elim next.1 [
            | inl full ↦ inl full
            | inr over ↦
                let same : (c + 1) + n ≡ c + suc n = omega arith in
                inr (subst (λ x. elem x days ≡ false) same over)
          ] in
          rw e (
            IsRun-before days c n e next.0,
            elim stop [ inl full ↦ inl (ap suc full) | inr over ↦ inr over ],
          )
      | inr e ↦
          let here : c + 0 ≡ c = omega arith in
          rw e (λ d low high. absurd (omega arith), inr (rw here e))
    ]

-- With enough fuel it counts up to the end of the run.
walk_on_stops :
    (days : List Date) (c : Date)
    → IsRun days c (walk_on (length days + 1) days c)
      × (elem (c + walk_on (length days + 1) days c) days ≡ false)
walk_on_stops days c =
    let walked = walk_on_lem (length days + 1) days c in
    let short : walk_on (length days + 1) days c ≤ length days =
      IsRun-le days c (walk_on (length days + 1) days c) walked.0 in
    (walked.0, elim walked.1 [ inl full ↦ absurd (omega arith) | inr over ↦ over ])

-- A run inside the one that starts at `c` ends with it.
walk_on_all :
    (days : List Date) (c start : Date) (n : ℕ)
    → c ≤ start
    → IsRun days c (start - c + n)
    → start - c + n ≤ walk_on (length days + 1) days c
walk_on_all days c start n h run =
    let m = walk_on (length days + 1) days c in
    elim (Bool-cases (ltb m (start - c + n))) [
      | inl e ↦
          let short : m < start - c + n = ground arith in
          let inside : elem (c + m) days ≡ true = run (c + m) (omega arith) (omega arith) in
          absurd (ground (arith, walk_on_stops days c))
      | inr e ↦ ground arith
    ]

-- The first day of the run that a done day lies in.
IsRun-start :
    (days : List Date) (d : Date)
    → elem 0 days ≡ false
    → elem d days ≡ true
    → (c : Date) × (c ≤ d)
      × (elem c days ≡ true)
      × (elem (c - 1) days ≡ false)
      × IsRun days c (d - c)
IsRun-start days zero z h = absurd (ground arith)
IsRun-start days (suc d) z h = elim (Bool-cases (elem d days)) [
  | inl e ↦
      let before = IsRun-start days d z e in
      let c : ℕ = before.0 in
      let run : IsRun days c (suc d - c) = λ x low high. elim (Bool-cases (x == d)) [
        | inl same ↦
            let eq : d ≡ x = sym ((==_iff x d).0 same) in subst (λ y. elem y days ≡ true) eq e
        | inr other ↦ before.4 x low (ground arith)
      ] in
      (c, omega arith, before.2, before.3, run)
  | inr e ↦
      let same : suc d - 1 ≡ d = omega arith in
      (suc d, omega arith, h, rw same e, λ x low high. absurd (omega arith))
]

best_le : (days ds : List Date) (best : ℕ) → best ≤ longest_from days ds best
unfolding longest_from
best_le days [] best = omega arith
best_le days (d ∷ ds) best = ground (
  arith,
  best_le days ds (if elem (d - 1) days then best else max best (walk_on (length days + 1) days d)),
)

-- The loop has seen every day that starts a run.
start_le :
    (days ds : List Date) (best : ℕ) (c : Date)
    → elem c ds ≡ true
    → elem (c - 1) days ≡ false
    → walk_on (length days + 1) days c ≤ longest_from days ds best
unfolding longest_from elem
start_le days [] best c h first = ground arith
start_le days (d ∷ ds) best c h first =
    let next : ℕ =
      (if elem (d - 1) days then best else max best (walk_on (length days + 1) days d)) in
    elim (Bool-cases (c == d)) [
      | inl e ↦
          let same : c ≡ d = (==_iff c d).0 e in
          let seen : walk_on (length days + 1) days c ≤ next = rw same (ground arith) in
          omega (arith, best_le days ds next)
      | inr e ↦ start_le days ds next c (ground arith) first
    ]

-- What the loop gives is the length of a run.
longest_IsRun :
    (days ds : List Date) (best : ℕ) (c : Date)
    → IsRun days c best
    → (start : Date) × IsRun days start (longest_from days ds best)
unfolding longest_from
longest_IsRun days [] best c run = (c, run)
longest_IsRun days (d ∷ ds) best c run = elim (Bool-cases (elem (d - 1) days)) [
  | inl e ↦ rw e (longest_IsRun days ds best c run)
  | inr e ↦
      let n : ℕ = walk_on (length days + 1) days d in
      elim (Bool-cases (leb n best)) [
        | inl short ↦
            let eq : max best n ≡ best = ground arith in
            rw (e, eq) (longest_IsRun days ds best c run)
        | inr long ↦
            let eq : max best n ≡ n = ground arith in
            rw (e, eq) (longest_IsRun days ds n d (walk_on_stops days d).0)
      ]
]

-- `n` is the length of the longest run of done days.
abbrev pub IsLongest : List Date → ℕ → Type 0
IsLongest days n =
    ((start : Date) × IsRun days start n) × ((start : Date) (m : ℕ) → IsRun days start m → m ≤ n)

run_le :
    (days : List Date)
    → elem 0 days ≡ false
    → (start : Date) (m : ℕ) → IsRun days start m
    → m ≤ longest_streak days
unfolding longest_streak
run_le days z start zero run = omega arith
run_le days z start (suc m) run =
    let first = IsRun-start days start z (run start (omega arith) (omega arith)) in
    let c : ℕ = first.0 in
    let whole : IsRun days c (start - c + suc m) = λ d low high. elim (Bool-cases (ltb d start)) [
      | inl e ↦ first.4 d low (ground arith)
      | inr e ↦ run d (ground arith) (omega (arith, first.1))
    ] in
    omega (
      arith,
      walk_on_all days c start (suc m) first.1 whole,
      start_le days days 0 c first.2 first.3,
    )

-- `longest_streak` is the length of the longest run of consecutive done days, whatever the order of
-- the days. (datetime.min is no done day.)
pub longest_streak-IsLongest :
    (days : List Date) → elem 0 days ≡ false → IsLongest days (longest_streak days)
unfolding longest_streak
longest_streak-IsLongest days z =
    (longest_IsRun days days 0 0 (λ d low high. absurd (omega arith)), run_le days z)

walk_back_lem :
    (fuel : ℕ) (days : List Date) (c : Date)
    → elem 0 days ≡ false
    → (walk_back fuel days c ≤ c)
      × IsRun days (c + 1 - walk_back fuel days c) (walk_back fuel days c)
      × ((walk_back fuel days c ≡ fuel) ⊎ (elem (c - walk_back fuel days c) days ≡ false))
unfolding walk_back
walk_back_lem zero days c z = (omega arith, λ d low high. absurd (omega arith), inl refl)
walk_back_lem (suc fuel) days c z = elim (Bool-cases (elem c days)) [
  | inl e ↦
      let n : ℕ = walk_back fuel days (c - 1) in
      let before = walk_back_lem fuel days (c - 1) z in
      let positive : 0 < c = elim (Bool-cases (c == 0)) [
        | inl none_left ↦
            let same : c ≡ 0 = (==_iff c 0).0 none_left in
            absurd (ground (arith, subst (λ x. elem x days ≡ true) same e))
        | inr some_left ↦ ground arith
      ] in
      let run : IsRun days (c + 1 - suc n) (suc n) = λ d low high. elim (Bool-cases (d == c)) [
        | inl same ↦
            let eq : c ≡ d = sym ((==_iff d c).0 same) in subst (λ y. elem y days ≡ true) eq e
        | inr other ↦ before.1 d (omega (arith, before.0)) (ground (arith, before.0))
      ] in
      let there : (c - 1) - n ≡ c - suc n = omega arith in
      let stop : (suc n ≡ suc fuel) ⊎ (elem (c - suc n) days ≡ false) = elim before.2 [
        | inl full ↦ inl (ap suc full)
        | inr over ↦ inr (subst (λ x. elem x days ≡ false) there over)
      ] in
      rw e (omega (arith, before.0), run, stop)
  | inr e ↦
      let here : c - 0 ≡ c = omega arith in
      rw e (omega arith, λ d low high. absurd (omega arith), inr (rw here e))
]

-- The day from which `current_streak` counts back.
abbrev pub last_counted : List Date → Date → Date
last_counted days today = if elem today days then today else today - 1

-- `current_streak` is the number of consecutive done days up to today, or up to yesterday while today
-- is not done yet: they are all done, and the day before them is not. (datetime.min is no done day.)
pub current_streak_lem :
    (days : List Date) (today : Date)
    → elem 0 days ≡ false
    → let s = current_streak days today in
      (s ≤ last_counted days today)
      × IsRun days (last_counted days today + 1 - s) s
      × (elem (last_counted days today - s) days ≡ false)
      × (s ≤ longest_streak days)
unfolding current_streak
current_streak_lem days today z =
    let c : ℕ = last_counted days today in
    let walked = walk_back_lem (length days + 1) days c z in
    let s : ℕ = walk_back (length days + 1) days c in
    let short : s ≤ length days = IsRun-le days (c + 1 - s) s walked.1 in
    (
      walked.0,
      walked.1,
      elim walked.2 [ inl full ↦ absurd (omega arith) | inr over ↦ over ],
      run_le days z (c + 1 - s) s walked.1,
    )
