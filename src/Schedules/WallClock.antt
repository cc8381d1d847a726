-- ===== src/Schedules/WallClock.antt =====
-- Wall-clock texts are read back as they are written.
use remindo.Prelude.{
  ℕ, ◌+◌, ◌*◌, ◌/◌, ◌%◌, ◌≤◌, ◌<◌, ◌≡◌, inl, inr, refl, true, some, [], ◌∷◌, Text, arith,
  Option-cases,
}
use remindo.Time.{Time, minute, hour, day}
use remindo.Contracts.{ok}
use remindo.Schedules.{Digits, hour_of, minute_of, time_from, parse_hhmm, format_hhmm, is_wall_time}

-- The digits of ASCII have their values, and no digit is worth more than nine.
pub record IsDigits (digit_of : Digits) : Type 0 where
  pub ascii : (d : ℕ) → d ≤ 9 → digit_of (48 + d) ≡ some d
  pub small : (c d : ℕ) → digit_of c ≡ some d → d ≤ 9

hour_of-two :
    {digit_of : Digits} (laws : IsDigits digit_of) (n : ℕ)
    → n < 24
    → hour_of digit_of (48 + n / 10) (48 + n % 10) ≡ some n
unfolding hour_of
hour_of-two laws n h = ground (arith, laws.ascii (n % 10) (omega arith))

minute_of-two :
    {digit_of : Digits} (laws : IsDigits digit_of) (n : ℕ)
    → n < 60
    → minute_of digit_of (48 + n / 10) (48 + n % 10) ≡ some n
unfolding minute_of
minute_of-two laws n h = ground (arith, laws.ascii (n % 10) (omega arith))

-- A time of day without seconds is written as a text that is read as that time.
pub parse_hhmm-format :
    {digit_of : Digits} (laws : IsDigits digit_of) (t : Time)
    → is_wall_time t ≡ true
    → parse_hhmm digit_of (format_hhmm t) ≡ ok t
unfolding parse_hhmm format_hhmm
parse_hhmm-format laws t h =
    let whole : t % minute ≡ 0 = ground arith in
    let inside : t < day = ground arith in
    let hours = hour_of-two laws (t / hour) (omega arith) in
    let mins = minute_of-two laws (t % hour / minute) (omega arith) in
    let back : t / hour * hour + t % hour / minute * minute ≡ t = omega arith in
    rw (hours, mins, back) refl

hour_of-lt :
    {digit_of : Digits} (laws : IsDigits digit_of) (h i n : ℕ)
    → hour_of digit_of h i ≡ some n
    → n < 24
unfolding hour_of
hour_of-lt {digit_of} laws h i n e = elim (Option-cases (digit_of i)) [
  | inl unread ↦ ground arith
  | inr read ↦ ground (arith, read.1, laws.small i read.0 read.1)
]

minute_of-lt :
    {digit_of : Digits} (laws : IsDigits digit_of) (m i n : ℕ)
    → minute_of digit_of m i ≡ some n
    → n < 60
unfolding minute_of
minute_of-lt {digit_of} laws m i n e = elim (Option-cases (digit_of i)) [
  | inl unread ↦ ground arith
  | inr read ↦ ground (arith, read.1, laws.small i read.0 read.1)
]

time_from-ok :
    {digit_of : Digits} (laws : IsDigits digit_of) (h i m n : ℕ) (t : Time)
    → time_from (hour_of digit_of h i) (minute_of digit_of m n) ≡ ok t
    → is_wall_time t ≡ true
time_from-ok {digit_of} laws h i m n t e = elim (Option-cases (hour_of digit_of h i)) [
  | inl unread ↦ cc
  | inr hours ↦ elim (Option-cases (minute_of digit_of m n)) [
    | inl unread ↦ cc
    | inr mins ↦
        let a = hour_of-lt laws h i hours.0 hours.1 in
        let b = minute_of-lt laws m n mins.0 mins.1 in ground (arith, hours.1, mins.1)
  ]
]

-- What is read is a time of day without seconds.
pub parse_hhmm-ok :
    {digit_of : Digits} (laws : IsDigits digit_of) (text : Text) {t : Time}
    → parse_hhmm digit_of text ≡ ok t
    → is_wall_time t ≡ true
unfolding parse_hhmm
parse_hhmm-ok laws [] e = cc
parse_hhmm-ok laws (h ∷ []) e = cc
parse_hhmm-ok laws (h ∷ i ∷ []) e = cc
parse_hhmm-ok laws (h ∷ i ∷ c ∷ []) e = cc
parse_hhmm-ok laws (h ∷ i ∷ c ∷ m ∷ []) e = cc
parse_hhmm-ok laws (h ∷ i ∷ c ∷ m ∷ n ∷ rest) {t} e = ground (arith, time_from-ok laws h i m n t)
