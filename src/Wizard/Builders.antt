-- ===== src/Wizard/Builders.antt =====
-- What the wizard builds is what the contract takes, and a schedule that it accepts fires.
use remindo.Prelude.{
  ℕ, ◌+◌, ◌-◌, ◌*◌, ◌%◌, ◌≤◌, ◌<◌, ◌≡◌, ◌∙◌, refl, sym, ap, subst, Bool, true, false, ◌&&◌, Option,
  none, some, List, [], ◌∷◌, Text, arith, ltb, ◌==◌, if◌then◌else◌, length, all_of, elem, set_of,
  sorted, Above, Ascending, set_of-Distinct, sorted-Ascending, length-sorted, elem-sorted,
  all_of-elem, elem-all_of, words, join_words, words-join,
}
use remindo.Time.{Moment, Date, Time, minute, day, combine}
use remindo.Time.Zone.{Zone}
use remindo.Contracts.{Result, ok, err, ◌>>=◌, >>=-eq-ok, ok-injective, validation}
use remindo.Schedules.{
  Schedule, MissingDay, once, interval, daily, weekly, monthly, validate, normalize, within,
  times_fit, days_fit, is_wall_time,
}
use remindo.Schedules.Validation.{normalize_twice, elem-normalize}
use remindo.Recurrence.{next_occurrences}
use remindo.Recurrence.Expand.{IsExpansion, Fires, Visited, Visited-Fires, search-IsExpansion}
use remindo.Planning.{boundary}
use remindo.Wizard.{
  normalize_reminder_title, wall_time, wall_times, bounded_set, times_of, day_numbers,
  build_once_schedule, build_daily_schedule, build_weekly_schedule, build_monthly_schedule,
  build_interval_schedule, first_fire_at, first_of,
}

guarded {ℓ} :
    {A : Type ℓ} (c : Bool) (a b : A)
    → (if c then ok a else err validation) ≡ ok b
    → (c ≡ true) × (a ≡ b)
guarded true a b h = (refl, ok-injective h)
guarded false a b h = cc

guarded_chain {ℓ} :
    {A : Type ℓ} (c : Bool) (r : Result A) (b : A)
    → (if c then r else err validation) ≡ ok b
    → (c ≡ true) × (r ≡ ok b)
guarded_chain true r b h = (refl, h)
guarded_chain false r b h = cc

past_guard {ℓ} :
    {A : Type ℓ} (c : Bool) (r : Result A) (b : A)
    → (if c then err validation else r) ≡ ok b
    → (c ≡ false) × (r ≡ ok b)
past_guard true r b h = cc
past_guard false r b h = (refl, h)

wall_times-ok :
    (values : List Time) {w : List Time}
    → all_of (λ t. ltb t day) values ≡ true
    → wall_times values ≡ ok w
    → (values ≡ w) × (all_of is_wall_time values ≡ true)
unfolding wall_times
wall_times-ok [] d h = (ok-injective h, refl)
wall_times-ok (t ∷ values) {w} d h =
    let head =
      >>=-eq-ok (wall_time t) (λ first. wall_times values >>= λ rest. ok (first ∷ rest)) h in
    let own = guarded (t % minute == 0) t head.0 head.1 in
    let tail = >>=-eq-ok (wall_times values) (λ rest. ok (head.0 ∷ rest)) head.2 in
    let others = wall_times-ok values {w = tail.0} (ground arith) tail.1 in
    (
      ap (λ x. x ∷ values) own.1 ∙ ap (λ r. head.0 ∷ r) others.0 ∙ ok-injective tail.2,
      ground (arith, own.0, others.1),
    )

-- The times that the wizard keeps.
times_of-ok :
    (values : List Time) {ts : List Time}
    → all_of (λ t. ltb t day) values ≡ true
    → times_of values ≡ ok ts
    → (times_fit ts ≡ true) × (normalize ts ≡ ts)
unfolding times_of bounded_set normalize
times_of-ok values {ts} d h =
    let walls = >>=-eq-ok (wall_times values) (λ times. bounded_set 12 times) h in
    let whole = wall_times-ok values {w = walls.0} d walls.1 in
    let unique = set_of walls.0 in
    let kept = guarded (within 1 12 (length unique)) (sorted unique) ts walls.2 in
    let size : length (sorted unique) ≡ length unique = length-sorted unique in
    let every : all_of is_wall_time (sorted unique) ≡ true =
      all_of-elem is_wall_time (sorted unique) (λ x e.
        elem-all_of is_wall_time walls.0 x
          (subst (λ l. all_of is_wall_time l ≡ true) whole.0 whole.1)
          (sym (elem-normalize x walls.0) ∙ e)) in
    let fits : times_fit (sorted unique) ≡ true = rw (size, every) (ground (arith, kept.0)) in
    (
      subst (λ l. times_fit l ≡ true) kept.1 fits,
      subst (λ l. normalize l ≡ l) kept.1 (normalize_twice walls.0),
    )

-- Ascending numbers up to `high` are no more than those.
Above-length :
    (b high : ℕ) (s : List ℕ)
    → b ≤ high
    → Above b s
    → all_of (within 1 high) s ≡ true
    → b + length s ≤ high
Above-length b high [] le a h = omega arith
Above-length b high (x ∷ s) le a h =
    omega (arith, Above-length x high s (ground arith) a.1 (ground arith), a.0)

Ascending-length :
    (high : ℕ) (s : List ℕ) → Ascending s → all_of (within 1 high) s ≡ true → length s ≤ high
Ascending-length high [] a h = omega arith
Ascending-length high (x ∷ s) a h =
    let low : 1 ≤ x = ground arith in
    omega (arith, low, Above-length x high s (ground arith) a (ground arith))

day_numbers-ok :
    (values : List ℕ) (high : ℕ) {ds : List ℕ}
    → day_numbers values 1 high ≡ ok ds
    → (days_fit high ds ≡ true) × (normalize ds ≡ ds)
unfolding day_numbers normalize
day_numbers-ok values high {ds} h =
    let unique = set_of values in
    let rest =
      past_guard (length unique == 0)
        (if all_of (within 1 high) unique then ok (sorted unique) else err validation) ds h in
    let kept = guarded (all_of (within 1 high) unique) (sorted unique) ds rest.1 in
    let every : all_of (within 1 high) (sorted unique) ≡ true =
      all_of-elem (within 1 high) (sorted unique)
        (λ x e. elem-all_of (within 1 high) unique x kept.0 (sym (elem-sorted x unique) ∙ e)) in
    let size : length (sorted unique) ≡ length unique = length-sorted unique in
    let filled = rest.0 in
    let bound : length (sorted unique) ≤ high =
      Ascending-length high (sorted unique) (sorted-Ascending unique (set_of-Distinct values))
        every in
    let fits : days_fit high (sorted unique) ≡ true =
      rw every (ground (arith, bound, size, filled)) in
    (
      subst (λ l. days_fit high l ≡ true) kept.1 fits,
      subst (λ l. normalize l ≡ l) kept.1 (normalize_twice values),
    )

-- Whatever the builder gives, the contract takes as it is.
abbrev pub BuildsValid : Result Schedule → Type 0
BuildsValid built = (s : Schedule) → built ≡ ok s → validate s ≡ ok s

build_once-valid : (d : Date) (at : Time) → BuildsValid (build_once_schedule d at)
unfolding build_once_schedule validate
build_once-valid d at s h =
    let walls = >>=-eq-ok (wall_time at) (λ t. ok (once (combine d t))) h in
    let whole = guarded (at % minute == 0) at walls.0 walls.1 in
    let same : once (combine d at) ≡ s =
      ap (λ t. once (combine d t)) whole.1 ∙ ok-injective walls.2 in
    let precise : combine d at % minute == 0 ≡ true = ground (arith, whole.0) in
    subst (λ x. validate x ≡ ok x) same (rw precise refl)

build_daily-valid :
    (times : List Time)
    → all_of (λ t. ltb t day) times ≡ true
    → BuildsValid (build_daily_schedule times)
unfolding build_daily_schedule validate
build_daily-valid times d s h =
    let kept = >>=-eq-ok (times_of times) (λ ts. ok (daily ts 1)) h in
    let fits = times_of-ok times {ts = kept.0} d kept.1 in
    subst (λ x. validate x ≡ ok x) (ok-injective kept.2) (rw (fits.0, fits.1) refl)

build_weekly-valid :
    (times : List Time) (weekdays : List ℕ)
    → all_of (λ t. ltb t day) times ≡ true
    → BuildsValid (build_weekly_schedule times weekdays)
unfolding build_weekly_schedule validate
build_weekly-valid times weekdays d s h =
    let kept =
      >>=-eq-ok (times_of times) (λ ts. day_numbers weekdays 1 7 >>= λ ds. ok (weekly ts ds)) h in
    let fits = times_of-ok times {ts = kept.0} d kept.1 in
    let days = >>=-eq-ok (day_numbers weekdays 1 7) (λ ds. ok (weekly kept.0 ds)) kept.2 in
    let days_ok = day_numbers-ok weekdays 7 {ds = days.0} days.1 in
    subst (λ x. validate x ≡ ok x) (ok-injective days.2)
      (rw (fits.0, fits.1, days_ok.0, days_ok.1) refl)

build_monthly-valid :
    (times : List Time) (days : List ℕ) (rule : MissingDay)
    → all_of (λ t. ltb t day) times ≡ true
    → BuildsValid (build_monthly_schedule times days rule)
unfolding build_monthly_schedule validate
build_monthly-valid times days rule d s h =
    let kept =
      >>=-eq-ok (times_of times) (λ ts. day_numbers days 1 31 >>= λ ds. ok (monthly ts ds rule))
        h in
    let fits = times_of-ok times {ts = kept.0} d kept.1 in
    let numbers = >>=-eq-ok (day_numbers days 1 31) (λ ds. ok (monthly kept.0 ds rule)) kept.2 in
    let days_ok = day_numbers-ok days 31 {ds = numbers.0} numbers.1 in
    subst (λ x. validate x ≡ ok x) (ok-injective numbers.2)
      (rw (fits.0, fits.1, days_ok.0, days_ok.1) refl)

build_interval-valid :
    (every : ℕ) (from to : Time)
    → from < day
    → to < day
    → BuildsValid (build_interval_schedule every from to)
unfolding build_interval_schedule validate
build_interval-valid every from to a b s h =
    let start =
      guarded_chain (within 5 1440 every)
        (wall_time from >>= λ f. wall_time to >>= λ t. ok (interval every f t)) s h in
    let first =
      >>=-eq-ok (wall_time from) (λ f. wall_time to >>= λ t. ok (interval every f t)) start.1 in
    let second = >>=-eq-ok (wall_time to) (λ t. ok (interval every first.0 t)) first.2 in
    let from_ok = guarded (from % minute == 0) from first.0 first.1 in
    let to_ok = guarded (to % minute == 0) to second.0 second.1 in
    let same : interval every from to ≡ s =
      ap (λ f. interval every f to) from_ok.1
      ∙ ap (λ t. interval every first.0 t) to_ok.1
      ∙ ok-injective second.2 in
    let fits : within 5 1440 every && (is_wall_time from && is_wall_time to) ≡ true =
      ground (arith, start.0, from_ok.0, to_ok.0) in
    subst (λ x. validate x ≡ ok x) same (rw fits refl)

-- Every schedule that a builder of the wizard gives is one that the schedule contract takes, and
-- takes as it is: its lists are in order, without repeats and within the limits. (The times are
-- times of a day, as Python's `time` is.)
pub builders_valid :
    (d : Date) (at from to : Time) (times : List Time) (days : List ℕ) (rule : MissingDay)
    (every : ℕ)
    → all_of (λ t. ltb t day) times ≡ true
    → from < day
    → to < day
    → BuildsValid (build_once_schedule d at)
      × BuildsValid (build_daily_schedule times)
      × BuildsValid (build_weekly_schedule times days)
      × BuildsValid (build_monthly_schedule times days rule)
      × BuildsValid (build_interval_schedule every from to)
builders_valid d at from to times days rule every h a b = (
  build_once-valid d at,
  build_daily-valid times h,
  build_weekly-valid times days h,
  build_monthly-valid times days rule h,
  build_interval-valid every from to a b,
)

-- None: nothing fires in (after, until]. Some moment: it fires there.
abbrev pub Answers : (Moment → Type 0) → Moment → Moment → Option Moment → Type 0
Answers Fired after until none = (m : Moment) → after < m → m ≤ until → ¬ Fired m
Answers Fired after until (some m) = (after < m) × (m ≤ until) × Fired m

first_of-Answers :
    (after until : Moment) (Fired : Moment → Type 0) (r : List Moment)
    → IsExpansion Fired after until 1 r
    → Answers Fired after until (first_of r)
unfolding elem
first_of-Answers after until Fired [] x = λ m lo hi f. ground (arith, x.complete m lo hi f)
first_of-Answers after until Fired (m ∷ ms) x = x.sound m (ground arith)

-- The wizard refuses a schedule exactly when it has no firing moment from `starts_at` on among the
-- local days that it looks ahead, and otherwise it shows a moment at which the schedule fires there.
pub first_fire_at-Answers :
    (s : Schedule) (z : Zone) (starts_at : Moment) (max_days_ahead : ℕ)
    → Answers
        (Visited s z (starts_at - boundary) (starts_at + max_days_ahead * day))
        (starts_at - boundary)
        (starts_at + max_days_ahead * day)
        (first_fire_at s z starts_at max_days_ahead)
unfolding first_fire_at
first_fire_at-Answers s z starts_at max_days_ahead =
    let after = starts_at - boundary in
    let until = starts_at + max_days_ahead * day in
    first_of-Answers after until (Visited s z after until) (next_occurrences s z after until 1)
      (search-IsExpansion s z after until 1)

-- The schedule fires at the moment, from the start on and within the days ahead.
pub FiresAhead : Schedule → Zone → Moment → ℕ → Moment → Type 0
FiresAhead s z starts_at max_days_ahead m =
    (starts_at ≤ m) × (m ≤ starts_at + max_days_ahead * day) × Fires s z m

pub first_fire_at-FiresAhead :
    (s : Schedule) (z : Zone) (starts_at : Moment) (max_days_ahead : ℕ) {m : Moment}
    → 0 < starts_at
    → first_fire_at s z starts_at max_days_ahead ≡ some m
    → FiresAhead s z starts_at max_days_ahead m
unfolding FiresAhead
first_fire_at-FiresAhead s z starts_at max_days_ahead {m} late h =
    let after = starts_at - boundary in
    let until = starts_at + max_days_ahead * day in
    let x =
      subst (Answers (Visited s z after until) after until) h
        (first_fire_at-Answers s z starts_at max_days_ahead) in
    (omega (arith, x.0), x.1, Visited-Fires s z after until m x.2)

-- A title that was normalised is normalised to itself, and it has the words of the text that was
-- typed.
pub normalize_reminder_title_twice :
    (is_space : ℕ → Bool) (raw : Text) {title : Text}
    → is_space 32 ≡ true
    → normalize_reminder_title is_space raw ≡ ok title
    → (normalize_reminder_title is_space title ≡ ok title)
      × (words is_space title ≡ words is_space raw)
unfolding normalize_reminder_title
normalize_reminder_title_twice is_space raw {title} sp h =
    let joined = join_words (words is_space raw) in
    let kept = guarded (within 1 120 (length joined)) joined title h in
    let same : words is_space joined ≡ words is_space raw = words-join is_space raw sp in
    (
      subst (λ t. normalize_reminder_title is_space t ≡ ok t) kept.1 (rw same (rw kept.0 refl)),
      subst (λ t. words is_space t ≡ words is_space raw) kept.1 same,
    )
