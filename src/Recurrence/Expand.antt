-- ===== src/Recurrence/Expand.antt =====
-- `next_occurrences`: order, range, soundness and completeness of the result.
use remindo.Prelude.{
  ℕ, ◌+◌, ◌*◌, ◌≤◌, ◌<◌, ◌≡◌, ◌⊎◌, inl, inr, Bool, true, false, ◌||◌, List, [], ◌∷◌, arith, leb,
  ◌==◌, if◌then◌else◌, length, length-take_le, elem, sorted, Ascending, elem-sorted,
  sorted-Ascending, take-Ascending, elem-take, elem-take_full, length-sorted, length-take_full,
  take_initial, Bool-cases,
}
use remindo.Time.{Moment, Date, Duration, day}
use remindo.Time.Zone.{Zone, IsZone, IsWholeSeconds, IsSteady}
use remindo.Recurrence.Days.{on_some_day, on_some_day_sound, Fits, visited}
use remindo.Schedules.{Schedule, once}
use remindo.Recurrence.{
  to_utc, moments_for_day, local_days, in_range, collect, expand_days, next_occurrences,
  safety_buffer,
}
use remindo.Recurrence.Collect.{collect-Distinct, collect_sound, collect_complete}

-- The schedule fires at the moment: its own for `once`, a moment of some local day for the others.
unfoldable pub Fires : Schedule → Zone → Moment → Type 0
Fires (once at) z m = m ≡ to_utc at z
Fires other z m = (d : Date) × (elem m (moments_for_day other z d) ≡ true)

unfoldable pub Visited : Schedule → Zone → Moment → Moment → Moment → Type 0
Visited (once at) z after until m = m ≡ to_utc at z
Visited other z after until m = on_some_day other z m (local_days z after until) ≡ true

-- What a caller may rely on.
pub record IsExpansion (Fired : Moment → Type 0) (after until : Moment) (limit : ℕ)
    (r : List Moment) : Type 0 where
  pub ascending : Ascending r
  pub bounded : length r ≤ limit
  pub sound : (m : Moment) → elem m r ≡ true → (after < m) × (m ≤ until) × Fired m
  pub complete :
      (m : Moment) → after < m → m ≤ until → Fired m → (elem m r ≡ true) ⊎ (length r ≡ limit)

module _ (s : Schedule) (z : Zone) (after until : Moment) (limit : ℕ) where
  abbrev collected : List Moment
  collected = collect s z after until limit (local_days z after until) []

  expand_days-IsExpansion :
      IsExpansion
        (λ m. on_some_day s z m (local_days z after until) ≡ true)
        after
        until
        limit
        (expand_days s z after until limit)
  unfolding expand_days elem
  expand_days-IsExpansion = record {
    ascending = take-Ascending limit (sorted collected) (
        sorted-Ascending collected
          (collect-Distinct s z after until limit (local_days z after until) [] tt));
    bounded = length-take_le limit (sorted collected);
    sound = λ m h. ground (
      arith,
      elem-take m limit (sorted collected) h,
      elem-sorted m collected,
      collect_sound s z after until limit m (local_days z after until) [],
    );
    complete = λ m lo hi f. ground (
      arith,
      elem-take_full m limit (sorted collected),
      elem-sorted m collected,
      length-sorted collected,
      length-take_full limit (sorted collected),
      collect_complete s z after until limit m (local_days z after until) [],
    );
  }

guarded-IsExpansion :
    (Fired : Moment → Type 0) (after until : Moment) (limit : ℕ) (r : List Moment)
    → ((limit == 0) || leb until after ≡ false → IsExpansion Fired after until limit r)
    → IsExpansion Fired after until limit (if (limit == 0) || leb until after then [] else r)
unfolding elem
guarded-IsExpansion Fired after until limit r x =
    elim (Bool-cases ((limit == 0) || leb until after)) [
      | inl e ↦ rw e (record {
        ascending = tt;
        bounded = omega arith;
        sound = λ m h. ground arith;
        complete = λ m lo hi f. ground arith;
      })
      | inr e ↦ rw e (x e)
    ]

once-IsExpansion :
    (at after until : Moment) (limit : ℕ)
    → (limit == 0) || leb until after ≡ false
    → IsExpansion (λ m. m ≡ at) after until limit (if in_range after until at then at ∷ [] else [])
unfolding elem
once-IsExpansion at after until limit e = record {
  ascending = ground arith;
  bounded = ground arith;
  sound = λ m h. ground arith;
  complete = λ m lo hi f. ground arith;
}

-- Another description of the same moments in the range.
renamed :
    {P Q : Moment → Type 0} {after until : Moment} {limit : ℕ} {r : List Moment}
    → ((m : Moment) → P m → Q m)
    → ((m : Moment) → after < m → m ≤ until → Q m → P m)
    → IsExpansion P after until limit r
    → IsExpansion Q after until limit r
renamed there back x = record {
  ascending = x.ascending;
  bounded = x.bounded;
  sound = λ m h. let (lo, hi, f) = x.sound m h in (lo, hi, there m f);
  complete = λ m lo hi f. x.complete m lo hi (back m lo hi f);
}

-- The result, described by the days that the search visits.
pub search-IsExpansion :
    (s : Schedule) (z : Zone) (after until : Moment) (limit : ℕ)
    → IsExpansion
        (Visited s z after until)
        after
        until
        limit
        (next_occurrences s z after until limit)
unfolding next_occurrences Visited
search-IsExpansion (once at) z after until limit =
    guarded-IsExpansion _ after until limit _ (once-IsExpansion (to_utc at z) after until limit)
search-IsExpansion s z after until limit =
    guarded-IsExpansion _ after until limit _ (λ _. expand_days-IsExpansion _ z after until limit)

pub Visited-Fires :
    (s : Schedule) (z : Zone) (after until m : Moment) → Visited s z after until m → Fires s z m
unfolding Visited Fires
Visited-Fires (once at) z after until m h = h
Visited-Fires s z after until m h = on_some_day_sound _ z m (local_days z after until) h

Fires-Visited :
    (s : Schedule) {z : Zone} {b : Duration} (after until : Moment) {m : Moment}
    → IsZone z
    → IsWholeSeconds z
    → IsSteady z b
    → b ≤ day
    → Fits b s
    → 4 * day ≤ after
    → until ≤ after + 3656 * day
    → after < m
    → m ≤ until
    → Fires s z m
    → Visited s z after until m
unfolding Visited Fires
Fires-Visited (once at) after until laws ws st small fits early short lo hi h = h
Fires-Visited s after until {m} laws ws st small fits early short lo hi (d, h) =
    visited laws ws st after until m early lo hi _ d small fits short h

-- With an empty range or no room the result is empty; otherwise it is the moments at which the
-- schedule fires on any local day whatever, in (after, until], ascending, each once, and all of them
-- unless the limit is used up. For a range of up to 3656 days that begins four days after
-- datetime.min or later, a zone whose transitions are at whole seconds and set the clock back by `b`
-- in all, at most a day, and times of day in whole seconds; a window across midnight closes more than `b`
-- before the next midnight.
pub next_occurrences-IsExpansion :
    (s : Schedule) {z : Zone} {b : Duration} (after until : Moment) (limit : ℕ)
    → IsZone z
    → IsWholeSeconds z
    → IsSteady z b
    → b ≤ day
    → Fits b s
    → 4 * day ≤ after
    → until ≤ after + 3656 * day
    → IsExpansion (Fires s z) after until limit (next_occurrences s z after until limit)
next_occurrences-IsExpansion s {z} after until limit laws ws st small fits early short =
    renamed (λ m. Visited-Fires s z after until m)
      (λ m lo hi f. Fires-Visited s after until laws ws st small fits early short lo hi f)
      (search-IsExpansion s z after until limit)

-- Everything that fires before a moment of the list is on the list.
pub record IsInitial (Fired : Moment → Type 0) (after until : Moment) (r : List Moment)
    : Type 0 where
  pub initial :
      (m x : Moment) → after < m → m ≤ until → Fired m → elem x r ≡ true → m ≤ x → elem m r ≡ true

-- The search over the local days came to its end before the buffer was full.
abbrev pub IsUnbroken : Schedule → Zone → Moment → Moment → ℕ → Type 0
IsUnbroken s z after until limit =
    length (collect s z after until limit (local_days z after until) []) < limit + safety_buffer

module _ (s : Schedule) (z : Zone) (after until : Moment) (limit : ℕ) where
  expand_days-IsInitial :
      IsUnbroken s z after until limit
      → IsInitial
          (λ m. on_some_day s z m (local_days z after until) ≡ true)
          after
          until
          (expand_days s z after until limit)
  unfolding expand_days elem
  expand_days-IsInitial u =
      let c = collect s z after until limit (local_days z after until) [] in
      record {
        initial = λ m x lo hi f h le.
            take_initial limit m x (sorted c)
              (sorted-Ascending c
                (collect-Distinct s z after until limit (local_days z after until) [] tt))
              (ground (
                arith,
                elem-sorted m c,
                collect_complete s z after until limit m (local_days z after until) [],
              ))
              h le;
      }

guarded-IsInitial :
    (Fired : Moment → Type 0) (after until : Moment) (c : Bool) (r : List Moment)
    → IsInitial Fired after until r
    → IsInitial Fired after until (if c then [] else r)
unfolding elem
guarded-IsInitial Fired after until true r x = record { initial = λ m x lo hi f h le. h }
guarded-IsInitial Fired after until false r x = x

once-IsInitial :
    (at after until : Moment)
    → IsInitial (λ m. m ≡ at) after until (if in_range after until at then at ∷ [] else [])
unfolding elem
once-IsInitial at after until = record { initial = λ m x lo hi f h le. ground arith }

renamed-IsInitial :
    {P Q : Moment → Type 0} {after until : Moment} {r : List Moment}
    → ((m : Moment) → after < m → m ≤ until → Q m → P m)
    → IsInitial P after until r
    → IsInitial Q after until r
renamed-IsInitial back x = record {
  initial = λ m y lo hi f h le. x.initial m y lo hi (back m lo hi f) h le;
}

search-IsInitial :
    (s : Schedule) (z : Zone) (after until : Moment) (limit : ℕ)
    → IsUnbroken s z after until limit
    → IsInitial (Visited s z after until) after until (next_occurrences s z after until limit)
unfolding next_occurrences Visited
search-IsInitial (once at) z after until limit u =
    guarded-IsInitial _ after until _ _ (once-IsInitial (to_utc at z) after until)
search-IsInitial s z after until limit u =
    guarded-IsInitial _ after until _ _ (expand_days-IsInitial _ z after until limit u)

-- A search that came to its end leaves no gap below the moments that it returns.
pub next_occurrences-IsInitial :
    (s : Schedule) {z : Zone} {b : Duration} (after until : Moment) (limit : ℕ)
    → IsZone z
    → IsWholeSeconds z
    → IsSteady z b
    → b ≤ day
    → Fits b s
    → 4 * day ≤ after
    → until ≤ after + 3656 * day
    → IsUnbroken s z after until limit
    → IsInitial (Fires s z) after until (next_occurrences s z after until limit)
next_occurrences-IsInitial s {z} after until limit laws ws st small fits early short u =
    renamed-IsInitial
      (λ m lo hi f. Fires-Visited s after until laws ws st small fits early short lo hi f)
      (search-IsInitial s z after until limit u)
