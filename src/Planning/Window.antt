-- ===== src/Planning/Window.antt =====
-- The window is every boundary at once, and the settled horizon leaves nothing behind.
use remindo.Prelude.{
  ℕ, ◌+◌, ◌*◌, ◌≤◌, ◌<◌, ◌≡◌, ◌↔◌, true, Option, none, some, List, [], ◌∷◌, arith, max, leb, length,
  last_of, elem, elem-last_of, Bool-cases, inl, inr,
}
use remindo.Time.{Moment, Duration, day}
use remindo.Time.Zone.{Zone, IsZone, IsWholeSeconds, IsSteady}
use remindo.Schedules.{Schedule}
use remindo.Recurrence.{next_occurrences}
use remindo.Recurrence.Expand.{
  Fires, Visited, IsExpansion, IsInitial, IsUnbroken, search-IsExpansion,
  next_occurrences-IsInitial, next_occurrences-IsExpansion,
}
use remindo.Recurrence.Days.{Fits}
use remindo.Planning.{
  PlanBounds, PlanWindow, plan_window, settle_plan, settled_until, expand_window, window_after,
  window_until,
}

-- The bound is not reached: no bound, or one that lies at or past the moment.
abbrev pub Before : Moment → Option Moment → Type 0
Before m none = Unit
Before m (some e) = m ≤ e

abbrev pub Past : Option Moment → Moment → Type 0
Past none m = Unit
Past (some p) m = p < m

window_after_range :
    (s : Moment) (p : Option Moment) (m : Moment)
    → 0 < s
    → (window_after s p < m) ↔ ((s ≤ m) × Past p m)
unfolding window_after
window_after_range s none m h = ground arith
window_after_range s (some p) m h = ground arith

window_until_range :
    (horizon : Moment) (e : Option Moment) (m : Moment)
    → (m ≤ window_until horizon e) ↔ ((m ≤ horizon) × Before m e)
unfolding window_until
window_until_range horizon none m = ground arith
window_until_range horizon (some e) m = ground arith

-- A moment lies in the window exactly when it is not before the start, not planned already, inside
-- the horizon and not after the end.
pub plan_window_range :
    (b : PlanBounds) (horizon fired batch : ℕ) (m : Moment)
    → 0 < b.starts_at
    → let w = plan_window b horizon fired batch in
      ((w.after < m) × (m ≤ w.until))
      ↔ ((b.starts_at ≤ m) × Past b.planned_until m × (m ≤ horizon) × Before m b.ends_at)
unfolding plan_window
plan_window_range b horizon fired batch m h =
    let lo = window_after_range b.starts_at b.planned_until m h in
    let hi = window_until_range horizon b.ends_at m in
    (
      λ p. ((lo.0 p.0).0, (lo.0 p.0).1, (hi.0 p.1).0, (hi.0 p.1).1),
      λ p. (lo.1 (p.0, p.1), hi.1 (p.2, p.3)),
    )

module _ (Fired : Moment → Type 0) (w : PlanWindow) (room : 0 < w.limit) where
  settled_covers :
      (r : List Moment)
      → IsExpansion Fired w.after w.until w.limit r
      → IsInitial Fired w.after w.until r
      → (m : Moment) → w.after < m
      → m ≤ settled_until w r
      → Fired m
      → elem m r ≡ true
  unfolding settled_until elem
  settled_covers [] x i m lo hi f = ground (arith, x.complete m lo)
  settled_covers (y ∷ ys) x i m lo hi f = elim (Bool-cases (leb w.limit (length (y ∷ ys)))) [
    | inl full ↦
        let le : m ≤ last_of y ys = ground arith in
        let last = x.sound (last_of y ys) (elem-last_of y ys) in
        i.initial m (last_of y ys) lo (omega (arith, last.1)) f (elem-last_of y ys) le
    | inr part ↦ ground (arith, x.complete m lo)
  ]

-- The guard of the service is that of `next_occurrences`.
pub expand_window-eq :
    (s : Schedule) (z : Zone) (w : PlanWindow)
    → expand_window s z w ≡ next_occurrences s z w.after w.until w.limit
unfolding expand_window next_occurrences
expand_window-eq s z w = ground arith

-- While the budget has room, a cycle whose search came to its end leaves nothing behind: whatever
-- fires in the window up to the horizon that the cycle records is among the moments it writes.
pub settle_plan_covers :
    (s : Schedule) {z : Zone} {back : Duration} (b : PlanBounds)
    (horizon fired_before fired_after batch : ℕ) (m : Moment)
    → let w = plan_window b horizon fired_before batch in
      IsZone z
      → IsWholeSeconds z
      → IsSteady z back
      → back ≤ day
      → Fits back s
      → 4 * day ≤ w.after
      → w.until ≤ w.after + 3656 * day
      → 0 < w.limit
      → IsUnbroken s z w.after w.until w.limit
      → w.after < m
      → Fires s z m
      → m ≤ (settle_plan b w (expand_window s z w) fired_after).planned_until
      → elem m (expand_window s z w) ≡ true
unfolding settle_plan
settle_plan_covers s {z} b horizon fired_before fired_after batch m laws ws st small fits early
      short room u lo f hi =
    let w = plan_window b horizon fired_before batch in
    rw (expand_window-eq s z w) (
      settled_covers (Fires s z) w room (next_occurrences s z w.after w.until w.limit)
        (next_occurrences-IsExpansion s w.after w.until w.limit laws ws st small fits early short)
        (next_occurrences-IsInitial s w.after w.until w.limit laws ws st small fits early short u) m
        lo (rw (expand_window-eq s z w) at hi) f)

settled_until-le :
    (Fired : Moment → Type 0) (w : PlanWindow) (r : List Moment)
    → IsExpansion Fired w.after w.until w.limit r
    → (w.after ≤ settled_until w r) × (settled_until w r ≤ max w.after w.until)
unfolding settled_until
settled_until-le Fired w [] x = omega arith
settled_until-le Fired w (y ∷ ys) x = ground (arith, x.sound (last_of y ys) (elem-last_of y ys))

window_after_next :
    (s : Moment) (p : Option Moment) (q : Moment)
    → window_after s p ≤ q
    → window_after s (some q) ≡ q
unfolding window_after
window_after_next s none q h = ground arith
window_after_next s (some p) q h = ground arith

-- The recorded horizon never goes back and never passes the window, and the next window opens right
-- behind it: no moment is looked at twice.
pub settle_plan_advances :
    (s : Schedule) (z : Zone) (b : PlanBounds)
    (horizon next_horizon fired_before fired_after batch : ℕ)
    → let w = plan_window b horizon fired_before batch in
      let o = settle_plan b w (expand_window s z w) fired_after in
      let next =
        plan_window
          (record b { planned_until = some o.planned_until })
          next_horizon
          fired_after
          batch in
      (w.after ≤ o.planned_until)
      × (o.planned_until ≤ max w.after w.until)
      × (next.after ≡ o.planned_until)
unfolding settle_plan plan_window
settle_plan_advances s z b horizon next_horizon fired_before fired_after batch =
    let w = plan_window b horizon fired_before batch in
    let x = search-IsExpansion s z w.after w.until w.limit in
    let le = settled_until-le (Visited s z w.after w.until) w _ x in
    rw (expand_window-eq s z w) (le.0, le.1, window_after_next b.starts_at b.planned_until _ le.0)
