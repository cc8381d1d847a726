-- ===== src/Services/Planning/Sound.antt =====
-- What a planner cycle may add to the queue.
use remindo.Prelude.{
  ℕ, ◌+◌, ◌<◌, ◌≤◌, ◌≡◌, ◌⊎◌, inl, inr, true, Option, none, some, List, [], ◌∷◌, arith, elem,
  Bool-cases, ==_iff,
}
use remindo.Time.{Moment, Duration}
use remindo.Recurrence.Expand.{Fires, Visited-Fires, search-IsExpansion}
use remindo.Planning.{window_after, window_until, plan_window, max_occurrences_per_cycle}
use remindo.Planning.Window.{Before, Past, expand_window-eq}
use remindo.Db.{Db, User, Reminder}
use remindo.Db.Table.{get}
use remindo.Db.Occurrences
use remindo.Db.Reminders
use remindo.Db.People
use remindo.Services.Reactions.{quiet_hours_of}
use remindo.Services.Planning.{
  bounds_of, moments_of, close_plan, materialize_one, materialize_due, materialize_all, materialize,
}
use remindo.Services.Planning.Union.{planned, write_rows-union}

-- The moment is one that the reminder may be planned for: its schedule fires there, not before its start,
-- behind what was planned, and not after the horizon or its end.
pub record MayPlan (horizon_end : Moment) (r : Reminder) (m : Moment) : Type 0 where
  pub fires : Fires r.schedule r.timezone m
  pub started : r.starts_at ≤ m
  pub ahead : Past r.planned_until m
  pub near : m ≤ horizon_end
  pub unended : Before m r.ends_at

after_bounds :
    (s : Moment) (p : Option Moment) (m : Moment) → window_after s p < m → (s ≤ m) × Past p m
unfolding window_after
after_bounds s none m h = ground arith
after_bounds s (some p) m h = ground arith

until_bounds :
    (horizon_end : Moment) (e : Option Moment) (m : Moment)
    → m ≤ window_until horizon_end e
    → (m ≤ horizon_end) × Before m e
unfolding window_until
until_bounds horizon_end none m h = ground arith
until_bounds horizon_end (some e) m h = ground arith

moments_of-MayPlan :
    (r : Reminder) (horizon_end : Moment) (fired : ℕ) (m : Moment)
    → elem m (moments_of r horizon_end fired) ≡ true
    → MayPlan horizon_end r m
unfolding moments_of bounds_of plan_window
moments_of-MayPlan r horizon_end fired m h =
    let w = plan_window (bounds_of r) horizon_end fired max_occurrences_per_cycle in
    let x = search-IsExpansion r.schedule r.timezone w.after w.until w.limit in
    let found = x.sound m (rw (expand_window-eq r.schedule r.timezone w) at h) in
    let lo = after_bounds r.starts_at r.planned_until m found.0 in
    let hi = until_bounds horizon_end r.ends_at m found.1 in
    record {
      fires = Visited-Fires r.schedule r.timezone w.after w.until m found.2;
      started = lo.0;
      ahead = lo.1;
      near = hi.0;
      unended = hi.1;
    }

-- Some reminder of the list under the id may be planned for the moment.
abbrev pub SomeMayPlan : Moment → ℕ → Moment → List Reminder → Type 0
SomeMayPlan horizon_end i m [] = ⊥
SomeMayPlan horizon_end i m (r ∷ rs) =
    ((r.id ≡ i) × MayPlan horizon_end r m) ⊎ SomeMayPlan horizon_end i m rs

one_sound :
    (ttl : Duration) (horizon_end : Moment) (r : Reminder) (u : User) (db : Db) (i m : ℕ)
    → planned (materialize_one ttl horizon_end r u db).0 i m ≡ true
    → (planned db i m ≡ true) ⊎ ((r.id ≡ i) × MayPlan horizon_end r m)
unfolding materialize_one close_plan
one_sound ttl horizon_end r u db i m h =
    let moments = moments_of r horizon_end (Occurrences.count_for_reminder r.id db.occurrences) in
    let union = (write_rows-union r.id (quiet_hours_of u) ttl moments db).0 i m in
    elim (Bool-cases (planned db i m)) [
      | inl e ↦ inl e
      | inr e ↦
          let here : (r.id ≡ i) × (elem m moments ≡ true) = ground (arith, union, ==_iff r.id i) in
          inr (here.0, moments_of-MayPlan r horizon_end _ m here.1)
    ]

due_sound :
    (ttl : Duration) (horizon_end : Moment) (r : Reminder) (u : Option User) (db : Db) (i m : ℕ)
    → planned (materialize_due ttl horizon_end r u db).0 i m ≡ true
    → (planned db i m ≡ true) ⊎ ((r.id ≡ i) × MayPlan horizon_end r m)
unfolding materialize_due
due_sound ttl horizon_end r none db i m h = inl h
due_sound ttl horizon_end r (some u) db i m h = one_sound ttl horizon_end r u db i m h

all_sound :
    (ttl : Duration) (horizon_end : Moment) (rs : List Reminder) (db : Db) (i m : ℕ)
    → planned (materialize_all ttl horizon_end rs db).0 i m ≡ true
    → (planned db i m ≡ true) ⊎ SomeMayPlan horizon_end i m rs
unfolding materialize_all
all_sound ttl horizon_end [] db i m h = inl h
all_sound ttl horizon_end (r ∷ rs) db i m h =
    let u = get People.id_of r.owner_id db.users in
    elim (all_sound ttl horizon_end rs (materialize_due ttl horizon_end r u db).0 i m h) [
      | inr later ↦ inr (inr later)
      | inl before ↦ elim (due_sound ttl horizon_end r u db i m before) [
        | inl old ↦ inl old
        | inr new ↦ inr (inl new)
      ]
    ]

-- A planner cycle adds to the queue only moments that some reminder which was due for planning may have:
-- its schedule fires there on some local day, from its start on, behind the horizon that was planned
-- before, and up to the cycle's horizon and its own end. Everything else was there before.
pub materialize_sound :
    (horizon ttl : Duration) (batch : ℕ) (now : Moment) (db : Db) (i m : ℕ)
    → planned (materialize horizon ttl batch now db).0 i m ≡ true
    → (planned db i m ≡ true)
      ⊎ SomeMayPlan
          (now + horizon)
          i
          m
          (Reminders.due_for_planning (now + horizon) batch db.reminders)
unfolding materialize
materialize_sound horizon ttl batch now db i m h =
    all_sound ttl (now + horizon) (Reminders.due_for_planning (now + horizon) batch db.reminders) db
      i m h
