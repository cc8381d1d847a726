-- ===== src/System/Answered.antt =====
-- What was answered stays answered.
use remindo.Prelude.{
  ℕ, ◌+◌, ◌<◌, ◌≡◌, ◌≢◌, refl, Bool, true, false, not, ◌||◌, List, [], ◌∷◌, ◌++◌, elem, ◌==◌,
  all_of, arith, Bool-cases, inl, inr, ==_iff,
}
use remindo.Contracts.{is_terminal_delivery}
use remindo.Db.{Db, Delivery}
use remindo.Db.Insert.{taken, insert_rows}
use remindo.Db.Rows.{all_of-update_where, all_of-keep_if, append-all_of}
use remindo.Db.Deliveries
use remindo.Db.Deliveries.{NewDelivery}
use remindo.System.Frame.{is_open, Frame, open_invite-Queues}
use remindo.System.Jobs.{claimed_open, candidate_open}
use remindo.System.Calls.{event-Allowed, step-keeps}
use remindo.System.{Event, claim, read_repeats, begun, follows, step, run}

-- Not the delivery `i`, or in a terminal status.
abbrev pub is_over : ℕ → Delivery → Bool
is_over i d = not (d.id == i) || is_terminal_delivery d.status

-- The delivery `i`, if it is there, is in a terminal status; its id was given out.
pub record Over (i : ℕ) (db : Db) : Type 0 where
  pub rows : all_of (is_over i) db.deliveries ≡ true
  pub given : i < db.next_delivery

over_not_open :
    (i j : ℕ) (t : List Delivery) → all_of (is_over i) t ≡ true → is_open j t ≡ true → j ≢ i
over_not_open i j [] h o e = absurd (ground arith)
over_not_open i j (d ∷ t) h o e = ground (arith, over_not_open i j t, ==_iff d.id j, ==_iff d.id i)

inserted :
    (i : ℕ) (rows : List NewDelivery) (next : ℕ) (t : List Delivery)
    → i < next
    → all_of (is_over i) t ≡ true
    → all_of (is_over i) (Deliveries.insert_missing rows next t).0 ≡ true
unfolding insert_rows
inserted i [] next t lt h = h
inserted i (n ∷ ns) next t lt h =
    inserted i ns (next + 1) _ (omega arith)
      (elim (Bool-cases (taken Deliveries.conflicts Deliveries.new_row n t)) [
        | inl e ↦ rw e h
        | inr e ↦ rw e (append-all_of (is_over i) t _ h (unfold Deliveries.new_row in ground arith))
      ])

elsewhere : (i j : ℕ) (d : Delivery) → j ≢ i → (d.id == j) ≡ true → (d.id == i) ≡ false
elsewhere i j d m here = ground (arith, ==_iff d.id j, ==_iff d.id i)

Over-Frame : (i : ℕ) → Frame (Over i) (λ j. j ≢ i)
Over-Frame i = record {
  may = λ db j c o. over_not_open i j db.deliveries c.rows o;
  settle = λ db j f k m c. record {
    rows =
        all_of-update_where (is_over i) (λ d. d.id == j) f
          (λ d here _. rw (k.id d, elsewhere i j d m here) refl) db.deliveries c.rows;
    given = c.given;
  };
  touch = λ db p f k s c. record {
    rows = all_of-update_where (is_over i) p f (λ d _ h. rw (k.id d, s d) h) db.deliveries c.rows;
    given = c.given;
  };
  touch_firing = λ db p f k c. record { rows = c.rows; given = c.given };
  queue = λ db rows c. record {
    rows = inserted i rows db.next_delivery db.deliveries c.given c.rows;
    given = omega (arith, c.given);
  };
  fire = λ db rows next c. record { rows = c.rows; given = c.given };
  drop = λ db q c. record {
    rows = all_of-keep_if (is_over i) q db.deliveries c.rows;
    given = c.given;
  };
  drop_firings = λ db p c. record { rows = c.rows; given = c.given };
  part = λ db p c. record { rows = c.rows; given = c.given };
  accept = λ db r u now c. record { rows = c.rows; given = c.given };
  own = λ db reminder_id user_id now c. record { rows = c.rows; given = c.given };
  link = λ db token user_id now c.
      let q = open_invite-Queues token user_id now db in
      record { rows = rw q.deliveries c.rows; given = rw q.next_delivery c.given };
  beside =
      λ db db' u c. record { rows = rw u.deliveries c.rows; given = rw u.next_delivery c.given };
}

elem-append_false :
    (i : ℕ) (xs ys : List ℕ) → elem i xs ≡ false → elem i ys ≡ false → elem i (xs ++ ys) ≡ false
unfolding elem
elem-append_false i [] ys h k = k
elem-append_false i (x ∷ xs) ys h k = ground (arith, elem-append_false i xs ys)

-- Nothing begins to write to a delivery that is over.
not_begun : (i : ℕ) (e : Event) (db : Db) → Over i db → elem i (begun e db) ≡ false
unfolding begun elem
not_begun i (claim now lock batch held) db o =
    elim (Bool-cases (elem i (begun (claim now lock batch held) db))) [
      | inl k ↦ absurd (
          over_not_open i i db.deliveries o.rows
            (claimed_open now lock batch held i db.deliveries k) refl)
      | inr k ↦ k
    ]
not_begun i (read_repeats now batch) db o =
    elim (Bool-cases (elem i (begun (read_repeats now batch) db))) [
      | inl k ↦
          absurd (over_not_open i i db.deliveries o.rows (candidate_open now batch db i k) refl)
      | inr k ↦ k
    ]
not_begun i _ db o = refl

-- A delivery that is done, skipped, failed or blocked stays so: no call, in whatever order calls and the
-- commits of the jobs come, changes its status again or gives its id to another row. The attempts and
-- the repeats in the run were begun by a claim or a sweep of the run; at its start none of the
-- delivery is under way.
pub run-Over :
    (i : ℕ) (under_way : List ℕ) (es : List Event) (db : Db)
    → elem i under_way ≡ false
    → follows under_way es db ≡ true
    → Over i db
    → Over i (run es db)
unfolding follows run
run-Over i under_way [] db idle f o = o
run-Over i under_way (e ∷ es) db idle f o =
    run-Over i (begun e db ++ under_way) es (step e db)
      (elem-append_false i (begun e db) under_way (not_begun i e db o) idle) (ground arith)
      (step-keeps (Over-Frame i) e db
        (event-Allowed (λ j. not (elem j under_way)) e
          (λ j h same.
            let known : elem i under_way ≡ true = rw (← same) (ground arith) in ground arith)
          (ground arith))
        o)
