-- ===== src/Services/Reminders/Creation.antt =====
-- What a new reminder and a new schedule promise.
use remindo.Prelude.{
  ℕ, ◌<◌, ◌≡◌, ap, subst, Bool, true, not, Option, none, some, List, [], ◌∷◌, ◌++◌, arith, leb,
  ◌==◌, elem, keep_if, all_of, max,
}
use remindo.Time.{Moment}
use remindo.Contracts.{owner, Result, ok, ◌>>=◌, >>=-eq-ok, ok-injective}
use remindo.Schedules.{Schedule}
use remindo.Wizard.{normalize_reminder_title, normalize_note, first_fire_at, wizard_max_days_ahead}
use remindo.Wizard.Builders.{FiresAhead, first_fire_at-FiresAhead}
use remindo.Db.{Db, Reminder, Recipient}
use remindo.Db.Reminders
use remindo.Db.Occurrences
use remindo.Db.Rows.{kept-all_of}
use remindo.Time.Zone.{Zone}
use remindo.Services.Reminders.{drop_queued}
use remindo.Services.Reminders.Pause.{drop_unsent}
use remindo.Db.People
use remindo.Services.Categories.{get_for_user}
use remindo.Services.Reminders.Writes.{
  NewReminder, create, delete_rows, replace_schedule, set_row, zone_of, must_fire, moment_or_now,
  new_reminder, add_reminder,
}

owner_accepts :
    (r : Reminder) (now : Moment) (t : List Recipient)
    → elem r.owner_id (
        People.list_accepted_user_ids r.id (
          t
          ++ record {
            reminder_id = r.id;
            user_id = r.owner_id;
            role = owner;
            accepted_at = some now;
          }
            ∷ []))
      ≡ true
unfolding elem People.list_accepted_user_ids
owner_accepts r now [] = ground arith
owner_accepts r now (x ∷ t) = ground (arith, owner_accepts r now t)

must_fire-ok : (first : Option Moment) {m : Moment} → must_fire first ≡ ok m → first ≡ some m
must_fire-ok none h = cc
must_fire-ok (some n) h = ap some (ok-injective h)

-- What a row that may be added promises.
abbrev Promises : NewReminder → Moment → Moment → Reminder × Db → Type 0
Promises n now horizon_end made =
    ((m : Moment) × FiresAhead n.schedule made.0.timezone (moment_or_now n.starts_at now)
        wizard_max_days_ahead m)
    × (Reminders.is_due_for_planning horizon_end made.0
        ≡ leb (moment_or_now n.starts_at now) horizon_end)
    × (elem n.owner_id (People.list_accepted_user_ids made.0.id made.1.recipients) ≡ true)

-- The schedule of a reminder that was created fires at some moment from the given start on (from now on,
-- where none is given) within the days that the wizard looks ahead; the planner takes the reminder up
-- as soon as its horizon reaches that start, and the planner's deliveries go to its owner. The start is any but
-- datetime.min.
pub create_lem :
    (is_space : ℕ → Bool) (new_id : ℕ) (n : NewReminder) (now horizon_end : Moment) (db : Db)
    {made : Reminder × Db}
    → let begins = moment_or_now n.starts_at now in
      0 < begins
      → create is_space new_id n now db ≡ ok made
      → ((m : Moment) × FiresAhead n.schedule made.0.timezone begins wizard_max_days_ahead m)
        × (Reminders.is_due_for_planning horizon_end made.0 ≡ leb begins horizon_end)
        × (elem n.owner_id (People.list_accepted_user_ids made.0.id made.1.recipients) ≡ true)
unfolding create
create_lem is_space new_id n now horizon_end db {made} late h =
    let begins = moment_or_now n.starts_at now in
    let row : Zone → Reminder = λ z. new_reminder new_id n z begins in
    let last : Zone → Result (Reminder × Db) = λ z.
      get_for_user n.owner_id n.category_id db >>= λ category.
      ok (row z, add_reminder (row z) now db) in
    let fire : Zone → Result Moment =
      λ z. must_fire (first_fire_at n.schedule z begins wizard_max_days_ahead) in
    let titled =
      >>=-eq-ok (normalize_reminder_title is_space n.title)
        (λ clean_title. normalize_note is_space n.note >>= λ clean_note.
          zone_of n.timezone >>= λ z. fire z >>= λ first. last z)
        h in
    let noted =
      >>=-eq-ok (normalize_note is_space n.note)
        (λ clean_note. zone_of n.timezone >>= λ z. fire z >>= λ first. last z) titled.2 in
    let zoned = >>=-eq-ok (zone_of n.timezone) (λ z. fire z >>= λ first. last z) noted.2 in
    let z : Zone = zoned.0 in
    let fired = >>=-eq-ok (fire z) (λ first. last z) zoned.2 in
    let filed =
      >>=-eq-ok (get_for_user n.owner_id n.category_id db)
        (λ category. ok (row z, add_reminder (row z) now db)) fired.2 in
    subst (Promises n now horizon_end) (ok-injective filed.2) (
      (
        fired.0,
        first_fire_at-FiresAhead n.schedule z begins wizard_max_days_ahead late
            (must_fire-ok (first_fire_at n.schedule z begins wizard_max_days_ahead) fired.1),
      ),
      unfold Reminders.is_due_for_planning in ground arith,
      unfold add_reminder in owner_accepts (row z) now db.recipients,
    )

-- A deletion leaves nothing of the reminder: no row of it and none that refers to it.
pub delete_rows_all :
    (i : ℕ) (db : Db)
    → let after = delete_rows i db in
      (all_of (λ r. not (r.id == i)) after.reminders ≡ true)
      × (all_of (λ r. not (r.reminder_id == i)) after.recipients ≡ true)
      × (all_of (λ v. not (v.reminder_id == i)) after.invites ≡ true)
      × (all_of (λ o. not (o.reminder_id == i)) after.occurrences ≡ true)
unfolding delete_rows
delete_rows_all i db = (
  kept-all_of (λ r. not (r.id == i)) db.reminders,
  kept-all_of (λ r. not (r.reminder_id == i)) db.recipients,
  kept-all_of (λ v. not (v.reminder_id == i)) db.invites,
  kept-all_of (λ o. not (o.reminder_id == i)) db.occurrences,
)

-- A reminder whose schedule was replaced is planned anew: of its occurrences none is left for which
-- nothing was sent, since those belong to the schedule that went away, and its new schedule fires.
pub replace_schedule-drops :
    (s : Schedule) (r : Reminder) (now : Moment) (db : Db) {after : Db}
    → replace_schedule (some s) r now db ≡ ok after
    → (keep_if (Occurrences.is_unsent r.id after.deliveries) after.occurrences ≡ [])
      × ((m : Moment) × (first_fire_at s r.timezone (max r.starts_at now) wizard_max_days_ahead
            ≡ some m))
unfolding replace_schedule
replace_schedule-drops s r now db {after} h =
    let changed = set_row r.id (λ x. record x { schedule = s }) db in
    let first = first_fire_at s r.timezone (max r.starts_at now) wizard_max_days_ahead in
    let fired = >>=-eq-ok (must_fire first) (λ m. ok (drop_queued r changed)) h in
    (
      subst (λ d. keep_if (Occurrences.is_unsent r.id d.deliveries) d.occurrences ≡ [])
          (ok-injective fired.2) (drop_unsent r changed),
      (fired.0, must_fire-ok first fired.1),
    )
