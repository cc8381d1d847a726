-- ===== src/System/Edits.antt =====
-- What the digest, and the creation and the edits of a reminder, keep.
use remindo.Prelude.{
  not, map, elem, keep_if, length, max, if◌then◌else◌, Bool, ◌++◌, ◌==◌, ℕ, refl, Option, none,
  some, List, [], ◌∷◌, Bool-cases, inl, inr,
}
use remindo.Time.{Moment}
use remindo.Contracts.{ErrorClass, forbidden, bad_request, retry_after, transient, ok}
use remindo.Db.{Db, User, Reminder}
use remindo.Db.Occurrences
use remindo.Services.Sharing.{owned}
use remindo.Services.Reminders.{get_editable, drop_queued}
use remindo.Services.Digest
use remindo.Services.Stats.{summary_for}
use remindo.Services.Categories.{get_for_user}
use remindo.Wizard.{normalize_reminder_title, normalize_note, first_fire_at}
use remindo.Services.Reminders.Writes.{
  NewReminder, Changes, create, zone_of, must_fire, moment_or_now, new_reminder, add_reminder,
  update_reminder, replace_schedule, set_row, delete, delete_rows, set_fields, checked_title,
  checked_category,
}
use remindo.Schedules.{Schedule}
use remindo.System.Frame.{Frame, Holds, >>=-Holds, HoldsEdit, >>=-HoldsEdit}

module _ {P : Db → Type 0} {May : ℕ → Type 0} (frame : Frame P May) where
  pub drop_keeps : (r : Reminder) (db : Db) → P db → P (drop_queued r db)
  unfolding drop_queued Occurrences.delete_unsent
  drop_keeps r db h =
      frame.beside _ _
        (record { deliveries = refl; occurrences = refl; recipients = refl; next_delivery = refl })
        (frame.drop _ _ (frame.drop_firings db _ h))

  -- A digest writes to users only.
  mark_keeps : (user_id : ℕ) (moment : Moment) (db : Db) → P db → P (Digest.mark user_id moment db)
  unfolding Digest.mark
  mark_keeps user_id moment db h =
      frame.beside db _
        (record { deliveries = refl; occurrences = refl; recipients = refl; next_delivery = refl })
        h

  block_keeps : (user_id : ℕ) (db : Db) → P db → P (Digest.block user_id db)
  unfolding Digest.block
  block_keeps user_id db h =
      frame.beside db _
        (record { deliveries = refl; occurrences = refl; recipients = refl; next_delivery = refl })
        h

  digest_send_keeps :
      (answer : Option ErrorClass) (u : User) (moment : Moment) (db : Db)
      → P db
      → P (Digest.send answer u moment db).1
  unfolding Digest.send Digest.send_failed
  digest_send_keeps none u moment db h = mark_keeps u.id moment db h
  digest_send_keeps (some forbidden) u moment db h =
      mark_keeps u.id moment _ (block_keeps u.id db h)
  digest_send_keeps (some bad_request) u moment db h = mark_keeps u.id moment db h
  digest_send_keeps (some retry_after) u moment db h = h
  digest_send_keeps (some transient) u moment db h = h

  digest_due_keeps :
      (answer : Option ErrorClass) (u : User) (db : Db) (due : Option Moment)
      → P db
      → P (Digest.one_due answer u db due).1
  unfolding Digest.one_due
  digest_due_keeps answer u db none h = h
  digest_due_keeps answer u db (some moment) h =
      elim (Bool-cases ((summary_for u moment none db).measure.last_7_days.total == 0)) [
        | inl e ↦ rw e (mark_keeps u.id moment db h)
        | inr e ↦ rw e (digest_send_keeps answer u moment db h)
      ]

  pub digest_one-keeps :
      (now : Moment) (weekday hour : ℕ) (send_to : Digest.Send) (u : User) (db : Db)
      → P db
      → P (Digest.one now weekday hour send_to u db).1
  unfolding Digest.one
  digest_one-keeps now weekday hour send_to u db h = digest_due_keeps (send_to u.id) u db _ h

  digest_each_keeps :
      (now : Moment) (weekday hour : ℕ) (send_to : Digest.Send) (us : List User)
      (r : Digest.DigestResult) (db : Db)
      → P db
      → P (Digest.each now weekday hour send_to us r db).1
  unfolding Digest.each
  digest_each_keeps now weekday hour send_to [] r db h = h
  digest_each_keeps now weekday hour send_to (u ∷ us) r db h =
      digest_each_keeps now weekday hour send_to us _ _
        (digest_one-keeps now weekday hour send_to u db h)

  pub digest_keeps :
      (now : Moment) (weekday hour batch : ℕ) (send_to : Digest.Send) (db : Db)
      → P db
      → P (Digest.run now weekday hour batch send_to db).1
  unfolding Digest.run
  digest_keeps now weekday hour batch send_to db h =
      let users = Digest.list_digest_candidates now batch db.users in
      digest_each_keeps now weekday hour send_to users
        (record {
          considered = length users;
          sent = 0;
          empty = 0;
          blocked = 0;
          failed = 0;
          deferred = 0;
        })
        db h

  add_keeps : (r : Reminder) (now : Moment) (db : Db) → P db → P (add_reminder r now db)
  unfolding add_reminder
  add_keeps r now db h = frame.own _ r.id r.owner_id now (
      frame.beside db (record db { reminders = db.reminders ++ r ∷ [] })
        (record { deliveries = refl; occurrences = refl; recipients = refl; next_delivery = refl })
        h)

  pub create_keeps :
      (is_space : ℕ → Bool) (new_id : ℕ) (n : NewReminder) (now : Moment) (db : Db)
      → P db
      → Holds P (create is_space new_id n now db)
  unfolding create
  create_keeps is_space new_id n now db h =
      >>=-Holds P (normalize_reminder_title is_space n.title) _ (λ _ _.
        >>=-Holds P (normalize_note is_space n.note) _ (λ _ _.
          >>=-Holds P (zone_of n.timezone) _ (λ z _.
            >>=-Holds P (must_fire (first_fire_at n.schedule z (moment_or_now n.starts_at now) 366))
              _
              (λ _ _. >>=-Holds P (get_for_user n.owner_id n.category_id db) _ (λ _ _.
                add_keeps (new_reminder new_id n z (moment_or_now n.starts_at now)) now db h)))))

  row_keeps : (i : ℕ) (f : Reminder → Reminder) (db : Db) → P db → P (set_row i f db)
  unfolding set_row
  row_keeps i f db h =
      frame.beside db _
        (record { deliveries = refl; occurrences = refl; recipients = refl; next_delivery = refl })
        h

  schedule_keeps :
      (s : Option Schedule) (r : Reminder) (now : Moment) (db : Db)
      → P db
      → HoldsEdit P (replace_schedule s r now db)
  unfolding replace_schedule
  schedule_keeps none r now db h = h
  schedule_keeps (some s) r now db h =
      >>=-HoldsEdit P (must_fire (first_fire_at s r.timezone (max r.starts_at now) 366)) _
        (λ _ _. drop_keeps r _ (row_keeps r.id (λ x. record x { schedule = s }) db h))

  pub edit_keeps :
      (is_space : ℕ → Bool) (owner_id reminder_id : ℕ) (c : Changes) (now : Moment) (db : Db)
      → P db
      → HoldsEdit P (update_reminder is_space owner_id reminder_id c now db)
  unfolding update_reminder
  edit_keeps is_space owner_id reminder_id c now db h =
      >>=-HoldsEdit P (get_editable owner_id reminder_id db) _ (λ r _.
        >>=-HoldsEdit P (checked_title is_space c.title) _ (λ _ _.
          >>=-HoldsEdit P (if c.clear_note then ok none else normalize_note is_space c.note) _
            (λ _ _.
              >>=-HoldsEdit P (checked_category owner_id c.category_id r.category_id db) _
                (λ category_id _.
                  schedule_keeps c.schedule r now (set_row r.id (set_fields c category_id) db)
                    (row_keeps r.id (set_fields c category_id) db h)))))

  pub remove_keeps :
      (owner_id reminder_id : ℕ) (db : Db) → P db → HoldsEdit P (delete owner_id reminder_id db)
  unfolding delete delete_rows
  remove_keeps owner_id reminder_id db h = >>=-HoldsEdit P (owned owner_id reminder_id db) _ (λ r _.
      frame.beside _ _
        (record { deliveries = refl; occurrences = refl; recipients = refl; next_delivery = refl })
        (frame.part _ (λ x. not (x.reminder_id == r.id))
          (frame.drop _
            (λ d. not (
              elem d.occurrence_id
                (map (λ o. o.id) (keep_if (λ o. o.reminder_id == r.id) db.occurrences))))
            (frame.drop_firings db (λ o. not (o.reminder_id == r.id)) h))))
