-- ===== src/Services/Planning/Rows.antt =====
-- The rows that the planner writes.
use remindo.Prelude.{ℕ, ◌+◌, ◌≡◌, refl, Bool, true, ◌&&◌, List, arith, ◌==◌, length, ap}
use remindo.Time.{Moment, Duration}
use remindo.QuietHours.{QuietHours}
use remindo.Db.{Db, Occurrence, Delivery}
use remindo.Db.Insert.{insert_rows_twice, NoClash, insert_rows-NoClash}
use remindo.Db.Occurrences
use remindo.Db.Occurrences.{NewOccurrence}
use remindo.Db.Deliveries
use remindo.Db.Deliveries.{NewDelivery}
use remindo.Services.Planning.{occurrence_rows, create_occurrences, create_deliveries, write_rows}

-- Two rows of one moment of one reminder.
abbrev pub same_firing : Occurrence → Occurrence → Bool
same_firing o p = (o.reminder_id == p.reminder_id) && (o.scheduled_for == p.scheduled_for)

-- Two rows of one occurrence for one user.
abbrev pub same_delivery : Delivery → Delivery → Bool
same_delivery d e = (d.occurrence_id == e.occurrence_id) && (d.user_id == e.user_id)

-- Both unique keys hold.
pub record KeysHold (db : Db) : Type 0 where
  pub firings : NoClash same_firing db.occurrences
  pub messages : NoClash same_delivery db.deliveries

pub occurrence_own :
    (i : ℕ) (n : NewOccurrence) → Occurrences.conflicts n (Occurrences.new_row i n) ≡ true
unfolding Occurrences.conflicts Occurrences.new_row
occurrence_own i n = ground arith

pub delivery_own :
    (i : ℕ) (n : NewDelivery) → Deliveries.conflicts n (Deliveries.new_row i n) ≡ true
unfolding Deliveries.conflicts Deliveries.new_row
delivery_own i n = ground arith

pub occurrence_agree :
    (i : ℕ) (n : NewOccurrence) (o : Occurrence)
    → same_firing o (Occurrences.new_row i n) ≡ Occurrences.conflicts n o
unfolding Occurrences.conflicts Occurrences.new_row
occurrence_agree i n o = refl

pub delivery_agree :
    (i : ℕ) (n : NewDelivery) (d : Delivery)
    → same_delivery d (Deliveries.new_row i n) ≡ Deliveries.conflicts n d
unfolding Deliveries.conflicts Deliveries.new_row
delivery_agree i n d = refl

pub write_rows-KeysHold :
    (reminder_id : ℕ) (q : QuietHours) (ttl : Duration) (moments : List Moment) (db : Db)
    → KeysHold db
    → KeysHold (write_rows reminder_id q ttl moments db).0
unfolding write_rows create_occurrences create_deliveries
write_rows-KeysHold reminder_id q ttl moments db k = record {
  firings =
      insert_rows-NoClash Occurrences.conflicts Occurrences.new_row same_firing occurrence_agree
        (occurrence_rows reminder_id q ttl moments) db.next_occurrence db.occurrences k.firings;
  messages =
      insert_rows-NoClash Deliveries.conflicts Deliveries.new_row same_delivery delivery_agree _
        db.next_delivery db.deliveries k.messages;
}

-- Writing the same moments again, to whatever the tables have become the first time, creates nothing
-- and changes neither table.
pub write_rows_twice :
    (reminder_id : ℕ) (q : QuietHours) (ttl : Duration) (moments : List Moment) (db : Db)
    → let once = (write_rows reminder_id q ttl moments db).0 in
      let (twice, occurrences, deliveries) = write_rows reminder_id q ttl moments once in
      (twice.occurrences ≡ once.occurrences)
      × (twice.deliveries ≡ once.deliveries)
      × (occurrences ≡ 0)
      × (deliveries ≡ 0)
unfolding write_rows create_occurrences create_deliveries
write_rows_twice reminder_id q ttl moments db =
    let again =
      insert_rows_twice Occurrences.conflicts Occurrences.new_row occurrence_own
        (occurrence_rows reminder_id q ttl moments) db.next_occurrence
        (db.next_occurrence + length moments) db.occurrences in
    let more = insert_rows_twice Deliveries.conflicts Deliveries.new_row delivery_own in
    rw again (
      refl,
      ap (λ p. p.0) (more _ db.next_delivery _ db.deliveries),
      refl,
      ap (λ p. p.1) (more _ db.next_delivery _ db.deliveries),
    )
