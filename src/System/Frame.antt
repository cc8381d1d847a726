-- ===== src/System/Frame.antt =====
-- The writes that the services are made of. A property that each write keeps is kept by every call.
use remindo.Prelude.{
  some, ◌++◌, Text, ℕ, ◌+◌, ◌≡◌, refl, Bool, true, false, not, ◌&&◌, ◌||◌, List, [], ◌∷◌, ◌==◌,
  length, keep_if, ap,
}
use remindo.Contracts.{Result, ok, err, ◌>>=◌, is_terminal_delivery, owner}
use remindo.Time.{Moment}
use remindo.Db.{Db, Recipient, Occurrence, Delivery}
use remindo.Db.Table.{update, update_where}
use remindo.Db.Deliveries
use remindo.Db.Deliveries.{NewDelivery}
use remindo.Db.Occurrences
use remindo.Db.Occurrences.{NewOccurrence}
use remindo.Db.People
use remindo.Sharing.{invite_state, check_join}
use remindo.Contracts.{reminder_watchers_max}
use remindo.Db.{Reminder}
use remindo.Db.Table.{get}
use remindo.Db.Reminders
use remindo.Services.Reactions.{found}
use remindo.Services.Sharing.{live_or_raise, role_of, admit, opened, open_invite}

-- An update that leaves the ids and the keys of a row.
pub record KeepsDelivery (f : Delivery → Delivery) : Type 0 where
  pub id : (d : Delivery) → (f d).id ≡ d.id
  pub occurrence : (d : Delivery) → (f d).occurrence_id ≡ d.occurrence_id
  pub user : (d : Delivery) → (f d).user_id ≡ d.user_id

pub record KeepsOccurrence (f : Occurrence → Occurrence) : Type 0 where
  pub reminder : (o : Occurrence) → (f o).reminder_id ≡ o.reminder_id
  pub moment : (o : Occurrence) → (f o).scheduled_for ≡ o.scheduled_for

-- Some delivery under the id is not in a terminal status.
abbrev pub is_open : ℕ → List Delivery → Bool
is_open j [] = false
is_open j (d ∷ ds) = ((d.id == j) && not (is_terminal_delivery d.status)) || is_open j ds

-- The tables that a write may leave alone.
pub record Untouched (db db' : Db) : Type 0 where
  pub deliveries : db'.deliveries ≡ db.deliveries
  pub occurrences : db'.occurrences ≡ db.occurrences
  pub recipients : db'.recipients ≡ db.recipients
  pub next_delivery : db'.next_delivery ≡ db.next_delivery

-- `P` is kept by every write, where the status of a delivery is written only if its id is in `May`.
-- A delivery that is open in a database with `P` is.
pub record Frame (P : Db → Type 0) (May : ℕ → Type 0) : Type 0 where
  pub may : (db : Db) (j : ℕ) → P db → is_open j db.deliveries ≡ true → May j
  pub settle :
      (db : Db) (j : ℕ) (f : Delivery → Delivery)
      → KeepsDelivery f
      → May j
      → P db
      → P (record db { deliveries = update Deliveries.id_of j f db.deliveries })
  pub touch :
      (db : Db) (p : Delivery → Bool) (f : Delivery → Delivery)
      → KeepsDelivery f
      → ((d : Delivery) → (f d).status ≡ d.status)
      → P db
      → P (record db { deliveries = update_where p f db.deliveries })
  pub touch_firing :
      (db : Db) (p : Occurrence → Bool) (f : Occurrence → Occurrence)
      → KeepsOccurrence f
      → P db
      → P (record db { occurrences = update_where p f db.occurrences })
  pub queue :
      (db : Db) (rows : List NewDelivery)
      → P db
      → P (record db {
        deliveries = (Deliveries.insert_missing rows db.next_delivery db.deliveries).0;
        next_delivery = db.next_delivery + length rows;
      })
  pub fire :
      (db : Db) (rows : List NewOccurrence) (next : ℕ)
      → P db
      → P (record db {
        occurrences = (Occurrences.insert_missing rows db.next_occurrence db.occurrences).0;
        next_occurrence = next;
      })
  pub drop :
      (db : Db) (q : Delivery → Bool)
      → P db
      → P (record db { deliveries = keep_if q db.deliveries })
  pub drop_firings :
      (db : Db) (p : Occurrence → Bool)
      → P db
      → P (record db { occurrences = keep_if p db.occurrences })
  pub part :
      (db : Db) (p : Recipient → Bool)
      → P db
      → P (record db { recipients = keep_if p db.recipients })
  pub accept :
      (db : Db) (reminder_id user_id now : ℕ)
      → P db
      → P (record db { recipients = (People.accept reminder_id user_id now db.recipients).0 })
  pub own :
      (db : Db) (reminder_id user_id : ℕ) (now : Moment)
      → P db
      → P (record db {
        recipients =
            db.recipients
            ++ record {
              reminder_id = reminder_id;
              user_id = user_id;
              role = owner;
              accepted_at = some now;
            }
              ∷ [];
      })
  pub link :
      (db : Db) (token : Text) (user_id now : ℕ) → P db → P (open_invite token user_id now db).1
  pub beside : (db db' : Db) → Untouched db db' → P db → P db'

-- What holds of the database that a call leaves, if it does not raise.
abbrev pub Holds {ℓ} : {A : Type ℓ} → (Db → Type 0) → Result (A × Db) → Type 0
Holds P (err e) = Unit
Holds P (ok (a, db)) = P db

pub >>=-Holds {ℓ κ} :
    {A : Type ℓ} {B : Type κ} (P : Db → Type 0) (m : Result A) (f : A → Result (B × Db))
    → ((a : A) → m ≡ ok a → Holds P (f a))
    → Holds P (m >>= f)
>>=-Holds P (err e) f h = tt
>>=-Holds P (ok a) f h = h a refl

-- The same of a call that gives the database alone.
abbrev pub HoldsEdit : (Db → Type 0) → Result Db → Type 0
HoldsEdit P (err e) = Unit
HoldsEdit P (ok db) = P db

pub >>=-HoldsEdit {ℓ} :
    {A : Type ℓ} (P : Db → Type 0) (m : Result A) (f : A → Result Db)
    → ((a : A) → m ≡ ok a → HoldsEdit P (f a))
    → HoldsEdit P (m >>= f)
>>=-HoldsEdit P (err e) f h = tt
>>=-HoldsEdit P (ok a) f h = h a refl

-- Opening a link leaves the queue alone.
pub record Queues (db db' : Db) : Type 0 where
  pub deliveries : db'.deliveries ≡ db.deliveries
  pub occurrences : db'.occurrences ≡ db.occurrences
  pub next_delivery : db'.next_delivery ≡ db.next_delivery

all_same : (db db' : Db) (t : List Recipient) → db' ≡ record db { recipients = t } → Queues db db'
all_same db db' t e = record {
  deliveries = ap (λ (x : Db). x.deliveries) e;
  occurrences = ap (λ (x : Db). x.occurrences) e;
  next_delivery = ap (λ (x : Db). x.next_delivery) e;
}

opened-Holds :
    (P : Db → Type 0) (m : Result (Reminder × Db)) (db : Db) → Holds P m → P db → P (opened m db).1
opened-Holds P (err e) db k h = h
opened-Holds P (ok (r, db')) db k h = k

pub open_invite-Queues :
    (token : Text) (user_id now : ℕ) (db : Db) → Queues db (open_invite token user_id now db).1
unfolding open_invite admit
open_invite-Queues token user_id now db =
    let same = λ (t : List Recipient). all_same db (record db { recipients = t }) t refl in
    opened-Holds (Queues db) (admit token user_id now db) db
      (>>=-Holds (Queues db) (found (People.get_by_token token db.invites)) _ (λ i _.
        >>=-Holds (Queues db) (live_or_raise (invite_state i.expires_at i.revoked_at now)) _ (λ _ _.
          >>=-Holds (Queues db) (found (get Reminders.id_of i.reminder_id db.reminders)) _ (λ r _.
            >>=-Holds (Queues db)
              (check_join (role_of (People.get_recipient r.id user_id db.recipients))
                (People.count_watchers r.id db.recipients) reminder_watchers_max)
              _ (λ _ _. same _)))))
      (same db.recipients)
