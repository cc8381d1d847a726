-- ===== src/System/Consistent.antt =====
-- What always holds of the tables.
use remindo.Prelude.{some, ◌++◌, ℕ, ◌≤◌, ◌≡◌, refl, Bool, List, [], ◌∷◌, keep_if, arith}
use remindo.Contracts.{owner, reminder_watchers_max}
use remindo.Db.{Db, Recipient, Occurrence, Delivery}
use remindo.Db.Table.{update_where}
use remindo.Db.Insert.{NoClash, insert_rows-NoClash}
use remindo.Db.Rows.{NoClash-update_where, NoClash-keep_if}
use remindo.Db.Occurrences
use remindo.Db.Deliveries
use remindo.Db.People
use remindo.Services.Sharing.Invites.{open_invite_bounded}
use remindo.Services.Planning.Rows.{
  same_firing, same_delivery, KeysHold, occurrence_agree, delivery_agree,
}
use remindo.System.Frame.{KeepsDelivery, KeepsOccurrence, Frame, open_invite-Queues}
use remindo.System.Calls.{any_allowed, run-keeps}
use remindo.System.{Event, run}

-- The unique keys hold, and no reminder has more watchers than the limit.
pub record Consistent (db : Db) : Type 0 where
  pub keys : KeysHold db
  pub watchers : (j : ℕ) → People.count_watchers j db.recipients ≤ reminder_watchers_max

fewer :
    (j : ℕ) (p : Recipient → Bool) (t : List Recipient)
    → People.count_watchers j (keep_if p t) ≤ People.count_watchers j t
unfolding People.count_watchers
fewer j p [] = omega arith
fewer j p (r ∷ t) = ground (arith, fewer j p t)

as_many :
    (j reminder_id user_id now : ℕ) (t : List Recipient)
    → People.count_watchers j (People.accept reminder_id user_id now t).0
      ≡ People.count_watchers j t
unfolding People.count_watchers People.accept update_where
as_many j reminder_id user_id now [] = refl
as_many j reminder_id user_id now (r ∷ t) = ground (arith, as_many j reminder_id user_id now t)

with_owner :
    (j reminder_id user_id now : ℕ) (t : List Recipient)
    → People.count_watchers j (
        t
        ++ record {
          reminder_id = reminder_id;
          user_id = user_id;
          role = owner;
          accepted_at = some now;
        }
          ∷ [])
      ≡ People.count_watchers j t
unfolding People.count_watchers
with_owner j reminder_id user_id now [] = ground arith
with_owner j reminder_id user_id now (r ∷ t) =
    ground (arith, with_owner j reminder_id user_id now t)

delivery_updates :
    (p : Delivery → Bool) (f : Delivery → Delivery) (k : KeepsDelivery f) (t : List Delivery)
    → NoClash same_delivery t
    → NoClash same_delivery (update_where p f t)
delivery_updates p f k t c =
    NoClash-update_where same_delivery p f (λ r s. rw (k.occurrence r, k.user r) refl)
      (λ r s. rw (k.occurrence s, k.user s) refl) t c

occurrence_updates :
    (p : Occurrence → Bool) (f : Occurrence → Occurrence) (k : KeepsOccurrence f)
    (t : List Occurrence)
    → NoClash same_firing t
    → NoClash same_firing (update_where p f t)
occurrence_updates p f k t c =
    NoClash-update_where same_firing p f (λ r s. rw (k.reminder r, k.moment r) refl)
      (λ r s. rw (k.reminder s, k.moment s) refl) t c

same_recipients :
    (db : Db) (u : List Occurrence) (ds : List Delivery) (n m : ℕ)
    → Consistent db
    → NoClash same_firing u
    → NoClash same_delivery ds
    → Consistent
        (record db { occurrences = u; deliveries = ds; next_occurrence = n; next_delivery = m })
same_recipients db u ds n m c f d = record {
  keys = record { firings = f; messages = d };
  watchers = c.watchers;
}

Consistent-Frame : Frame Consistent (λ _. Unit {0})
Consistent-Frame = record {
  may = λ db j c o. tt;
  settle = λ db j f k m c.
      same_recipients db _ _ _ _ c c.keys.firings (delivery_updates _ f k _ c.keys.messages);
  touch = λ db p f k s c.
      same_recipients db _ _ _ _ c c.keys.firings (delivery_updates p f k _ c.keys.messages);
  touch_firing = λ db p f k c.
      same_recipients db _ _ _ _ c (occurrence_updates p f k _ c.keys.firings) c.keys.messages;
  queue = λ db rows c. same_recipients db _ _ _ _ c c.keys.firings (
      insert_rows-NoClash Deliveries.conflicts Deliveries.new_row same_delivery delivery_agree rows
        db.next_delivery _ c.keys.messages);
  fire = λ db rows next c.
      same_recipients db _ _ _ _ c
        (insert_rows-NoClash Occurrences.conflicts Occurrences.new_row same_firing occurrence_agree
          rows db.next_occurrence _ c.keys.firings)
        c.keys.messages;
  drop = λ db q c.
      same_recipients db _ _ _ _ c c.keys.firings
        (NoClash-keep_if same_delivery q _ c.keys.messages);
  drop_firings = λ db p c.
      same_recipients db _ _ _ _ c (NoClash-keep_if same_firing p _ c.keys.firings) c.keys.messages;
  part = λ db p c. record {
    keys = record { firings = c.keys.firings; messages = c.keys.messages };
    watchers = λ j. omega (arith, fewer j p db.recipients, c.watchers j);
  };
  accept = λ db r u now c. record {
    keys = record { firings = c.keys.firings; messages = c.keys.messages };
    watchers = λ j. rw (as_many j r u now db.recipients) (c.watchers j);
  };
  own = λ db reminder_id user_id now c. record {
    keys = record { firings = c.keys.firings; messages = c.keys.messages };
    watchers = λ j. rw (with_owner j reminder_id user_id now db.recipients) (c.watchers j);
  };
  link = λ db token user_id now c.
      let q = open_invite-Queues token user_id now db in
      record {
        keys = record {
          firings = rw q.occurrences c.keys.firings;
          messages = rw q.deliveries c.keys.messages;
        };
        watchers = open_invite_bounded token user_id now db c.watchers;
      };
  beside = λ db db' u c. record {
    keys = record {
      firings = rw u.occurrences c.keys.firings;
      messages = rw u.deliveries c.keys.messages;
    };
    watchers = λ j. rw u.recipients (c.watchers j);
  };
}

-- Whatever is called, however often and in whatever order, the unique keys of the queue hold and no
-- reminder has more than ten watchers: from any database where this is so, also when the dispatcher,
-- the sweep and the digest write, in transactions of their own, to rows that they read before.
pub run-Consistent : (es : List Event) (db : Db) → Consistent db → Consistent (run es db)
run-Consistent es db = run-keeps Consistent-Frame es db (any_allowed es (λ j. tt))
