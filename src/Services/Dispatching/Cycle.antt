-- ===== src/Services/Dispatching/Cycle.antt =====
-- A whole dispatcher cycle: it ends, and its counters account for every row that it claimed.
use remindo.Prelude.{
  ℕ, suc, ◌+◌, ◌≡◌, refl, Bool, true, Option, none, some, List, [], ◌∷◌, arith, length,
}
use remindo.Time.{Moment, Duration}
use remindo.Contracts.{DeliveryStatus, Result, ok}
use remindo.Dispatching.{
  AbortReason, occurrence_closed, user_blocked, context_missing, check_deliverable, decide_abort,
  decide_success,
}
use remindo.Dispatching.Table.{is_counted, decide_failure-FollowsTable}
use remindo.Db.{Db, Occurrence, Delivery}
use remindo.Db.Deliveries
use remindo.Services.Dispatching.{
  Sending, SendReply, delivered, refused, SendContext, load_context, send, deliver_checked,
  deliver_in, deliver_one, DispatchResult, tally, deliver_all, deliver,
}

abbrev pub accounted : DispatchResult → ℕ
accounted r = r.sent + r.retried + r.failed + r.blocked

-- The step ends, in a status that has a counter.
abbrev Ends : Result (DeliveryStatus × Db) → Type 0
Ends r =
    (status : DeliveryStatus) × (db' : Db) × (r ≡ ok (status, db')) × (is_counted status ≡ true)

abort-counted : (reason : AbortReason) (n : ℕ) → is_counted (decide_abort reason n).status ≡ true
unfolding decide_abort
abort-counted occurrence_closed n = refl
abort-counted user_blocked n = refl
abort-counted context_missing n = refl

send-Ends :
    (d : Delivery) (o : Occurrence) (r : SendReply) (now : Moment) (db : Db)
    → Ends (send d o r now db)
unfolding send
send-Ends d o (delivered m) now db = (_, _, refl, unfold decide_success in refl)
send-Ends d o (refused c code after) now db =
    let (v, e, t) = decide_failure-FollowsTable d.attempts c now code after in
    rw e (_, _, refl, t.counted)

checked-Ends :
    (r : Option AbortReason) (d : Delivery) (c : SendContext) (s : Sending) (db : Db)
    → Ends (deliver_checked r d c s db)
unfolding deliver_checked
checked-Ends (some reason) d c s db = (_, _, refl, abort-counted reason d.attempts)
checked-Ends none d c s db = send-Ends d c.occurrence s.reply s.at db

in-Ends :
    (d : Delivery) (c : Option SendContext) (s : Sending) (db : Db) → Ends (deliver_in d c s db)
unfolding deliver_in
in-Ends d none s db = (_, _, refl, abort-counted context_missing d.attempts)
in-Ends d (some c) s db =
    checked-Ends (check_deliverable c.occurrence.status c.user.is_blocked) d c s db

one-Ends : (d : Delivery) (s : Sending) (db : Db) → Ends (deliver_one d s db)
unfolding deliver_one
one-Ends d s db = in-Ends d (load_context db d) s db

tally-accounted :
    (status : DeliveryStatus) (r : DispatchResult)
    → is_counted status ≡ true
    → (accounted (tally status r) ≡ suc (accounted r)) × ((tally status r).claimed ≡ r.claimed)
tally-accounted DeliveryStatus.sent r h = ground arith
tally-accounted DeliveryStatus.pending r h = ground arith
tally-accounted DeliveryStatus.failed r h = ground arith
tally-accounted DeliveryStatus.blocked r h = ground arith
tally-accounted _ r h = ground arith

all_accounted :
    (sendings : ℕ → Sending) (ds : List Delivery) (db : Db) (r : DispatchResult)
    → (r' : DispatchResult) × (db' : Db) × (deliver_all sendings ds db r ≡ ok (r', db'))
      × (accounted r' ≡ accounted r + length ds)
      × (r'.claimed ≡ r.claimed)
unfolding deliver_all
all_accounted sendings [] db r = (r, db, refl, ground arith, refl)
all_accounted sendings (d ∷ ds) db r =
    let (status, db', e, c) = one-Ends d (sendings d.id) db in
    let (r', db'', f, n, k) = all_accounted sendings ds db' (tally status r) in
    let (a, b) = tally-accounted status r c in (r', db'', rw e f, ground arith, ground arith)

-- A cycle ends for every queue, every set of rows held elsewhere and all answers of the gateway, and
-- each claimed row is counted once: as sent, retried, failed or blocked.
pub deliver-accounted :
    (now : Moment) (lock : Duration) (batch : ℕ) (held : ℕ → Bool) (sendings : ℕ → Sending)
    (db : Db)
    → (r : DispatchResult) × (db' : Db) × (deliver now lock batch held sendings db ≡ ok (r, db'))
      × (accounted r ≡ r.claimed)
      × (r.claimed ≡ length (Deliveries.claim_due now lock batch held db.deliveries).0)
unfolding deliver
deliver-accounted now lock batch held sendings db =
    let (claimed, t) = Deliveries.claim_due now lock batch held db.deliveries in
    let (r, db', e, a, c) =
      all_accounted sendings claimed (record db { deliveries = t })
        (record { claimed = length claimed; sent = 0; retried = 0; failed = 0; blocked = 0 }) in
    (r, db', e, ground arith, c)
