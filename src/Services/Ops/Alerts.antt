-- ===== src/Services/Ops/Alerts.antt =====
-- When the monitor writes to the admins.
use remindo.Prelude.{
  ℕ, ◌-◌, ◌≡◌, ◌⊎◌, sym, refl, Bool, true, false, ◌&&◌, ◌||◌, Option, none, some, List, [], ◌∷◌,
  arith, ltb, if◌then◌else◌, keep_if, inl,
}
use remindo.Time.{Moment, Duration}
use remindo.Ops.{
  AlertState, AlertKind, clear, firing, raised, cleared, OpsReport, queue_lag, lag_of, edge,
  decide_alert, build_report,
}
use remindo.Db.{Db, Delivery}
use remindo.Db.Reports.{queue_snapshot, is_overdue_row, joined, oldest}
use remindo.Services.Ops.{MonitorState, Settings, Send, audience_of, has_some, act, run}

-- Some delivery of the queue has been waiting for longer than the threshold.
abbrev pub any_late : Duration → Moment → List Delivery → Bool
any_late threshold now [] = false
any_late threshold now (d ∷ ds) =
    (is_overdue_row now d && ltb threshold (now - d.next_attempt_at)) || any_late threshold now ds

late_lem :
    (threshold : Duration) (now : Moment) (rows : List Delivery)
    → ltb threshold (lag_of (oldest (keep_if (is_overdue_row now) rows)) now)
      ≡ any_late threshold now rows
late_lem threshold now [] = ground arith
late_lem threshold now (d ∷ rows) = ground (arith, late_lem threshold now rows)

-- The lag that the monitor reads exceeds the threshold exactly when some delivery that is due (it
-- waits, its next attempt is not in the future and its occurrence exists) has waited longer.
pub queue_lag-late :
    (threshold window : Duration) (now : Moment) (db : Db)
    → ltb threshold (queue_lag (queue_snapshot now window db) now)
      ≡ any_late threshold now (joined db)
unfolding queue_lag queue_snapshot
queue_lag-late threshold window now db = late_lem threshold now (joined db)

-- One tick of the monitor: the clock, the database and what the gateway answers.
pub record Tick : Type 0 where
  pub now : Moment
  pub db : Db
  pub send : Send

abbrev with_edge : Option AlertKind → List AlertKind → List AlertKind
with_edge none kinds = kinds
with_edge (some kind) kinds = kind ∷ kinds

-- The messages of a sequence of ticks, oldest first.
unfoldable pub messages : Settings → List Tick → MonitorState → List AlertKind
unfolding run
messages s [] state = []
messages s (t ∷ ts) state =
    let ticked = run s t.now t.send t.db state in
    with_edge ticked.0.notified (messages s ts ticked.1)

-- Raised and cleared in turn, raised first when the alert is clear.
abbrev pub alternates : AlertState → List AlertKind → Bool
alternates state [] = true
alternates clear (raised ∷ kinds) = alternates firing kinds
alternates firing (cleared ∷ kinds) = alternates clear kinds
alternates state (kind ∷ kinds) = false

edge-alternates :
    (state : AlertState) (over : Bool) (send : Send) (admins : List ℕ) (report : OpsReport)
    (before : MonitorState) (kinds : List AlertKind)
    → before.alert ≡ state
    → let ticked = act (edge state over) send admins report before in
      alternates ticked.1.alert kinds ≡ true
      → alternates state (with_edge ticked.0.notified kinds) ≡ true
unfolding act
edge-alternates clear false send admins report before kinds e h = h
edge-alternates firing true send admins report before kinds e h = h
edge-alternates clear true send admins report before kinds e h = ground arith
edge-alternates firing false send admins report before kinds e h = ground arith

-- The monitor never writes the same edge twice: whatever the queue does and whoever can be reached,
-- its messages are raised and cleared in turn, from the state in which it starts.
pub messages_alternate :
    (s : Settings) (ticks : List Tick) (state : MonitorState)
    → alternates state.alert (messages s ticks state) ≡ true
unfolding messages run decide_alert
messages_alternate s [] state = refl
messages_alternate s (t ∷ ticks) state =
    let report = build_report (queue_snapshot t.now s.metrics_window t.db) t.now in
    let before = record state { report = some report } in
    let over = ltb s.alert_lag report.lag in
    let after = act (edge state.alert over) t.send s.admin_ids report before in
    edge-alternates state.alert over t.send s.admin_ids report before (messages s ticks after.1)
      refl (messages_alternate s ticks after.1)

edge_follows :
    (state : AlertState) (over : Bool) (send : Send) (admins : List ℕ) (report : OpsReport)
    (before : MonitorState)
    → before.alert ≡ state
    → let ticked = act (edge state over) send admins report before in
      (ticked.1.alert ≡ (if over then firing else clear))
      ⊎ ((ticked.1.alert ≡ state)
          × (ticked.0.recipients ≡ 0)
          × (has_some (audience_of admins before.muted_admins) ≡ true))
unfolding act
edge_follows clear false send admins report before e = inl refl
edge_follows firing true send admins report before e = inl refl
edge_follows clear true send admins report before e = ground arith
edge_follows firing false send admins report before e = ground arith

-- After a tick the alert fires exactly when some due delivery has waited longer than the threshold,
-- unless the message about it reached none of the admins that are not muted: then the alert stays as
-- it was and the next tick tries again.
pub run_follows :
    (s : Settings) (now : Moment) (send : Send) (db : Db) (state : MonitorState)
    → let ticked = run s now send db state in
      (ticked.1.alert ≡ (if any_late s.alert_lag now (joined db) then firing else clear))
      ⊎ ((ticked.1.alert ≡ state.alert)
          × (ticked.0.recipients ≡ 0)
          × (has_some (audience_of s.admin_ids state.muted_admins) ≡ true))
unfolding run decide_alert build_report
run_follows s now send db state =
    let report = build_report (queue_snapshot now s.metrics_window db) now in
    rw (sym (queue_lag-late s.alert_lag s.metrics_window now db)) (
      edge_follows state.alert (ltb s.alert_lag report.lag) send s.admin_ids report
        (record state { report = some report }) refl)
