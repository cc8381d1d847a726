-- ===== src/Services/Ops.antt =====
-- app/services/ops.py: a tick of the monitor. What the gateway answers to a message to an admin is a
-- parameter: none once it is sent, or the class of its error.
pub mod Alerts
use remindo.Prelude.{
  ℕ, ◌+◌, Bool, true, false, not, ◌&&◌, Option, none, some, List, [], ◌∷◌, ◌==◌, if◌then◌else◌,
  keep_if, elem, set_add, sorted, length,
}
use remindo.Time.{Moment, Duration}
use remindo.Contracts.{ErrorClass, forbidden}
use remindo.Ops.{AlertState, AlertKind, AlertDecision, OpsReport, build_report, decide_alert}
use remindo.Db.{Db}
use remindo.Db.Reports.{queue_snapshot}

pub record MonitorState : Type 0 where
  pub alert : AlertState
  pub report : Option OpsReport
  pub muted_admins : List ℕ

pub record MonitorResult : Type 0 where
  pub report : OpsReport
  pub state : AlertState
  pub notified : Option AlertKind
  pub recipients : ℕ

pub record Settings : Type 0 where
  pub admin_ids : List ℕ
  pub alert_lag : Duration
  pub metrics_window : Duration

abbrev pub Send : Type 0
Send = ℕ → Option ErrorClass

-- `_alert_failed`
unfoldable pub alert_failed : ℕ → ErrorClass → List ℕ → List ℕ
alert_failed admin_id forbidden muted = set_add admin_id muted
alert_failed admin_id other muted = muted

abbrev pub muted_after : ℕ → Option ErrorClass → List ℕ → List ℕ
unfolding alert_failed
muted_after admin_id none muted = muted
muted_after admin_id (some e) muted = alert_failed admin_id e muted

abbrev pub got_through : Option ErrorClass → ℕ
got_through none = 1
got_through (some e) = 0

-- The loop of `_notify`: the admins that got the message, and who is muted now.
unfoldable pub notify : Send → List ℕ → List ℕ → ℕ × List ℕ
unfolding alert_failed
notify send [] muted = (0, muted)
notify send (a ∷ admins) muted =
    let rest = notify send admins (muted_after a (send a) muted) in
    (got_through (send a) + rest.0, rest.1)

-- admin_ids - state.muted_admins, in the order of the ids
unfoldable pub audience_of : List ℕ → List ℕ → List ℕ
audience_of admins muted = sorted (keep_if (λ a. not (elem a muted)) admins)

abbrev pub has_some : List ℕ → Bool
has_some [] = false
has_some (a ∷ as_) = true

-- The tick from the decision on, over the state that already holds the report.
unfoldable pub act :
    AlertDecision → Send → List ℕ → OpsReport → MonitorState → MonitorResult × MonitorState
unfolding notify audience_of
act decision send admins report state = alert decision.notify
  where
    alert : Option AlertKind → MonitorResult × MonitorState
    alert none = (
      record { report = report; state = decision.state; notified = none; recipients = 0 },
      record state { alert = decision.state },
    )
    alert (some kind) =
        let audience = audience_of admins state.muted_admins in
        let sent = notify send audience state.muted_admins in
        let heard = record state { muted_admins = sent.1 } in
        if has_some audience && (sent.0 == 0)
        then (
          record { report = report; state = state.alert; notified = none; recipients = 0 },
          heard,
        )
        else (
          record {
            report = report;
            state = decision.state;
            notified = some kind;
            recipients = sent.0;
          },
          record heard { alert = decision.state },
        )

unfoldable pub run : Settings → Moment → Send → Db → MonitorState → MonitorResult × MonitorState
unfolding queue_snapshot build_report decide_alert act
run s now send db state =
    let report = build_report (queue_snapshot now s.metrics_window db) now in
    act (decide_alert state.alert report.lag s.alert_lag) send s.admin_ids report
      (record state { report = some report })
