-- ===== src/Tests/Delivery.antt =====
-- The dispatcher, the buttons and the reaper at concrete inputs.
use remindo.Prelude.{
  ℕ, ◌+◌, ◌*◌, ◌≤◌, ◌≡◌, ◌≢◌, refl, Bool, true, false, none, some, [], ◌∷◌, arith, elem, length,
  keep_if,
}
use remindo.Time.{Moment, day, hour, minute}
use remindo.Contracts.{DeliveryStatus, OccurrenceStatus, done, snooze, transient, ok}
use remindo.Reactions.{
  already_handled, check_reactable, decide_reaction, roll_up_occurrence, is_terminal,
}
use remindo.Db.{Db, Delivery}
use remindo.Db.Table.{get, update_where, order_by, order_insert}
use remindo.Db.Deliveries
use remindo.Db.Deliveries.Claim.{claim_due_exclusive}
use remindo.Db.Occurrences
use remindo.Services.Dispatching.{Sending, refused, DispatchResult, deliver_one, deliver}
use remindo.Services.Dispatching.Row.{Settled, deliver_one-Settled}
use remindo.Services.Dispatching.Cycle.{accounted, deliver-accounted}
use remindo.Services.Reactions.{
  press_done, press_skip, action_kind, ReactionResult, react, tap, apply_tap, write, write_fields,
  close_occurrence,
}
use remindo.Services.Reactions.Once.{refused as refused_tap, answered_for_good}
use remindo.Services.Reaper.{sweep}
use remindo.Services.Reaper.Budget.{repeats_of, sweep_budget}
use remindo.Tests.Data.{midnight, morning, queued, house}

abbrev ten : Moment
ten = midnight + 10 * hour

abbrev nobody : ℕ → Bool
nobody i = false

queued_claimed :
    elem 30 (Deliveries.ids (Deliveries.claim_due ten (5 * minute) 30 nobody house.deliveries).0)
    ≡ true
unfolding elem Deliveries.claim_due Deliveries.due_ids Deliveries.is_due Deliveries.queue_before
    update_where order_by order_insert
queued_claimed = refl

claim_due_exclusive_example :
    elem 30 (
      Deliveries.ids
        (Deliveries.claim_due
          (ten + 2 * minute)
          (5 * minute)
          30
          nobody
          (Deliveries.claim_due ten (5 * minute) 30 nobody house.deliveries).1).0)
    ≡ false
claim_due_exclusive_example =
    claim_due_exclusive 30 ten (ten + 2 * minute) (5 * minute) (5 * minute) 30 30 nobody nobody
      house.deliveries (omega arith) queued_claimed

abbrev timeout : Sending
timeout = record { reply = refused transient "TimeoutError" none; at = ten }

queued_found : get Deliveries.id_of 30 house.deliveries ≡ some queued
unfolding get
queued_found = refl

deliver_one-Settled_example :
    (status : DeliveryStatus) × (db' : Db) × (deliver_one queued timeout house ≡ ok (status, db'))
    × Settled queued timeout house status db'
deliver_one-Settled_example = deliver_one-Settled queued timeout house queued_found

deliver-accounted_example :
    (r : DispatchResult) × (db' : Db) × (deliver ten (5 * minute) 30 nobody (λ i. timeout) house
      ≡ ok (r, db'))
    × (accounted r ≡ r.claimed)
    × (r.claimed ≡ length (Deliveries.claim_due ten (5 * minute) 30 nobody house.deliveries).0)
deliver-accounted_example = deliver-accounted ten (5 * minute) 30 nobody (λ i. timeout) house

abbrev sent_delivery : Delivery
sent_delivery = record queued {
  status = DeliveryStatus.sent;
  tg_message_id = some 5;
  sent_at = some ten;
}

abbrev sent_house : Db
sent_house = record house {
  occurrences = record morning { status = OccurrenceStatus.sent } ∷ [];
  deliveries = sent_delivery ∷ [];
}

sweep_budget_example :
    ((j : ℕ)
      → repeats_of j (sweep (ten + hour) 100 day sent_house).0.occurrences
        ≤ repeats_of j sent_house.occurrences + 1)
    × (keep_if
          (Deliveries.is_stale_lock (ten + hour))
          (sweep (ten + hour) 100 day sent_house).0.deliveries
        ≡ [])
sweep_budget_example = sweep_budget (ten + hour) 100 day sent_house

abbrev done_result : ReactionResult
done_result = record {
  applied = true;
  kind = done;
  status = DeliveryStatus.done;
  snoozed_until = none;
  reason = none;
}

abbrev done_house : Db
done_house = record sent_house {
  occurrences = record morning { status = OccurrenceStatus.done } ∷ [];
  deliveries =
      record sent_delivery { status = DeliveryStatus.done; reacted_at = some (ten + hour) } ∷ [];
  actions =
      record { delivery_id = 30; user_id = 1; kind = done; minutes = none; created_at = ten + hour }
      ∷ [];
}

alice_taps : react 30 1 press_done (ten + hour) sent_house ≡ ok (done_result, done_house)
unfolding react tap apply_tap write write_fields close_occurrence get update_where check_reactable
    decide_reaction is_terminal Occurrences.set_status Occurrences.all_deliveries_terminal
    Deliveries.add_action roll_up_occurrence
alice_taps = refl

done_no_snooze : done ≢ snooze
done_no_snooze e = ground arith

answered_for_good_example :
    react 30 1 press_skip (ten + 2 * hour) done_house
    ≡ ok (refused_tap (action_kind press_skip) DeliveryStatus.done already_handled, done_house)
answered_for_good_example =
    answered_for_good 30 1 press_done press_skip (ten + hour) (ten + 2 * hour) sent_house
      done_result done_house done_no_snooze alice_taps refl
