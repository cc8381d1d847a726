-- ===== src/Tests/Runs.antt =====
-- Runs of the whole system, whole cycles and sequences of failures at concrete inputs.
use remindo.Prelude.{
  ℕ, ◌+◌, ◌*◌, ◌≤◌, ◌≡◌, refl, Bool, true, false, not, ◌&&◌, ◌||◌, none, some, List, [], ◌∷◌, arith,
  elem, length, keep_if, all_of, if◌then◌else◌, ltb, ◌==◌,
}
use remindo.Time.{Moment, hour, minute, day}
use remindo.Contracts.{DeliveryStatus, transient, retry_after, ok}
use remindo.Retry.{max_attempts}
use remindo.Dispatching.Budget.{Failure, fail_all, none_fatal, transients, fail_all_lem}
use remindo.Db.{Db, Delivery}
use remindo.Db.Deliveries.{is_due, claim_due, due_ids, queue_before}
use remindo.Db.Table.{order_by, order_insert, update_where}
use remindo.Db.People
use remindo.Services.Reactions.{press_done}
use remindo.Services.Dispatching.{Sending, refused, DispatchResult, deliver}
use remindo.Services.Dispatching.Drain.{deliver_drains}
use remindo.Services.Planning.{write_rows}
use remindo.Services.Planning.Union.{planned, addressed, among, write_rows-union}
use remindo.System.{
  Event, planner_cycle, dispatcher_cycle, claim, attempt, tap, begun, follows, run,
}
use remindo.System.Consistent.{Consistent, run-Consistent}
use remindo.System.Answered.{Over, run-Over}
use remindo.Tests.Data.{midnight, queued, no_silence, house}

abbrev ten : Moment
ten = midnight + 10 * hour

abbrev nobody : ℕ → Bool
nobody i = false

abbrev timeout : Sending
timeout = record { reply = refused transient "TimeoutError" none; at = ten }

abbrev morning_run : List Event
morning_run =
    planner_cycle day hour 10 midnight
    ∷ dispatcher_cycle ten (5 * minute) 30 nobody (λ i. timeout)
    ∷ tap 30 1 press_done (ten + hour)
    ∷ []

house-Consistent : Consistent house
house-Consistent = record {
  keys = record { firings = (refl, tt); messages = (refl, tt) };
  watchers = λ j. few j;
}
  where
    few : (j : ℕ) → People.count_watchers j house.recipients ≤ 10
    few j = unfold People.count_watchers in ground arith

run-Consistent_example : Consistent (run morning_run house)
run-Consistent_example = run-Consistent morning_run house house-Consistent

-- Alice's delivery is done, Bob's is in the queue.
abbrev second_row : Delivery
second_row = record queued { id = 31; user_id = 2 }

abbrev done_house : Db
done_house = record house {
  deliveries = record queued { status = DeliveryStatus.done } ∷ second_row ∷ [];
  next_delivery = 40;
}

done_house-Over : Over 30 done_house
done_house-Over = record { rows = refl; given = omega arith }

-- A tap comes between the claim of a batch and the attempt on its row.
abbrev split_run : List Event
split_run =
    claim ten (5 * minute) 30 nobody
    ∷ tap 30 1 press_done (ten + minute)
    ∷ attempt second_row none timeout
    ∷ planner_cycle day hour 10 (ten + hour)
    ∷ []

split_run-follows : follows [] split_run done_house ≡ true
unfolding follows begun claim_due due_ids is_due queue_before elem order_by update_where
    order_insert
split_run-follows = refl

run-Over_example : Over 30 (run split_run done_house)
unfolding elem
run-Over_example = run-Over 30 [] split_run done_house refl split_run-follows done_house-Over

abbrev later : List Moment
later = (midnight + 33 * hour) ∷ []

abbrev failures : List Failure
failures =
    record { error_class = transient; at = ten; code = "TimeoutError"; after = none }
    ∷ record { error_class = retry_after; at = ten + minute; code = "RetryAfter"; after = some 30 }
    ∷ []

fail_all_lem_example : fail_all 3 failures ≡ (
    if none_fatal failures && ltb (3 + transients failures) max_attempts
    then some (3 + transients failures)
    else none)
fail_all_lem_example = fail_all_lem 3 failures (omega arith)

room : length (keep_if (is_due ten nobody) house.deliveries) ≤ 30
unfolding is_due
room = omega arith

deliver_drains_example :
    (r : DispatchResult) × (db' : Db) × (deliver ten (5 * minute) 30 nobody (λ i. timeout) house
      ≡ ok (r, db'))
    × (all_of (λ d. not (is_due ten nobody d)) db'.deliveries ≡ true)
deliver_drains_example =
    deliver_drains ten (5 * minute) 30 nobody (λ i. timeout) house room (λ i. omega arith)

write_rows-union_example :
    let after = (write_rows 7 no_silence day later house).0 in
    ((r m : ℕ) → planned after r m ≡ (planned house r m || ((7 == r) && elem m later)))
    × ((i u : ℕ)
        → addressed after i u ≡ (
            addressed house i u
            || (among after 7 later i
                && elem u (People.list_accepted_user_ids 7 house.recipients))))
write_rows-union_example = write_rows-union 7 no_silence day later house
