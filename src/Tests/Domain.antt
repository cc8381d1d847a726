-- ===== src/Tests/Domain.antt =====
-- The pure decisions at concrete inputs.
use remindo.Prelude.{Text, ◌+◌, ◌≡◌, refl, true, none, some}
use remindo.Time.{day}
use remindo.Contracts.{DeliveryStatus, done, transient, ok, invite_token_length}
use remindo.Dispatching.{Verdict, decide_failure}
use remindo.Dispatching.Table.{IsRow, decide_failure-IsRow}
use remindo.Reactions.{Reaction, decide_reaction}
use remindo.Sharing.{build_invite_payload, parse_invite_payload, matches, is_letter}
use remindo.Sharing.Links.{parse-build}
use remindo.Tests.Data.{midnight, no_silence, token}

decide_failure-IsRow_example :
    (v : Verdict) × (decide_failure 2 transient midnight "TimeoutError" none ≡ ok v)
    × IsRow 2 midnight "TimeoutError" transient none v
decide_failure-IsRow_example = decide_failure-IsRow 2 transient midnight "TimeoutError" none

abbrev done_reaction : Reaction
done_reaction = record {
  status = DeliveryStatus.done;
  kind = done;
  snoozed_until = none;
  reacted_at = some midnight;
}

done_decided : decide_reaction done midnight 10 no_silence (midnight + day) ≡ ok done_reaction
unfolding decide_reaction
done_decided = refl

token_fits : matches invite_token_length token ≡ true
unfolding matches is_letter
token_fits = refl

parse-build_example :
    (payload : Text) × (build_invite_payload token ≡ ok payload)
    × (parse_invite_payload payload ≡ ok token)
parse-build_example = parse-build token token_fits
