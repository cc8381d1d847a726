-- ===== src/Tests/Sharing.antt =====
-- Invitations and pauses at concrete inputs.
use remindo.Prelude.{
  ℕ, ◌+◌, ◌≤◌, ◌≡◌, refl, false, some, [], arith, elem, keep_if, ltb, if◌then◌else◌, ◌==◌,
}
use remindo.Time.{hour}
use remindo.Contracts.{ok, err, invite_expired, reminder_watchers_max}
use remindo.Db.{Db, Invite}
use remindo.Db.Table.{get, update_where}
use remindo.Db.Deliveries
use remindo.Db.People
use remindo.Services.Sharing.{
  owned, issue_invite, revoke_invite, open_invite, leave, occurrence_ids,
}
use remindo.Services.Sharing.Invites.{live_count, issue_invite_live}
use remindo.Services.Sharing.Joining.{revoke_invite-closed, leave_lem}
use remindo.Db.Occurrences
use remindo.Tests.Data.{midnight, pills, link, token, house, sixteen}

alice_owns_pills : owned 1 7 house ≡ ok pills
unfolding owned get
alice_owns_pills = refl

issue_invite_live_example :
    (invite : Invite) × (db' : Db) × (issue_invite 1 7 sixteen midnight house ≡ ok (invite, db'))
    × (live_count 7 db'.invites ≡ (if 7 == 7 then 1 else live_count 7 house.invites))
issue_invite_live_example =
    issue_invite_live 1 7 sixteen midnight house 7 alice_owns_pills refl refl

few_watchers : (j : ℕ) → People.count_watchers j house.recipients ≤ reminder_watchers_max
unfolding People.count_watchers
few_watchers j = ground arith

abbrev closed_house : Db
closed_house = record house { invites = (People.revoke_live 7 midnight house.invites).0 }

abbrev closed_link : Invite
closed_link = record link { revoked_at = some midnight }

link_found : People.get_by_token token closed_house.invites ≡ some closed_link
unfolding People.get_by_token People.revoke_live update_where
link_found = refl

revoke_invite-closed_example :
    (revoke_invite 1 7 midnight house
      ≡ ok (ltb 0 (People.revoke_live 7 midnight house.invites).1, closed_house))
    × (open_invite token 3 (midnight + hour) closed_house ≡ (err invite_expired, closed_house))
revoke_invite-closed_example =
    revoke_invite-closed 1 7 midnight house pills token 3 (midnight + hour) closed_link
      alice_owns_pills link_found refl

abbrev invited_house : Db
invited_house = (open_invite token 3 midnight house).1

leave_lem_example :
    let left = leave 2 7 house in
    (keep_if (Deliveries.unsent_of 2 (occurrence_ids 7 left)) left.deliveries ≡ [])
    × (elem 2 (People.list_accepted_user_ids 7 left.recipients) ≡ false)
    × (leave 2 7 left ≡ left)
leave_lem_example = leave_lem 2 7 house refl
