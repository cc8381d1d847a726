-- ===== src/Services/Onboarding/Settings.antt =====
-- What the settings promise to the delivery rules.
use remindo.Prelude.{◌%◌, ◌≡◌, true, Option, none, some, arith}
use remindo.Time.{Time, minute}
use remindo.Contracts.{ok}
use remindo.QuietHours.{is_quiet}
use remindo.Services.Onboarding.{Interval, normalize_quiet_hours}

-- A silence that is accepted has some minute in it: its first one is silent.
pub normalize_quiet_hours-quiet :
    (start end : Option Time) {i : Interval}
    → normalize_quiet_hours start end ≡ ok (some i)
    → (is_quiet i.start i.start i.end ≡ true) × (i.start % minute ≡ 0) × (i.end % minute ≡ 0)
unfolding normalize_quiet_hours is_quiet
normalize_quiet_hours-quiet none none h = cc
normalize_quiet_hours-quiet (some s) none h = cc
normalize_quiet_hours-quiet none (some e) h = cc
normalize_quiet_hours-quiet (some s) (some e) {i} h = ground arith
