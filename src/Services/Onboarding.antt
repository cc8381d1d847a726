-- ===== src/Services/Onboarding.antt =====
-- app/domain/onboarding.py and app/services/onboarding.py: personal settings. `ZoneInfo(name)` is a
-- parameter: none is a name that it refuses. The user's names and language are not kept.
pub mod Settings
use remindo.Prelude.{
  ℕ, ◌+◌, ◌%◌, Bool, true, false, ◌&&◌, Option, none, some, List, [], ◌∷◌, ◌++◌, ◌==◌,
  if◌then◌else◌,
}
use remindo.Time.{Moment, Time, minute}
use remindo.Time.Zone.{Zone}
use remindo.Contracts.{Result, err, ok, ◌>>=◌, not_found, validation}
use remindo.Db.{Db, User}
use remindo.Db.Table.{get, update, update_where}
use remindo.Db.People.{id_of}

pub record Interval : Type 0 where
  pub start : Time
  pub end : Time

-- The checks of both bounds, then of the two together.
abbrev pub quiet_interval : Time → Time → Result (Option Interval)
quiet_interval start end =
    if (start % minute == 0) && (end % minute == 0)
    then (if start == end then err validation else ok (some (record { start = start; end = end })))
    else err validation

unfoldable pub normalize_quiet_hours : Option Time → Option Time → Result (Option Interval)
normalize_quiet_hours none none = ok none
normalize_quiet_hours (some start) none = err validation
normalize_quiet_hours none (some end) = err validation
normalize_quiet_hours (some start) (some end) = quiet_interval start end

abbrev pub known_zone : Option Zone → Result Zone
known_zone none = err validation
known_zone (some z) = ok z

abbrev pub user_or_raise : Option User → Result User
user_or_raise none = err not_found
user_or_raise (some u) = ok u

-- `_require_user`
unfoldable pub require_user : ℕ → Db → Result User
unfolding get
require_user user_id db = user_or_raise (get id_of user_id db.users)

unfoldable pub set_user : ℕ → (User → User) → Db → Db
unfolding update_where
set_user i f db = record db { users = update id_of i f db.users }

abbrev pub first_time : Option Moment → Moment → Option Moment
first_time none now = some now
first_time (some m) now = some m

unfoldable pub set_timezone : ℕ → Option Zone → Moment → Db → Result Db
unfolding require_user set_user
set_timezone user_id zone now db = known_zone zone >>= λ z. require_user user_id db >>= λ u. ok (
    set_user u.id (λ x. record x { timezone = z; onboarded_at = first_time x.onboarded_at now }) db)

unfoldable pub set_digest : ℕ → Bool → Db → Result Db
unfolding require_user set_user
set_digest user_id enabled db = require_user user_id db >>= λ u.
    ok (set_user u.id (λ x. record x { digest_enabled = enabled }) db)

abbrev pub with_interval : Option Interval → User → User
with_interval none u = record u { quiet_start = none; quiet_end = none }
with_interval (some i) u = record u { quiet_start = some i.start; quiet_end = some i.end }

unfoldable pub set_quiet_hours : ℕ → Option Time → Option Time → Db → Result Db
unfolding normalize_quiet_hours require_user set_user
set_quiet_hours user_id quiet_start quiet_end db =
    normalize_quiet_hours quiet_start quiet_end >>= λ interval.
    require_user user_id db >>= λ u. ok (set_user u.id (with_interval interval) db)
