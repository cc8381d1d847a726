-- ===== src/Tests/Setup.antt =====
-- The wizard, the schedule contract and the categories at concrete inputs.
use remindo.Prelude.{
  ◌+◌, ◌-◌, ◌*◌, ◌≡◌, refl, true, false, none, some, [], ◌∷◌, arith, Text, leb, ◌==◌, ◌&&◌,
  if◌then◌else◌, elem, set_of, set_add, sorted, sorted_insert, words, join_words,
}
use remindo.Time.{Moment, hour, minute, day}
use remindo.Contracts.{ok}
use remindo.Schedules.{once, daily, last_day, validate, parse_hhmm, format_hhmm, normalize, Digits}
use remindo.Schedules.WallClock.{IsDigits, parse_hhmm-format}
use remindo.Schedules.Validation.{validate_twice}
use remindo.Wizard.{
  normalize_reminder_title, normalize_note, first_fire_at, build_once_schedule,
  build_daily_schedule, build_weekly_schedule, build_monthly_schedule, build_interval_schedule,
}
use remindo.Wizard.Builders.{BuildsValid, builders_valid}
use remindo.Categories.{
  next_free_code, is_taken, normalize_category_title, free_from, candidate, suffix_of, decimal_of,
  lstrip, rstrip,
}
use remindo.Categories.Codes.{next_free_code_total}
use remindo.Db.{Db, Category, Reminder}
use remindo.Db.Categories.{list_owned, list_codes}
use remindo.Services.Categories.{Unicode, create, reject_duplicate, add}
use remindo.Services.Categories.Unique.{KeysUnique, create-Unique}
use remindo.Time.Zone.{to_instant}
use remindo.Recurrence.{next_occurrences, expand, to_utc}
use remindo.Db.Table.{get}
use remindo.Db.Categories.{get_by_id}
use remindo.Db.Reminders
use remindo.Db.People
use remindo.Services.Categories.{get_for_user}
use remindo.Services.Reminders.Writes.{
  NewReminder, new_reminder, add_reminder, create as create_reminder,
}
use remindo.Services.Reminders.Creation.{create_lem}
use remindo.Wizard.Builders.{FiresAhead}
use remindo.Tests.Data.{midnight, utc, house, health}

-- The digits of ASCII alone.
abbrev ascii_digits : Digits
ascii_digits c = if leb 48 c && leb c 57 then some (c - 48) else none

ascii_digits-IsDigits : IsDigits ascii_digits
ascii_digits-IsDigits = record { ascii = λ d h. ground arith; small = λ c d h. ground arith }

parse_hhmm-format_example :
    parse_hhmm ascii_digits (format_hhmm (9 * hour + 5 * minute)) ≡ ok (9 * hour + 5 * minute)
parse_hhmm-format_example = parse_hhmm-format ascii_digits-IsDigits (9 * hour + 5 * minute) refl

two_times :
    validate (daily (9 * hour ∷ 8 * hour ∷ 9 * hour ∷ []) 1)
    ≡ ok (daily (8 * hour ∷ 9 * hour ∷ []) 1)
unfolding validate normalize set_of set_add elem sorted sorted_insert
two_times = refl

validate_twice_example :
    validate (daily (8 * hour ∷ 9 * hour ∷ []) 1) ≡ ok (daily (8 * hour ∷ 9 * hour ∷ []) 1)
validate_twice_example = validate_twice (daily (9 * hour ∷ 8 * hour ∷ 9 * hour ∷ []) 1) two_times

builders_valid_example :
    BuildsValid (build_once_schedule 738884 (9 * hour))
    × BuildsValid (build_daily_schedule (9 * hour ∷ []))
    × BuildsValid (build_weekly_schedule (9 * hour ∷ []) (1 ∷ 5 ∷ []))
    × BuildsValid (build_monthly_schedule (9 * hour ∷ []) (1 ∷ 5 ∷ []) last_day)
    × BuildsValid (build_interval_schedule 30 (8 * hour) (20 * hour))
builders_valid_example =
    builders_valid 738884 (9 * hour) (8 * hour) (20 * hour) (9 * hour ∷ []) (1 ∷ 5 ∷ []) last_day 30
      refl (omega arith) (omega arith)

-- "h1"
abbrev base : Text
base = 104 ∷ 49 ∷ []

next_free_code_total_example :
    (code : Text) × (next_free_code base (base ∷ []) ≡ ok code)
    × (is_taken code (base ∷ []) ≡ false)
next_free_code_total_example = next_free_code_total base (base ∷ [])

abbrev plain : Unicode
plain = record {
  is_space = λ c. c == 32;
  casefold = λ t. t;
  slugify_code = λ t. base;
  is_emoji = λ t. true;
}

abbrev sport : Category
sport = record {
  id = 4;
  owner_id = some 1;
  code = 104 ∷ 49 ∷ 95 ∷ 50 ∷ [];
  title = 75 ∷ [];
  archived_at = none;
}

abbrev more : Db
more = record house { categories = health ∷ sport ∷ []; next_category = 5 }

-- "K", with a base that is taken
create_run : create plain 1 (32 ∷ 75 ∷ []) [] house ≡ ok (sport, more)
unfolding create normalize_category_title words join_words reject_duplicate list_owned
    next_free_code list_codes add is_taken free_from candidate suffix_of decimal_of lstrip rstrip
create_run = refl

house-Unique : KeysUnique plain house
house-Unique = record { codes = (refl, tt); titles = (refl, tt) }

create-Unique_example : KeysUnique plain more
create-Unique_example = create-Unique plain 1 (32 ∷ 75 ∷ []) [] house house-Unique create_run

-- Alice is reminded once, at nine.
abbrev dentist : NewReminder
dentist = record {
  owner_id = 1;
  category_id = 3;
  title = 75 ∷ [];
  schedule = once (midnight + 9 * hour);
  timezone = some utc;
  starts_at = none;
  ends_at = none;
  note = none;
  max_occurrences = none;
  snooze_minutes = 10;
  repeat_after_minutes = none;
}

abbrev dentist_row : Reminder
dentist_row = new_reminder 8 dentist utc midnight

dentist_made :
    create_reminder (λ c. c == 32) 8 dentist midnight house
    ≡ ok (dentist_row, add_reminder dentist_row midnight house)
unfolding create_reminder normalize_reminder_title normalize_note words join_words first_fire_at
    next_occurrences expand to_utc to_instant get_for_user get_by_id get
dentist_made = refl

create_lem_example :
    ((m : Moment) × FiresAhead (once (midnight + 9 * hour)) utc midnight 366 m)
    × (Reminders.is_due_for_planning (midnight + day) dentist_row ≡ leb midnight (midnight + day))
    × (elem 1 (People.list_accepted_user_ids 8 (add_reminder dentist_row midnight house).recipients)
        ≡ true)
create_lem_example =
    create_lem (λ c. c == 32) 8 dentist midnight (midnight + day) house (omega arith) dentist_made
