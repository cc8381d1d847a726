-- ===== src/Services/Stats.antt =====
-- app/services/stats.py: the summary of one user's journal.
use remindo.Prelude.{ℕ, ◌-◌, ◌*◌, Option, none, some, map}
use remindo.Time.{Moment, day}
use remindo.Contracts.{Result, err, ok, not_found}
use remindo.Stats.{ActionRecord, StatsSummary, build_summary, stats_history_days}
use remindo.Db.{Db, User}
use remindo.Db.Table.{get}
use remindo.Db.Reports.{Journal, list_actions_for_user}

abbrev pub record_of : Journal → ActionRecord
record_of row = record {
  happened_at = row.action.created_at;
  kind = row.action.kind;
  category_id = row.category_id;
}

unfoldable pub summary_for : User → Moment → Option ℕ → Db → StatsSummary
unfolding list_actions_for_user
summary_for user moment category_id db =
    let rows =
      list_actions_for_user user.id (moment - stats_history_days * day) moment category_id db in
    build_summary (map record_of rows) user.timezone moment

abbrev pub summary_of_user : Option User → Moment → Option ℕ → Db → Result StatsSummary
unfolding summary_for
summary_of_user none moment category_id db = err not_found
summary_of_user (some user) moment category_id db = ok (summary_for user moment category_id db)

unfoldable pub summary_at : ℕ → Moment → Option ℕ → Db → Result StatsSummary
unfolding get
summary_at user_id moment category_id db =
    summary_of_user (get (λ u. u.id) user_id db.users) moment category_id db
