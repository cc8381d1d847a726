-- ===== src/Services/Planning/Cycle.antt =====
-- A planner step: no moment behind the planned horizon is lost.
use remindo.Db.{Db}
use remindo.Db.Occurrences
use remindo.Db.People
