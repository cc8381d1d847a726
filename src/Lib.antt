-- ===== src/Lib.antt =====
-- Remindo plans reminders, sends them through Telegram and takes the answers. The occurrences and
-- deliveries of its database are the queue between three jobs and the buttons: the planner
-- (app/services/planning.py) turns schedules into occurrences and deliveries, the dispatcher
-- (app/services/dispatching.py, DispatchingService) claims deliveries and sends them, the reaper
-- (ReaperService there) expires, repeats and frees them, and a tap on a button
-- (app/services/reactions.py) answers them. Watchers join a reminder by a link
-- (app/services/sharing.py). The rules themselves are pure functions of app/domain.
--
-- Which file models what:
--   Contracts        app/domain/contracts.py and errors.py; a function that may raise has a Result
--   Time             datetime, date and zoneinfo as the source uses them
--   Schedules        app/domain/schedules.py: the schedule kinds, their validation, HH:MM texts
--   Recurrence       app/domain/recurrence.py: to_utc, next_occurrences and what they call
--   QuietHours       app/domain/quiet_hours.py
--   Retry            app/domain/retry.py
--   Dispatching      app/domain/dispatching.py
--   Reactions        app/domain/reactions.py
--   Sweeping         app/domain/sweeping.py
--   Planning         app/domain/planning.py
--   Sharing          app/domain/sharing.py
--   Wizard           app/domain/reminders.py: what the creation wizard accepts
--   Categories       app/domain/categories.py: titles and codes
--   Stats            app/domain/stats.py
--   Digest           app/domain/digest.py
--   Ops              app/domain/ops.py
--   Db               app/db/models as records and app/db/repositories as functions on the tables
--   Services         app/services: each method takes the database and gives it back
--   Worker           app/worker/health.py, Heartbeats, and run_loop of app/worker/main.py
--   Bot              the rate limit and the pages of app/bot
--   System           the calls of the jobs, buttons, links and edits in any order, as one system
--   Tests            the theorems at concrete inputs
-- A folder beside a file holds its proofs, under names that say what they are about.
--
-- State. The database is a record of tables, a table the list of its rows. A service method takes the
-- database and gives back the one after it; where it raises before its commit the database stays. The methods
-- behind buttons, links and edits are one transaction each. A dispatcher cycle, a sweep and a digest cycle
-- are not: the dispatcher commits its claim and then each row, the digest each user, and the sweep reads
-- its rows without a lock. Their functions (deliver, sweep, Digest.run) are the cycles that nothing interrupts;
-- System has their commits as events of their own. What runs at the same time as a method is otherwise seen only
-- through the rows that another transaction holds, a parameter of claim_due.
-- The clock, the gateway's answers and the entropy of tokens are parameters.
--
-- The system. An Event of System is one call of a service by a job of app/worker or by a handler of
-- the bot, or one commit of a job on rows and contexts that it read before, and a run is a list of them.
-- `follows` says that the late writes of a run were begun by a claim or by a sweep. Frame says once which
-- properties of the database a call keeps, by the few ways in which the services write to the tables; an
-- invariant is an instance of it.
--
-- Days. The search of next_occurrences visits the local days of the range with a margin of one day on
-- both sides, and 3661 days at most (the cap counts the steps between them). Fires, the specification,
-- knows no such search: it speaks of any local day. IsSteady is what the margin needs of a zone: that its
-- clock is never far behind what it showed before.
--
-- Numbers. A moment is the count of microseconds since the start of year 1, so a datetime, a date
-- and a time of day are natural numbers and no width bounds them. Offsets of a zone are stored a day
-- too high, since Python keeps them strictly between minus and plus 24 hours. The zone database is a
-- parameter: IsZone is what PEP 495 says of it, and fixed_zone and spring_zone show that it can hold.
--
-- Loops. The bisection of to_utc has as fuel the length of its interval, which every round shortens;
-- the loop of an interval schedule has the number of steps that fit and one more. The theorems on
-- both are equations and give no result up to fuel. A streak has as fuel one round more than there
-- are done days, and the digits of a number one more than the number; the search for a free code tries
-- one candidate more than there are codes. All other loops are recursion on a list.
--
-- Unicode. What counts as white space or as a digit, str.casefold, the code that a title gives and the
-- check of an emoji are parameters, since they rest on tables of Python or on a hash.
--
-- Not modelled: the handlers, keyboards and texts of the bot, the gateway to Telegram and the HTTP
-- endpoints of the worker (input and output); the first row of a user; lists that only screens read, but for
-- an owner's reminders; the texts of dates and windows that the wizard cuts up; the JSON around a schedule;
-- rates, which are floats. Log lines are left out everywhere.
pub mod Bot
pub mod Categories
pub mod Contracts
pub mod Db
pub mod Digest
pub mod Dispatching
pub mod Ops
pub mod Planning
pub mod Prelude
pub mod QuietHours
pub mod Reactions
pub mod Recurrence
pub mod Retry
pub mod Schedules
pub mod Services
pub mod Sharing
pub mod Stats
pub mod Sweeping
pub mod System
pub mod Tests
pub mod Time
pub mod Wizard
pub mod Worker
