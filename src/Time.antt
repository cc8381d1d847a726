-- ===== src/Time.antt =====
-- The parts of Python's `datetime` that the program computes with (app/domain/recurrence.py and its
-- neighbours). Every value is a number of microseconds, or of days:
-- a `Moment` is an aware datetime, counted in UTC from 0001-01-01; a `Naive` is a datetime with no
-- zone, counted the same way on the local clock; a `Time` is counted from midnight, a `Date` in days
-- from 0001-01-01. A moment and a naive value are different types in Python only through `tzinfo`,
-- so the guards `tzinfo is None` of the source hold by the types here. `datetime.min` is 0: Python
-- raises OverflowError below it and the subtractions here stop at it.
mod Units
pub mod Calendar
pub mod Zone
pub use Units.*
