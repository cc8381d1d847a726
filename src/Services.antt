-- ===== src/Services.antt =====
-- app/services: one transaction each over the tables. Rendering, logging and the session's commits
-- are left out. A method that raises before its commit leaves the database as it was; `open_invite`
-- may raise after it, so it gives its result and the database side by side.
pub mod Reactions
pub mod Dispatching
pub mod Reaper
pub mod Planning
pub mod Sharing
pub mod Reminders
pub mod Ops
pub mod Stats
pub mod Digest
pub mod Categories
pub mod Onboarding
