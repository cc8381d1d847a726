-- ===== src/Tests.antt =====
-- The theorems at concrete inputs, by the part of the program that they are about.
mod Data
mod Recurrence
mod Domain
mod Planning
mod Delivery
mod Sharing
mod Runs
mod Reports
mod Setup
