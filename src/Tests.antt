-- ===== src/Tests.antt =====
-- Small inputs, and the theorems at them.
mod Sorting
mod Samples
mod Orders
mod Fairness
mod Runs
mod Admin
mod Reminders
mod Kafka
mod Database
mod Slack
