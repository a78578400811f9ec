-- ===== src/Reminders.antt =====
-- jobs/reminders/ and infra/kafka/reminder_worker.py: reminders are scheduled and delivered.
pub mod Scheduler
pub mod Worker
pub mod Wait
pub mod Dispatch
pub mod Plan
pub mod Delivery
