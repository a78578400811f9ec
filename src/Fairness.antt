-- ===== src/Fairness.antt =====
-- services/fairness/: who runs.
pub mod Selector
pub mod Service
pub mod Least
pub mod Dict
pub mod Extend
mod Load
pub mod Candidates
mod Choice
pub mod Assign
