-- ===== src/Runs.antt =====
-- core/runs/: closing a run.
pub mod Models
pub mod Service
pub mod Rows
pub mod Snapshot
pub mod Frame
pub mod Closable
pub mod Finish
pub mod Shut
pub mod Active
pub mod Close
pub mod Previous
