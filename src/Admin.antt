-- ===== src/Admin.antt =====
-- api/admin/ and core/audit/logger.py: what the administrators of a channel do.
pub mod Models
pub mod Config
pub mod Service
pub mod Ranges
pub mod Reset
pub mod Toggle
pub mod Update
pub mod Authorizer
