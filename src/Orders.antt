-- ===== src/Orders.antt =====
-- core/orders/: the repositories, the validator and the order service.
pub mod Models
pub mod Validate
pub mod Repository
pub mod Service
mod Upsert
pub mod Lookup
pub mod Persist
pub mod Submit
pub mod Cancel
pub mod Reuse
pub mod RoundTrip
pub mod Reach
