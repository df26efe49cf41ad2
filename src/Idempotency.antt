-- ===== src/Idempotency.antt =====
-- The module src/modules/idempotency, and the interceptor that uses it.
pub mod Request
pub mod Repository
pub mod Service
pub mod Steps
pub mod Started
pub mod Replayed
pub mod Interceptor
pub mod Retries
pub mod Cells
pub mod Inserted
pub mod Finished
pub mod Refinement
mod Tests
