-- ===== src/Jobs.antt =====
-- Asynchronous jobs (src/modules/jobs): the outbox, its relay to the queue, and the workers.
pub mod Entity
pub mod Policy
pub mod Repository
pub mod Errors
pub mod Relay
pub mod Cleanup
pub mod Replay
pub mod Store
pub mod Email
pub mod WebhookDelivery
pub mod Processor
pub mod Worker
pub mod Samples
mod Tests
pub mod Inspection
