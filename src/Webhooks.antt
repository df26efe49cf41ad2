-- ===== src/Webhooks.antt =====
-- Outgoing webhooks (src/modules/webhooks).
pub mod Endpoint
pub mod Target
pub mod Client
pub mod Allowed
pub mod Blocks
mod Tests
