-- ===== src/Usage.antt =====
-- The counters of src/modules/usage-metering, and the interceptor that fills them.
pub mod Counter
pub mod Metering
pub mod Totals
mod Tests
