-- ===== src/HttpLogs.antt =====
-- What src/modules/observability/http-logs stores of requests and responses.
pub mod Serializer
pub mod Secret
pub mod Redaction
pub mod Overwritten
mod Tests
