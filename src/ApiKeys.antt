-- ===== src/ApiKeys.antt =====
-- The keys of src/modules/iam/api-keys.
pub mod Token
pub mod Entity
pub mod UseCases
pub mod Accepted
pub mod Created
pub mod Steps
pub mod Revoked
pub mod Fresh
pub mod Sample
mod Tests
