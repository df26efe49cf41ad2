-- ===== src/Sessions.antt =====
-- The sessions of src/modules/iam/auth, and the opaque tokens that name them.
pub mod Token
pub mod Entity
pub mod Repository
pub mod UseCases
pub mod Steps
pub mod Refused
pub mod Accepted
pub mod Ended
mod Tests
