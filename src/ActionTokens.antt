-- ===== src/ActionTokens.antt =====
-- The tokens of src/modules/iam/auth that reset a password or verify an email address.
pub mod Entity
pub mod Repository
pub mod UseCases
pub mod Steps
pub mod Spent
pub mod Deleted
mod Tests
