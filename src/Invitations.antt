-- ===== src/Invitations.antt =====
-- The invitations of src/modules/iam/organizations.
pub mod Entity
pub mod Repository
pub mod UseCases
pub mod Steps
pub mod Accepted
mod Tests
