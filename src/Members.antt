-- ===== src/Members.antt =====
-- The members of the organizations of src/modules/iam/organizations.
pub mod Repository
pub mod Policy
pub mod UseCases
pub mod Counting
pub mod Owners
mod Tests
