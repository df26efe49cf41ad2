-- ===== src/Users.antt =====
-- The users of src/modules/iam/users.
pub mod Entity
pub mod Repository
