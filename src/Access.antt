-- ===== src/Access.antt =====
-- Who may do what: the guards and the tenant of a request.
pub mod Request
pub mod Authentication
pub mod Permissions
pub mod Tenant
pub mod Chain
pub mod Joined
pub mod Chosen
pub mod Granted
pub mod Keys
mod Tests
