-- ===== src/Table.antt =====
-- Tables as the repositories use them: lists of rows with a text as primary key, the meaning of
-- the SQL statements that the repositories send, and the object mapper's `save` as an interface.
mod Defs
mod Laws
pub mod Counting
pub mod Upsert
pub use Defs.*
pub use Laws.*
