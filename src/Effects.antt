-- ===== src/Effects.antt =====
-- What every service call does to the database, stated once for every relation between the
-- database before a call and the database after it.
pub mod Respects
pub mod Spec
pub mod Returns
pub mod Frame
pub mod Requests
pub mod Attempts
pub mod Creation
pub use Respects.*
