-- ===== src/Authority.antt =====
-- What stands in the database behind an approval and behind an execution request.
mod Decisions
pub mod Approvals
mod Creation
pub mod Requests
pub mod Claims
