-- ===== src/Liveness.antt =====
-- Calls that return: executing and retrying an execution request.
pub mod Fresh
mod Attempts
pub mod Runs
pub mod Settling
