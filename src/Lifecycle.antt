-- ===== src/Lifecycle.antt =====
-- The life of an execution request: the steps that its status may take, and what is recorded of its
-- attempts.
pub mod Steps
pub mod Writes
pub mod Answers
mod Attempts
pub mod Runs
mod Updates
mod Decisions
pub mod Calls
pub mod Refinement
pub mod Ledger
pub mod Statuses
