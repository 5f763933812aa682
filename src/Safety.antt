-- ===== src/Safety.antt =====
-- How often a request is attempted: at most three times, and at most once with success.
mod Triple
mod Tables
pub mod Steps
mod Attempts
pub mod Answers
pub mod Attempted
mod Runs
pub mod Calls
pub mod Outcomes
pub mod RefundAnswers
pub mod Refunds
pub use Tables.{IsSafe, IsSafe-nil, RequestIsSafe, succeeded_for}
