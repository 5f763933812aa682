-- ===== src/Execution.antt =====
-- src/execution: idempotency keys, the retry policy and the execution service.
pub mod Idempotency
pub mod RetryPolicy
pub mod Requests
pub mod Statuses
pub mod Attempts
pub mod Creation
pub mod Runs
pub mod Refusals
