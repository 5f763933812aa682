-- ===== src/Policy.antt =====
-- src/policy: the deterministic policy engine and the service that stores its results.
pub mod Engine
pub mod Service
pub mod Outcomes
