-- ===== src/Briefs.antt =====
-- src/ai/billing_summary.py: the advisory brief of a case, by OpenAI, by a mock or by a fallback.
pub mod Payloads
pub mod Service
pub mod Advice
pub mod Complete
pub mod Totality
