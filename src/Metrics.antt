-- ===== src/Metrics.antt =====
-- src/analytics/ops_metrics.py: what the operations dashboard shows.
pub mod Counts
pub mod Queues
mod Joins
pub mod Attention
pub mod Totals
pub mod Groups
pub mod Orders
