-- ===== src/Tests.antt =====
-- Concrete inputs, and the theorems applied to them.
mod Inputs
mod Witnesses
mod Attempts
mod Sorter
mod Runs
mod Views
mod Reconciliations
