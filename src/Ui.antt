-- ===== src/Ui.antt =====
-- src/ui: the pure helpers of the panels.
pub mod StatusHelpers
pub mod Guidance
