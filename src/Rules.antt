-- ===== src/Rules.antt =====
-- The constants of the rule modules: src/execution/execution_rules.py,
-- src/approvals/approval_rules.py, src/policy/rules.py, src/dependencies/dependency_modes.py.
pub mod ExecutionRules
pub mod ApprovalRules
pub mod PolicyRules
pub mod DependencyModes
