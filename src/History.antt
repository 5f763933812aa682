-- ===== src/History.antt =====
-- The queries that fill a panel with history: get_all_cases of src/cases/case_service.py,
-- get_execution_attempts of src/execution/execution_service.py, get_reconciliation_runs of
-- src/reconciliation/reconciliation_service.py, get_manual_recovery_actions of
-- src/recovery/manual_recovery_service.py and get_audit_events_for_case of
-- src/audit/audit_service.py.
use billing_recovery_executi.Common.{ℕ, String, List, ◌==◌, is_text, if◌then◌else◌}
use billing_recovery_executi.Table.{select, Sorter, ascending, descending, ascending_then}
use billing_recovery_executi.Database.{
  BillingCase, ExecutionAttempt, ReconciliationRun, ManualRecoveryAction, AuditEvent, Action, gets,
}

-- CASE priority WHEN 'high' THEN 1 ...
abbrev pub priority_rank : String → ℕ
priority_rank priority =
    if priority == "high"
    then 1
    else if priority == "medium"
    then 2
    else if priority == "low"
    then 3
    else 4

module _ (sorter : Sorter) where
  unfoldable pub get_all_cases : Action (List BillingCase)
  get_all_cases = gets (λ db.
      sorter.order_by (ascending_then (λ c. priority_rank c.priority) (λ c. c.created_at))
        db.billing_cases)

  unfoldable pub get_execution_attempts : String → Action (List ExecutionAttempt)
  get_execution_attempts request_id = gets (λ db.
      sorter.order_by (ascending (λ a. a.attempt_number))
        (select (λ a. a.execution_request_id == request_id) db.execution_attempts))

  unfoldable pub get_reconciliation_runs : String → Action (List ReconciliationRun)
  get_reconciliation_runs request_id = gets (λ db.
      sorter.order_by (descending (λ r. r.created_at))
        (select (λ r. r.execution_request_id == request_id) db.reconciliation_runs))

  unfoldable pub get_manual_recovery_actions : String → Action (List ManualRecoveryAction)
  get_manual_recovery_actions request_id = gets (λ db.
      sorter.order_by (descending (λ a. a.created_at))
        (select (λ a. a.execution_request_id == request_id) db.manual_recovery_actions))

  unfoldable pub get_audit_events_for_case : String → Action (List AuditEvent)
  get_audit_events_for_case case_id = gets (λ db.
      sorter.order_by (ascending (λ e. e.created_at))
        (select (λ e. is_text e.case_id case_id) db.audit_events))
