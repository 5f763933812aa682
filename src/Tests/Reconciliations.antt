-- ===== src/Tests/Reconciliations.antt =====
-- A reconciliation that returns.
use billing_recovery_executi.Common.{◌≡◌, refl, some, none, show_ℕ, lower}
use billing_recovery_executi.Database.{
  Database, ReconciliationRun, ok, pure, raise, gets, row, modify, insert, draw_uuid8, now, ◌>>=◌,
}
use billing_recovery_executi.Audit.{record_audit_event}
use billing_recovery_executi.Cases.{update_case_status}
use billing_recovery_executi.Providers.Mock.{lookup_provider_state}
use billing_recovery_executi.Execution.Requests.{
  get_execution_request_by_id, found, set_execution_request_status, update_execution_request_status,
  mark_execution_reconciled,
}
use billing_recovery_executi.Reconciliation.{
  evaluate_reconciliation, lookup_for_reconciliation, apply_reconciliation_action,
  run_reconciliation,
}
use billing_recovery_executi.Reconciliation.Outcomes.{
  IsReconciliation, run_reconciliation-IsReconciliation,
}
use billing_recovery_executi.Tests.Inputs.{demo, with_request}

abbrev paid : Database
paid = with_request "succeeded"

abbrev checked : Database
checked = (run_reconciliation demo "EXE-1" (some "succeeded") none paid).1

abbrev matched : ReconciliationRun
matched = record {
  reconciliation_id = "REC-0";
  execution_request_id = "EXE-1";
  internal_status = "succeeded";
  provider_status = "succeeded";
  provider_object_id = some "mock_recovered_exe-1";
  result = "matched_success";
  mismatch_reason = none;
  action_taken = "mark_reconciled";
  created_at = 1;
}

reconciles : run_reconciliation demo "EXE-1" (some "succeeded") none paid ≡ (ok matched, checked)
unfolding run_reconciliation lookup_for_reconciliation lookup_provider_state evaluate_reconciliation
    apply_reconciliation_action mark_execution_reconciled update_execution_request_status
    set_execution_request_status update_case_status record_audit_event get_execution_request_by_id
    found pure raise gets row modify insert draw_uuid8 now ◌>>=◌ demo show_ℕ lower
reconciles = refl

run_reconciliation-IsReconciliation_example : IsReconciliation "EXE-1" paid checked matched
run_reconciliation-IsReconciliation_example =
    run_reconciliation-IsReconciliation demo "EXE-1" (some "succeeded") none paid checked matched
      reconciles
