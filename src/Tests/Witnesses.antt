-- ===== src/Tests/Witnesses.antt =====
-- The theorems at concrete inputs.
use billing_recovery_executi.Common.{
  List, ◌++◌, ◌≡◌, ◌↔◌, refl, ◌+◌, ◌<◌, true, false, arith, ne_of_test, ltb_ℤ,
}
use billing_recovery_executi.Database.{Database}
use billing_recovery_executi.Workflow.{Command, run}
use billing_recovery_executi.Workflow.Audit.{ExtendsAudit, run-ExtendsAudit}
use billing_recovery_executi.Workflow.Requests.{KeepsRequests, run-KeepsRequests}
use billing_recovery_executi.Safety.{IsSafe, IsSafe-nil}
use billing_recovery_executi.Safety.Calls.{run-IsSafe}
use billing_recovery_executi.Authority.Approvals.{AllPermitted, run-AllPermitted}
use billing_recovery_executi.Authority.Requests.{AllCovered, run-AllCovered}
use billing_recovery_executi.Authority.Claims.{ClaimsOnce, run-ClaimsOnce}
use billing_recovery_executi.Policy.Engine.{evaluate_policy}
use billing_recovery_executi.Policy.Outcomes.{
  IsStandard, IsBlocked, Agrees, evaluate_policy-outcome, evaluate_policy-Agrees,
}
use billing_recovery_executi.Rules.PolicyRules.{
  blocked, requires_manager_approval, eligible_for_approval, needs_more_review,
  manager_approval_threshold_cents,
}
use billing_recovery_executi.Reconciliation.{compare_states}
use billing_recovery_executi.Reconciliation.Verdicts.{IsDoubtful, compare_states-action}
use billing_recovery_executi.Execution.RetryPolicy.{evaluate_retry_status}
use billing_recovery_executi.Execution.Refusals.{
  IsRefused, evaluate_retry_status-retryable, execute-IsRefused, retry-IsRefused,
}
use billing_recovery_executi.Execution.Runs.{
  execute_with_mock_provider, execute_with_stripe_provider, retry_with_mock_provider,
}
use billing_recovery_executi.Recovery.{create_manual_recovery_action}
use billing_recovery_executi.Recovery.Refusals.{create_manual_recovery_action-IsRefused}
use billing_recovery_executi.Rules.ExecutionRules.{
  failed_transient, failed_permanent, needs_manual_review, execution_pending, succeeded,
  provider_succeeded, recon_action_mark_reconciled, recon_action_route_manual_review,
  recon_action_no_change,
}
use billing_recovery_executi.Tests.Inputs.{
  demo, demo-PicksLatest, fresh, preparation, attempts, duplicate_charge, request_with,
  with_request, recovery,
}

abbrev session : List Command
session = preparation ++ attempts

run-AllPermitted_example : AllPermitted (run demo session fresh)
run-AllPermitted_example = run-AllPermitted demo session fresh tt

run-AllCovered_example : AllCovered (run demo session fresh)
run-AllCovered_example = run-AllCovered demo session fresh tt

fresh-ClaimsOnce : ClaimsOnce fresh
fresh-ClaimsOnce = record { at = λ id. omega arith }

run-ClaimsOnce_example : ClaimsOnce (run demo session fresh)
run-ClaimsOnce_example = run-ClaimsOnce demo demo-PicksLatest session fresh fresh-ClaimsOnce

run-ExtendsAudit_example : ExtendsAudit fresh (run demo session fresh)
run-ExtendsAudit_example = run-ExtendsAudit demo session fresh

abbrev prepared : Database
prepared = run demo preparation fresh

run-KeepsRequests_example : KeepsRequests prepared (run demo attempts prepared)
run-KeepsRequests_example = run-KeepsRequests demo attempts prepared

run-IsSafe_example :
    IsSafe (run demo session fresh).execution_requests (run demo session fresh).execution_attempts
run-IsSafe_example = run-IsSafe demo session fresh IsSafe-nil

evaluate_policy-outcome_example :
    ((evaluate_policy duplicate_charge).outcome ≡ blocked ↔ IsBlocked duplicate_charge)
    × ((evaluate_policy duplicate_charge).outcome ≡ requires_manager_approval
        ↔ IsStandard duplicate_charge
          × (ltb_ℤ manager_approval_threshold_cents duplicate_charge.amount_cents ≡ true))
    × ((evaluate_policy duplicate_charge).outcome ≡ eligible_for_approval
        ↔ IsStandard duplicate_charge
          × (ltb_ℤ manager_approval_threshold_cents duplicate_charge.amount_cents ≡ false))
    × ((evaluate_policy duplicate_charge).outcome ≡ needs_more_review
        ↔ (¬ IsBlocked duplicate_charge) × (¬ IsStandard duplicate_charge))
evaluate_policy-outcome_example = evaluate_policy-outcome duplicate_charge

evaluate_policy-Agrees_example : Agrees (evaluate_policy duplicate_charge)
evaluate_policy-Agrees_example = evaluate_policy-Agrees duplicate_charge

compare_states-action_example :
    ((compare_states "failed_transient" "succeeded").action_taken ≡ recon_action_mark_reconciled
      ↔ ("failed_transient" ≡ succeeded) × ("succeeded" ≡ provider_succeeded))
    × ((compare_states "failed_transient" "succeeded").action_taken
          ≡ recon_action_route_manual_review
        ↔ IsDoubtful "failed_transient" "succeeded")
    × ((compare_states "failed_transient" "succeeded").action_taken ≡ recon_action_no_change
        ↔ (¬ IsDoubtful "failed_transient" "succeeded")
          × ¬ (("failed_transient" ≡ succeeded) × ("succeeded" ≡ provider_succeeded)))
compare_states-action_example = compare_states-action "failed_transient" "succeeded"

evaluate_retry_status-retryable_example :
    ((evaluate_retry_status "failed_transient" 2).is_retryable ≡ true
      ↔ ("failed_transient" ≡ failed_transient) × (2 < 3))
    × ((evaluate_retry_status "failed_transient" 2).is_retryable ≡ true
        → 2 + (evaluate_retry_status "failed_transient" 2).attempts_remaining ≡ 3)
    × ((evaluate_retry_status "failed_transient" 2).is_retryable ≡ false
        → (evaluate_retry_status "failed_transient" 2).attempts_remaining ≡ 0)
evaluate_retry_status-retryable_example = evaluate_retry_status-retryable "failed_transient" 2

execute-IsRefused_example :
    IsRefused (execute_with_mock_provider demo "EXE-1" "success") (with_request "succeeded")
    × IsRefused (execute_with_stripe_provider demo "EXE-1" "live") (with_request "succeeded")
execute-IsRefused_example =
    execute-IsRefused demo "EXE-1" (with_request "succeeded") (request_with "succeeded") refl
      "success" "live" (ne_of_test succeeded execution_pending refl)

retry-IsRefused_example :
    IsRefused (retry_with_mock_provider demo "EXE-1" "success") (with_request "succeeded")
retry-IsRefused_example =
    retry-IsRefused demo "EXE-1" (with_request "succeeded") (request_with "succeeded") refl
      "success" (λ h. ne_of_test succeeded failed_transient refl h.0)

create_manual_recovery_action-IsRefused_example :
    IsRefused (create_manual_recovery_action demo "EXE-1" recovery) (with_request "succeeded")
create_manual_recovery_action-IsRefused_example =
    create_manual_recovery_action-IsRefused demo "EXE-1" (with_request "succeeded")
      (request_with "succeeded") recovery refl (ne_of_test succeeded failed_transient refl)
      (ne_of_test succeeded failed_permanent refl) (ne_of_test succeeded needs_manual_review refl)
