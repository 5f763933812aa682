-- ===== src/Execution/Runs.antt =====
-- src/execution/execution_service.py: the calls that execute and retry a request.
use billing_recovery_executi.Common.{
  String, not, Option, none, some, [], ◌∷◌, ◌==◌, ◌&&◌, leb, if◌then◌else◌, fstring,
}
use billing_recovery_executi.Database.{
  ExecutionRequest, StripeTestPayment, Env, Action, value_error, pure, raise, row, raise_if, ◌>>=◌,
  ◌>>◌,
}
use billing_recovery_executi.Cases.{update_case_status}
use billing_recovery_executi.Providers.TestPayments.{get_latest_stripe_test_payment}
use billing_recovery_executi.Execution.RetryPolicy.{evaluate_retry_eligibility}
use billing_recovery_executi.Execution.Requests.{
  get_execution_request_by_id, get_execution_attempt_count, found, set_execution_request_status,
}
use billing_recovery_executi.Execution.Attempts.{run_provider_attempt, run_stripe_refund_attempt}
use billing_recovery_executi.Rules.ExecutionRules.{
  execution_pending, processing, retrying, failed_transient, needs_manual_review,
  max_retry_attempts, case_status_processing, case_status_retrying, case_status_needs_manual_review,
}

-- `if execution_request["status"] != EXECUTION_PENDING: raise ...`
unfoldable pub must_be_pending : ExecutionRequest → Action (Unit {0})
must_be_pending r = raise_if (not (r.status == execution_pending)) (
    value_error
      (fstring ("Execution request is not executable from status " ∷ r.status ∷ "." ∷ [])))

unfoldable pub found_payment : Option StripeTestPayment → Action StripeTestPayment
unfolding pure raise
found_payment none =
    raise (value_error "Stripe test payment must be created before Stripe refund execution.")
found_payment (some p) = pure p

module _ (env : Env) where
  unfoldable pub execute_with_stripe_provider : String → String → Action ExecutionRequest
  execute_with_stripe_provider request_id dependency_mode = do
    read ← get_execution_request_by_id request_id
    request ← found read
    must_be_pending request
    latest ← get_latest_stripe_test_payment env request.case_id
    payment ← found_payment latest
    run_stripe_refund_attempt env request payment dependency_mode

  unfoldable pub execute_with_mock_provider : String → String → Action ExecutionRequest
  execute_with_mock_provider request_id simulated_outcome = do
    read ← get_execution_request_by_id request_id
    request ← found read
    must_be_pending request
    run_provider_attempt env request simulated_outcome processing case_status_processing

  -- What a retry does after its attempt, if the attempts are used up.
  unfoldable pub give_up : String → ExecutionRequest → Action ExecutionRequest
  give_up request_id refreshed = do
    set_execution_request_status env request_id needs_manual_review none
    update_case_status env refreshed.case_id case_status_needs_manual_review
    read ← get_execution_request_by_id request_id
    row read

  unfoldable pub retry_with_mock_provider : String → String → Action ExecutionRequest
  retry_with_mock_provider request_id simulated_outcome = do
    read ← get_execution_request_by_id request_id
    request ← found read
    attempt_count ← get_execution_attempt_count request_id
    let eligibility = evaluate_retry_eligibility request attempt_count
    raise_if (not eligibility.is_retryable) (value_error eligibility.reason)
    updated ← run_provider_attempt env request simulated_outcome retrying case_status_retrying
    read_again ← get_execution_request_by_id request_id
    refreshed_attempt_count ← get_execution_attempt_count request_id
    refreshed ← row read_again
    if refreshed.status == failed_transient && leb max_retry_attempts refreshed_attempt_count
        then give_up request_id refreshed
        else pure updated
