-- ===== src/Tests/Attempts.antt =====
-- An execution and a retry that return, and the theorems on what they return.
use billing_recovery_executi.Common.{
  ℕ, pos, some, none, [], ◌∷◌, strip, ◌≡◌, refl, ◌+◌, String, show_ℕ,
}
use billing_recovery_executi.Table.{count}
use billing_recovery_executi.Database.{
  Database, ExecutionRequest, StripeTestPayment, Env, call_tick, ok, pure, raise, gets, row, modify,
  raise_if, insert, draw_uuid8, draw_uuid10, now, ◌>>=◌,
}
use billing_recovery_executi.Audit.{record_audit_event}
use billing_recovery_executi.Cases.{update_case_status}
use billing_recovery_executi.Providers.Mock.{execute_billing_operation}
use billing_recovery_executi.Execution.RetryPolicy.{evaluate_retry_eligibility}
use billing_recovery_executi.Execution.Requests.{
  is_of, get_execution_request_by_id, get_execution_attempt_count, found,
  set_execution_request_status, update_execution_request_provider_and_status,
}
use billing_recovery_executi.Execution.Statuses.{
  map_provider_response_to_execution_status, map_execution_status_to_case_status,
}
use billing_recovery_executi.Execution.Attempts.{
  store_execution_attempt, run_provider_attempt, caught, stripe_response, run_stripe_refund_attempt,
}
use billing_recovery_executi.Execution.Runs.{
  must_be_pending, execute_with_mock_provider, give_up, retry_with_mock_provider, found_payment,
  execute_with_stripe_provider,
}
use billing_recovery_executi.Providers.Stripe.{
  if_configured, configure_stripe_client, is_stripe_configured, get_stripe_secret_key,
  classify_stripe_error, extract_stripe_error_code,
}
use billing_recovery_executi.Providers.StripeRefunds.{
  execute_test_mode_refund, build_stripe_refund_fallback_response,
}
use billing_recovery_executi.Providers.TestPayments.{get_latest_stripe_test_payment}
use billing_recovery_executi.Safety.Refunds.{Refunded, execute_with_stripe_provider-Refunded}
use billing_recovery_executi.Safety.Attempted.{Answered}
use billing_recovery_executi.Safety.Outcomes.{
  Retried, execute_with_mock_provider-Answered, retry_with_mock_provider-Retried,
}
use billing_recovery_executi.Tests.Inputs.{demo, latest_of, with_request, request_with}

-- What is stored after an answer at the time `at`.
abbrev answered : String → ℕ → ExecutionRequest
answered status at = record (request_with status) { updated_at = at }

abbrev executed : Database
executed =
    (execute_with_mock_provider demo "EXE-1" "transient_failure"
      (with_request "execution_pending")).1

executes :
    execute_with_mock_provider demo "EXE-1" "transient_failure" (with_request "execution_pending")
    ≡ (ok (answered "failed_transient" 6), executed)
unfolding record_audit_event update_case_status execute_billing_operation evaluate_retry_eligibility
    get_execution_request_by_id get_execution_attempt_count found set_execution_request_status
    map_provider_response_to_execution_status map_execution_status_to_case_status
    store_execution_attempt run_provider_attempt must_be_pending execute_with_mock_provider give_up
    retry_with_mock_provider pure raise gets row modify raise_if insert draw_uuid8 draw_uuid10 now
    ◌>>=◌ demo show_ℕ
executes = refl

execute_with_mock_provider-Answered_example :
    Answered "EXE-1"
      (count (is_of "EXE-1") (with_request "execution_pending").execution_attempts + 1)
      "transient_failure"
      (answered "failed_transient" 6)
      executed.execution_requests
      executed.execution_attempts
execute_with_mock_provider-Answered_example =
    execute_with_mock_provider-Answered demo "EXE-1" "transient_failure"
      (with_request "execution_pending") executed (answered "failed_transient" 6) executes

abbrev retried : Database
retried = (retry_with_mock_provider demo "EXE-1" "timeout" executed).1

retries :
    retry_with_mock_provider demo "EXE-1" "timeout" executed
    ≡ (ok (answered "needs_manual_review" 14), retried)
unfolding record_audit_event update_case_status execute_billing_operation evaluate_retry_eligibility
    get_execution_request_by_id get_execution_attempt_count found set_execution_request_status
    map_provider_response_to_execution_status map_execution_status_to_case_status
    store_execution_attempt run_provider_attempt must_be_pending execute_with_mock_provider give_up
    retry_with_mock_provider pure raise gets row modify raise_if insert draw_uuid8 draw_uuid10 now
    ◌>>=◌ demo show_ℕ
retries = refl

retry_with_mock_provider-Retried_example :
    Retried "EXE-1"
      (count (is_of "EXE-1") executed.execution_attempts)
      "timeout"
      (answered "needs_manual_review" 14)
      retried.execution_requests
      retried.execution_attempts
retry_with_mock_provider-Retried_example =
    retry_with_mock_provider-Retried demo "EXE-1" "timeout" executed retried
      (answered "needs_manual_review" 14) retries

-- Stripe is configured, and does not answer.
abbrev unreachable : Env
unreachable = record demo { stripe_secret_key = some "sk_test_1" }

abbrev payment : StripeTestPayment
payment = record {
  stripe_test_payment_id = "STP-1";
  case_id = "CASE-1003";
  dependency_mode = "live";
  runtime_result = "live_success";
  source = "stripe_test_mode";
  payment_intent_id = "pi_1";
  charge_id = some "ch_1";
  amount_cents = pos 4900;
  currency = "EUR";
  payment_status = "succeeded";
  error_message = none;
  created_at = 0;
}

abbrev payable : Database
payable = record (with_request "execution_pending") { stripe_test_payments = payment ∷ [] }

abbrev refunded : Database
refunded = (execute_with_stripe_provider unreachable "EXE-1" "live" payable).1

abbrev unrefunded : ExecutionRequest
unrefunded = record (answered "failed_transient" 7) { provider = "stripe_test_mode" }

refunds :
    execute_with_stripe_provider unreachable "EXE-1" "live" payable ≡ (ok unrefunded, refunded)
unfolding record_audit_event update_case_status get_execution_request_by_id
    get_execution_attempt_count found set_execution_request_status
    map_provider_response_to_execution_status map_execution_status_to_case_status
    store_execution_attempt run_stripe_refund_attempt stripe_response caught must_be_pending
    execute_with_stripe_provider found_payment get_latest_stripe_test_payment
    update_execution_request_provider_and_status execute_test_mode_refund if_configured
    configure_stripe_client is_stripe_configured get_stripe_secret_key strip
    build_stripe_refund_fallback_response classify_stripe_error extract_stripe_error_code pure raise
    gets row modify raise_if insert draw_uuid8 now call_tick ◌>>=◌ demo show_ℕ latest_of
refunds = refl

execute_with_stripe_provider-Refunded_example :
    Refunded unreachable "EXE-1"
      (count (is_of "EXE-1") payable.execution_attempts)
      "live"
      unrefunded
      refunded.execution_requests
      refunded.execution_attempts
execute_with_stripe_provider-Refunded_example =
    execute_with_stripe_provider-Refunded unreachable "EXE-1" "live" payable refunded unrefunded
      refunds
