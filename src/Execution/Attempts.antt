-- ===== src/Execution/Attempts.antt =====
-- src/execution/execution_service.py: one attempt, with the mock provider or with Stripe.
use billing_recovery_executi.Common.{
  ℕ, ◌+◌, pos, String, Bool, none, some, [], ◌∷◌, ◌++◌, ◌==◌, if◌then◌else◌, fstring,
}
use billing_recovery_executi.Table.{exists}
use billing_recovery_executi.Database.{
  text, int, optional, Json, Database, ExecutionRequest, ExecutionAttempt, StripeTestPayment, Env,
  ApiResult, returned, raised, Action, pure, row, insert, draw_uuid8, now, ◌>>=◌, ◌>>◌,
}
use billing_recovery_executi.Audit.{record_audit_event}
use billing_recovery_executi.Cases.{update_case_status}
use billing_recovery_executi.Providers.Types.{ProviderResponse}
use billing_recovery_executi.Providers.Mock.{execute_billing_operation}
use billing_recovery_executi.Providers.Stripe.{python_error}
use billing_recovery_executi.Providers.StripeRefunds.{
  execute_test_mode_refund, build_mock_refund_response, build_stripe_refund_fallback_response,
}
use billing_recovery_executi.Execution.Requests.{
  get_execution_request_by_id, get_execution_attempt_count, set_execution_request_status,
  update_execution_request_provider_and_status,
}
use billing_recovery_executi.Execution.Statuses.{
  map_provider_response_to_execution_status, map_execution_status_to_case_status,
}
use billing_recovery_executi.Rules.ExecutionRules.{
  processing, case_status_processing, stripe_test_mode,
}
use billing_recovery_executi.Rules.DependencyModes.{
  dependency_mode_forced_mock, dependency_mode_live,
}

abbrev pub has_attempt : String → Database → Bool
has_attempt attempt_id db = exists (λ a. a.attempt_id == attempt_id) db.execution_attempts

abbrev pub add_attempt : ExecutionAttempt → Database → Database
add_attempt a db = record db { execution_attempts = db.execution_attempts ++ a ∷ [] }

module _ (env : Env) where
  unfoldable pub store_execution_attempt :
      (attempt_id request_id : String) (attempt_number : ℕ) (provider : String)
      → Json
      → ProviderResponse
      → Action (Unit {0})
  store_execution_attempt attempt_id request_id attempt_number provider payload response = do
    at ← now env
    let attempt : ExecutionAttempt = record {
      attempt_id = attempt_id;
      execution_request_id = request_id;
      attempt_number = attempt_number;
      provider = provider;
      request_payload = payload;
      response_payload = response.response_payload;
      provider_status = response.provider_status;
      error_type = response.error_type;
      error_code = response.error_code;
      error_message = response.error_message;
      started_at = at;
      finished_at = some at;
    }
    insert "execution_attempts.attempt_id" (has_attempt attempt_id) (add_attempt attempt)

  -- `_run_provider_attempt`
  unfoldable pub run_provider_attempt :
      ExecutionRequest
      → (simulated_outcome in_progress_status in_progress_case_status : String)
      → Action ExecutionRequest
  run_provider_attempt first simulated_outcome in_progress_status in_progress_case_status = do
    let request_id = first.execution_request_id
    set_execution_request_status env request_id in_progress_status none
    update_case_status env first.case_id in_progress_case_status
    found_request ← get_execution_request_by_id request_id
    attempts_before ← get_execution_attempt_count request_id
    let attempt_number = attempts_before + 1
    uuid ← draw_uuid8 env
    let attempt_id = fstring ("ATT-" ∷ uuid ∷ [])
    request ← row found_request
    let request_payload : Json =
        ("execution_request_id", text request.execution_request_id)
        ∷ ("operation_type", text request.operation_type)
        ∷ ("amount_cents", int request.approved_amount_cents)
        ∷ ("currency", text request.currency)
        ∷ ("idempotency_key", text request.idempotency_key)
        ∷ ("provider", text request.provider)
        ∷ ("simulated_outcome", text simulated_outcome)
        ∷ ("attempt_number", int (pos attempt_number))
        ∷ []
    response ← execute_billing_operation env request simulated_outcome
    let final_status = map_provider_response_to_execution_status response
    let final_case_status = map_execution_status_to_case_status final_status
    store_execution_attempt attempt_id request_id attempt_number request.provider request_payload
        response
    record_audit_event env (some request.case_id) "execution_attempt" attempt_id
        "provider_execution_attempt_recorded" "provider" request.provider
        (("execution_request_id", text request_id)
          ∷ ("attempt_number", int (pos attempt_number))
          ∷ ("simulated_outcome", text simulated_outcome)
          ∷ ("provider_status", text response.provider_status)
          ∷ ("error_type", optional response.error_type)
          ∷ ("error_code", optional response.error_code)
          ∷ ("final_execution_status", text final_status)
          ∷ ("idempotency_key", text request.idempotency_key)
          ∷ [])
    set_execution_request_status env request_id final_status response.provider_object_id
    update_case_status env request.case_id final_case_status
    updated ← get_execution_request_by_id request_id
    row updated

  -- The `try` of the live mode.
  unfoldable pub caught : ExecutionRequest → ApiResult ProviderResponse → ProviderResponse
  caught request (returned response) = response
  caught request (raised error) = build_stripe_refund_fallback_response request error

  -- The branches of `_run_stripe_refund_attempt` on the dependency mode.
  unfoldable pub stripe_response :
      ExecutionRequest → StripeTestPayment → String → Action ProviderResponse
  unfolding caught
  stripe_response request payment dependency_mode =
      if dependency_mode == dependency_mode_forced_mock
      then pure (build_mock_refund_response request)
      else if dependency_mode == dependency_mode_live
      then (do answer ← execute_test_mode_refund env request payment; pure (caught request answer))
      else pure (
          build_stripe_refund_fallback_response request (
            python_error "ValueError"
              (fstring ("Unsupported Stripe dependency mode: " ∷ dependency_mode ∷ []))))

  -- `_run_stripe_refund_attempt`
  unfoldable pub run_stripe_refund_attempt :
      ExecutionRequest → StripeTestPayment → String → Action ExecutionRequest
  run_stripe_refund_attempt first payment dependency_mode = do
    let request_id = first.execution_request_id
    update_execution_request_provider_and_status env request_id stripe_test_mode processing
    update_case_status env first.case_id case_status_processing
    found_request ← get_execution_request_by_id request_id
    attempts_before ← get_execution_attempt_count request_id
    let attempt_number = attempts_before + 1
    uuid ← draw_uuid8 env
    let attempt_id = fstring ("ATT-" ∷ uuid ∷ [])
    request ← row found_request
    let request_payload : Json =
        ("execution_request_id", text request.execution_request_id)
        ∷ ("operation_type", text request.operation_type)
        ∷ ("amount_cents", int request.approved_amount_cents)
        ∷ ("currency", text request.currency)
        ∷ ("idempotency_key", text request.idempotency_key)
        ∷ ("provider", text stripe_test_mode)
        ∷ ("dependency_mode", text dependency_mode)
        ∷ ("payment_intent_id", text payment.payment_intent_id)
        ∷ ("charge_id", optional payment.charge_id)
        ∷ ("attempt_number", int (pos attempt_number))
        ∷ []
    response ← stripe_response request payment dependency_mode
    let final_status = map_provider_response_to_execution_status response
    let final_case_status = map_execution_status_to_case_status final_status
    store_execution_attempt attempt_id request_id attempt_number stripe_test_mode request_payload
        response
    record_audit_event env (some request.case_id) "execution_attempt" attempt_id
        "stripe_refund_attempt_recorded" "provider" stripe_test_mode
        (("execution_request_id", text request_id)
          ∷ ("attempt_number", int (pos attempt_number))
          ∷ ("dependency_mode", text dependency_mode)
          ∷ ("provider_status", text response.provider_status)
          ∷ ("provider_object_id", optional response.provider_object_id)
          ∷ ("error_type", optional response.error_type)
          ∷ ("error_code", optional response.error_code)
          ∷ ("final_execution_status", text final_status)
          ∷ ("idempotency_key", text request.idempotency_key)
          ∷ [])
    set_execution_request_status env request_id final_status response.provider_object_id
    update_case_status env request.case_id final_case_status
    updated ← get_execution_request_by_id request_id
    row updated
