-- ===== src/Providers/Mock.antt =====
-- src/providers/mock_billing_adapter.py: simulated writes and lookups.
use billing_recovery_executi.Common.{
  String, Bool, true, false, Option, none, some, [], ◌∷◌, ◌==◌, is_in, is_text, truthy, or_else,
  lower, if◌then◌else◌, fstring,
}
use billing_recovery_executi.Database.{
  text, int, bool, Json, ExecutionRequest, Env, Action, pure, draw_uuid10, ◌>>=◌,
}
use billing_recovery_executi.Providers.Types.{ProviderResponse, ProviderLookup}
use billing_recovery_executi.Rules.ExecutionRules.{
  error_permanent, error_transient, error_unknown, mock_permanent_failure, mock_success,
  mock_timeout, mock_transient_failure, provider_failed, provider_not_found, provider_succeeded,
  provider_timeout, provider_unknown,
}

abbrev failure : String → String → String → String → Json → ProviderResponse
failure status error_type code message payload = record {
  provider_status = status;
  provider_object_id = none;
  error_type = some error_type;
  error_code = some code;
  error_message = some message;
  response_payload = payload;
}

abbrev mock_success_response : ExecutionRequest → String → ProviderResponse
mock_success_response request object_id = record {
  provider_status = provider_succeeded;
  provider_object_id = some object_id;
  error_type = none;
  error_code = none;
  error_message = none;
  response_payload =
      ("id", text object_id)
      ∷ ("status", text "succeeded")
      ∷ ("operation_type", text request.operation_type)
      ∷ ("amount_cents", int request.approved_amount_cents)
      ∷ ("currency", text request.currency)
      ∷ ("idempotency_key", text request.idempotency_key)
      ∷ [];
}

abbrev failure_payload : String → String → Bool → Json
failure_payload status reason retryable =
    ("status", text status) ∷ ("reason", text reason) ∷ ("retryable", bool retryable) ∷ []

-- The branches of `execute_billing_operation` but the first.
unfoldable pub mock_failure_response : String → ProviderResponse
mock_failure_response outcome =
    if outcome == mock_transient_failure
    then failure provider_failed error_transient "provider_temporary_unavailable"
        "Mock provider is temporarily unavailable. This failure may be retried later."
        (failure_payload "failed" "temporary_unavailable" true)
    else if outcome == mock_permanent_failure
    then failure provider_failed error_permanent "invalid_billing_target"
        "Mock provider rejected the request because the billing target is invalid."
        (failure_payload "failed" "invalid_billing_target" false)
    else if outcome == mock_timeout
    then failure provider_timeout error_unknown "provider_timeout"
        "Mock provider timed out. The external result is unknown and requires reconciliation or manual review."
        (failure_payload "unknown" "timeout" false)
    else failure provider_failed error_permanent "unsupported_mock_outcome"
        (fstring ("Unsupported mock outcome: " ∷ outcome ∷ []))
        (failure_payload "failed" "unsupported_mock_outcome" false)

unfoldable pub execute_billing_operation : Env → ExecutionRequest → String → Action ProviderResponse
unfolding mock_failure_response
execute_billing_operation env request simulated_outcome =
    if simulated_outcome == mock_success
    then (do
      uuid ← draw_uuid10 env
      pure (mock_success_response request (fstring ("mock_refund_" ∷ uuid ∷ []))))
    else pure (mock_failure_response simulated_outcome)

abbrev mock_lookup : String → Option String → Bool → ProviderLookup
mock_lookup status object_id simulated_override = record {
  provider_status = status;
  provider_object_id = object_id;
  lookup_payload =
      ("status", text status)
      ∷ ("source", text "mock_provider_lookup")
      ∷ ("simulated_override", bool simulated_override)
      ∷ [];
}

unfoldable pub lookup_provider_state : ExecutionRequest → Option String → ProviderLookup
lookup_provider_state request simulated =
    if is_text simulated provider_succeeded
    then mock_lookup provider_succeeded
        (some (
          or_else request.provider_object_id
            (fstring ("mock_recovered_" ∷ lower request.execution_request_id ∷ []))))
        true
    else if is_text simulated provider_not_found
    then mock_lookup provider_not_found none true
    else if is_text simulated provider_unknown
    then mock_lookup provider_unknown none true
    else if truthy request.provider_object_id
    then mock_lookup provider_succeeded request.provider_object_id false
    else if is_in request.status ("failed_transient" ∷ "failed_permanent" ∷ [])
    then mock_lookup provider_not_found none false
    else if request.status == "needs_manual_review"
    then mock_lookup provider_unknown none false
    else mock_lookup provider_unknown none false
