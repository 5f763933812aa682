-- ===== src/Providers/StripeRefunds.antt =====
-- src/providers/stripe_adapter.py: refunds, their fallbacks and their lookups.
use billing_recovery_executi.Common.{
  String, not, Option, none, some, [], ◌∷◌, ◌==◌, is_in, truthy, or_else, text_or, lower, upper,
  if◌then◌else◌, fstring,
}
use billing_recovery_executi.Database.{
  text, int, bool, optional, ExecutionRequest, StripeTestPayment, Env, PyException, ApiResult,
  returned, raised, Refund, RefundParams, Action, pure, call_tick, ◌>>=◌,
}
use billing_recovery_executi.Providers.Types.{ProviderResponse, ProviderLookup}
use billing_recovery_executi.Providers.Stripe.{
  python_error, configure_stripe_client, if_configured, classify_stripe_error,
  extract_stripe_error_code,
}
use billing_recovery_executi.Rules.ExecutionRules.{
  error_permanent, error_transient, provider_failed, provider_succeeded, provider_timeout,
  provider_unknown,
}

abbrev pub refund_params : ExecutionRequest → StripeTestPayment → RefundParams
refund_params request payment = record {
  payment_intent = payment.payment_intent_id;
  amount = request.approved_amount_cents;
  metadata =
      ("case_id", text request.case_id)
      ∷ ("execution_request_id", text request.execution_request_id)
      ∷ ("approval_id", text request.approval_id)
      ∷ ("source", text "billing_recovery_execution_console")
      ∷ [];
  idempotency_key = request.idempotency_key;
}

abbrev pub response_of_refund :
    ExecutionRequest → StripeTestPayment → ApiResult Refund → ApiResult ProviderResponse
response_of_refund request payment (returned refund) = returned (record {
  provider_status = provider_succeeded;
  provider_object_id = some refund.id;
  error_type = none;
  error_code = none;
  error_message = none;
  response_payload =
      ("id", text refund.id)
      ∷ ("status", text refund.status)
      ∷ ("payment_intent", text payment.payment_intent_id)
      ∷ ("charge", optional refund.charge)
      ∷ ("amount_cents", int refund.amount)
      ∷ ("currency", text (upper refund.currency))
      ∷ ("idempotency_key", text request.idempotency_key)
      ∷ [];
})
response_of_refund request payment (raised error) = raised error

-- A raise is an answer here, since every caller catches it.
unfoldable pub execute_test_mode_refund :
    Env → ExecutionRequest → StripeTestPayment → Action (ApiResult ProviderResponse)
execute_test_mode_refund env request payment = if_configured (configure_stripe_client env) (do
  tick ← call_tick env
  pure
      (response_of_refund request payment (env.refund_create tick (refund_params request payment))))

unfoldable pub build_mock_refund_response : ExecutionRequest → ProviderResponse
build_mock_refund_response request =
    let object_id = fstring ("re_mock_" ∷ lower request.execution_request_id ∷ []) in
    record {
      provider_status = provider_succeeded;
      provider_object_id = some object_id;
      error_type = none;
      error_code = none;
      error_message = none;
      response_payload =
          ("id", text object_id)
          ∷ ("status", text "succeeded")
          ∷ ("payment_intent", text "mock_payment_intent")
          ∷ ("amount_cents", int request.approved_amount_cents)
          ∷ ("currency", text request.currency)
          ∷ ("idempotency_key", text request.idempotency_key)
          ∷ [];
    }

abbrev fallback_status : String → String
fallback_status error_type =
    if error_type == error_transient
    then provider_failed
    else if error_type == error_permanent
    then provider_failed
    else provider_timeout

unfoldable pub build_stripe_refund_fallback_response :
    ExecutionRequest → PyException → ProviderResponse
unfolding classify_stripe_error extract_stripe_error_code
build_stripe_refund_fallback_response request error =
    let error_code = extract_stripe_error_code error in
    let error_type = classify_stripe_error error in
    record {
      provider_status = fallback_status error_type;
      provider_object_id = none;
      error_type = some error_type;
      error_code = some error_code;
      error_message = some error.message;
      response_payload =
          ("status", text "failed_or_unknown")
          ∷ ("reason", text error_code)
          ∷ ("message", text error.message)
          ∷ ("retryable", bool (error_type == error_transient))
          ∷ ("idempotency_key", text request.idempotency_key)
          ∷ [];
    }

unfoldable pub map_stripe_refund_status_to_provider_status : String → String
map_stripe_refund_status_to_provider_status status =
    if status == "succeeded"
    then provider_succeeded
    else if is_in status ("failed" ∷ "canceled" ∷ [])
    then provider_failed
    else provider_unknown

abbrev lookup_of_refund : ApiResult Refund → ApiResult ProviderLookup
lookup_of_refund (returned refund) = returned (record {
  provider_status = map_stripe_refund_status_to_provider_status refund.status;
  provider_object_id = some refund.id;
  lookup_payload =
      ("id", text refund.id)
      ∷ ("status", text refund.status)
      ∷ ("payment_intent", optional refund.payment_intent)
      ∷ ("charge", optional refund.charge)
      ∷ ("amount_cents", int refund.amount)
      ∷ ("currency", text (upper refund.currency))
      ∷ ("source", text "stripe_refund_lookup")
      ∷ [];
})
lookup_of_refund (raised error) = raised error

-- The call of Stripe, with a client that is configured.
unfoldable pub retrieve_refund : Env → Option String → Action (ApiResult ProviderLookup)
retrieve_refund env refund_id =
    if not (truthy refund_id)
    then pure
        (raised (python_error "ValueError" "Stripe refund ID is missing from execution request."))
    else (do
      tick ← call_tick env
      pure (lookup_of_refund (env.refund_retrieve tick (text_or refund_id ""))))

unfoldable pub lookup_stripe_refund_state :
    Env → ExecutionRequest → Action (ApiResult ProviderLookup)
unfolding retrieve_refund
lookup_stripe_refund_state env request =
    if_configured (configure_stripe_client env) (retrieve_refund env request.provider_object_id)

unfoldable pub build_mock_stripe_refund_lookup : ExecutionRequest → ProviderLookup
build_mock_stripe_refund_lookup request =
    let object_id =
      or_else request.provider_object_id
        (fstring ("re_mock_lookup_" ∷ lower request.execution_request_id ∷ [])) in
    record {
      provider_status = provider_succeeded;
      provider_object_id = some object_id;
      lookup_payload =
          ("id", text object_id)
          ∷ ("status", text "succeeded")
          ∷ ("source", text "mock_stripe_refund_lookup")
          ∷ [];
    }

unfoldable pub build_stripe_refund_lookup_fallback : PyException → ProviderLookup
unfolding classify_stripe_error extract_stripe_error_code
build_stripe_refund_lookup_fallback error = record {
  provider_status = provider_unknown;
  provider_object_id = none;
  lookup_payload =
      ("status", text provider_unknown)
      ∷ ("source", text "stripe_refund_lookup_fallback")
      ∷ ("error_message", text error.message)
      ∷ ("error_code", text (extract_stripe_error_code error))
      ∷ ("error_type", text (classify_stripe_error error))
      ∷ [];
}
