-- ===== src/Providers/Answers.antt =====
-- The adapters' answers and the status that the execution service gives the request for them.
use billing_recovery_executi.Common.{String, none, ◌≡◌, refl}
use billing_recovery_executi.Database.{
  ExecutionRequest, PyException, rate_limit, api_connection, api, invalid_request, authentication,
  permission, other, ErrorClass,
}
use billing_recovery_executi.Providers.Stripe.{classify_stripe_error}
use billing_recovery_executi.Providers.StripeRefunds.{build_stripe_refund_fallback_response}
use billing_recovery_executi.Execution.Statuses.{map_provider_response_to_execution_status}
use billing_recovery_executi.Rules.ExecutionRules.{
  failed_transient, failed_permanent, needs_manual_review,
}

abbrev pub status_of_error : ErrorClass → String
status_of_error rate_limit = failed_transient
status_of_error api_connection = failed_transient
status_of_error api = failed_transient
status_of_error invalid_request = failed_permanent
status_of_error authentication = failed_permanent
status_of_error permission = failed_permanent
status_of_error other = needs_manual_review

-- The status of a request whose refund raises, and its provider object.
pub build_stripe_refund_fallback_response-status :
    (request : ExecutionRequest) (error : PyException)
    → (map_provider_response_to_execution_status
          (build_stripe_refund_fallback_response request error)
        ≡ status_of_error error.class)
      × ((build_stripe_refund_fallback_response request error).provider_object_id ≡ none)
unfolding map_provider_response_to_execution_status build_stripe_refund_fallback_response
    classify_stripe_error
build_stripe_refund_fallback_response-status request error = (go error.class, refl)
  where
    go :
        (k : ErrorClass)
        → map_provider_response_to_execution_status
            (build_stripe_refund_fallback_response request (record error { class = k }))
          ≡ status_of_error k
    go rate_limit = refl
    go api_connection = refl
    go api = refl
    go invalid_request = refl
    go authentication = refl
    go permission = refl
    go other = refl
