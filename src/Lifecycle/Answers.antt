-- ===== src/Lifecycle/Answers.antt =====
-- src/providers/mock_billing_adapter.py and src/providers/stripe_adapter.py: the status and the
-- type of the error that an adapter answers to a write.
use billing_recovery_executi.Common.{
  String, Bool, true, false, Option, none, some, ◌==◌, ◌≢◌, inl, inr, refl, arith, ne_of_test,
  if◌then◌else◌,
}
use billing_recovery_executi.Database.{
  Database, ExecutionRequest, StripeTestPayment, Env, PyException, ErrorClass, rate_limit,
  api_connection, api, invalid_request, authentication, permission, other, ApiResult, returned,
  raised, Refund, pure, ◌>>=◌, call_tick,
}
use billing_recovery_executi.Providers.Types.{ProviderResponse}
use billing_recovery_executi.Providers.Mock.{execute_billing_operation, mock_failure_response}
use billing_recovery_executi.Providers.Stripe.{
  configure_stripe_client, if_configured, classify_stripe_error,
}
use billing_recovery_executi.Providers.StripeRefunds.{
  refund_params, execute_test_mode_refund, response_of_refund, build_mock_refund_response,
  build_stripe_refund_fallback_response,
}
use billing_recovery_executi.Execution.Statuses.{
  status_of_answer, map_provider_response_to_execution_status,
}
use billing_recovery_executi.Execution.Attempts.{stripe_response, caught}
use billing_recovery_executi.Rules.ExecutionRules.{
  provider_succeeded, provider_failed, provider_timeout, mock_success, mock_transient_failure,
  mock_permanent_failure, mock_timeout,
}
use billing_recovery_executi.Rules.DependencyModes.{
  dependency_mode_forced_mock, dependency_mode_live,
}
use billing_recovery_executi.Effects.Respects.{Respects-draw_uuid10, Respects-call_tick, IsStable}
use billing_recovery_executi.Effects.Spec.{
  Condition, Spec, Spec-bind, Spec-keeps, Spec-pure, Spec-if,
}
use billing_recovery_executi.Lifecycle.Steps.{IsAnswered}
use billing_recovery_executi.Lifecycle.Writes.{IsClassified}

abbrev Fits : ProviderResponse → Type 0
Fits a = IsClassified a.provider_status a.error_type

-- Every answer leads to one of the four statuses.
pub map_provider_response_to_execution_status-IsAnswered :
    (a : ProviderResponse) → IsAnswered (map_provider_response_to_execution_status a)
unfolding map_provider_response_to_execution_status status_of_answer
map_provider_response_to_execution_status-IsAnswered a = ground arith

if-Fits : (b : Bool) (r q : ProviderResponse) → Fits r → Fits q → Fits (if b then r else q)
if-Fits true r q h k = h
if-Fits false r q h k = k

mock_failure_response-Fits : (outcome : String) → Fits (mock_failure_response outcome)
unfolding mock_failure_response
mock_failure_response-Fits o =
    let failed : provider_failed ≢ provider_succeeded = ne_of_test _ _ refl in
    let late : provider_timeout ≢ provider_succeeded = ne_of_test _ _ refl in
    if-Fits (o == mock_transient_failure) _ _ (inr (failed, inl refl)) (
      if-Fits (o == mock_permanent_failure) _ _ (inr (failed, inr (inl refl))) (
        if-Fits (o == mock_timeout) _ _ (inr (late, inr (inr refl)))
          (inr (failed, inr (inl refl)))))

fallback-Fits :
    (r : ExecutionRequest) (error : PyException)
    → Fits (build_stripe_refund_fallback_response r error)
unfolding build_stripe_refund_fallback_response classify_stripe_error
fallback-Fits r error = go error.class
  where
    failed : provider_failed ≢ provider_succeeded
    failed = ne_of_test _ _ refl

    go :
        (k : ErrorClass)
        → Fits (build_stripe_refund_fallback_response r (record error { class = k }))
    go rate_limit = inr (failed, inl refl)
    go api_connection = inr (failed, inl refl)
    go api = inr (failed, inl refl)
    go invalid_request = inr (failed, inr (inl refl))
    go authentication = inr (failed, inr (inl refl))
    go permission = inr (failed, inr (inl refl))
    go other = inr (ne_of_test provider_timeout provider_succeeded refl, inr (inr refl))

caught-Fits :
    (env : Env) (r : ExecutionRequest) (p : StripeTestPayment) (answer : ApiResult Refund)
    → Fits (caught env r (response_of_refund r p answer))
unfolding caught
caught-Fits env r p (returned refund) = inl (refl, refl)
caught-Fits env r p (raised error) = fallback-Fits r error

mock_refund-Fits : (r : ExecutionRequest) → Fits (build_mock_refund_response r)
unfolding build_mock_refund_response
mock_refund-Fits r = inl (refl, refl)

module _ {p : Condition} {e : Condition} (env : Env) (weaken : (db : Database) → p db → e db)
    (stable : IsStable (λ a b. p a → p b)) where
  pub execute_billing_operation-Fits :
      (r : ExecutionRequest) (outcome : String)
      → Spec p (execute_billing_operation env r outcome) (λ a db. p db × Fits a) e
  unfolding execute_billing_operation
  execute_billing_operation-Fits r o =
      Spec-if (o == mock_success)
        (λ _.
          Spec-bind _ _ (Spec-keeps weaken (Respects-draw_uuid10 stable env))
            λ uuid. Spec-pure _ λ db h. (h, inl (refl, refl)))
        (λ _. Spec-pure _ λ db h. (h, mock_failure_response-Fits o))

  refund-Fits :
      (r : ExecutionRequest) (q : StripeTestPayment) (o : Option PyException)
      → Spec p
          (if_configured o (do
            tick ← call_tick env
            pure (response_of_refund r q (env.refund_create tick (refund_params r q)))))
          (λ a db. p db × Fits (caught env r a))
          e
  unfolding if_configured caught
  refund-Fits r q none = Spec-bind _ _ (Spec-keeps weaken (Respects-call_tick stable env)) λ tick.
      Spec-pure _ λ db h. (h, caught-Fits env r q (env.refund_create tick (refund_params r q)))
  refund-Fits r q (some error) = Spec-pure _ λ db h. (h, fallback-Fits r error)

  pub stripe_response-Fits :
      (r : ExecutionRequest) (q : StripeTestPayment) (mode : String)
      → Spec p (stripe_response env r q mode) (λ a db. p db × Fits a) e
  unfolding stripe_response execute_test_mode_refund
  stripe_response-Fits r q mode =
      Spec-if (mode == dependency_mode_forced_mock)
        (λ _. Spec-pure _ λ db h. (h, mock_refund-Fits r))
        (λ _.
          Spec-if (mode == dependency_mode_live)
            (λ _.
              Spec-bind _ _ (refund-Fits r q (configure_stripe_client env))
                λ a. Spec-pure _ λ db h. h)
            (λ _. Spec-pure _ λ db h. (h, fallback-Fits r _)))
