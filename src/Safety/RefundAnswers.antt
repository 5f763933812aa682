-- ===== src/Safety/RefundAnswers.antt =====
-- src/execution/execution_service.py and src/providers/stripe_adapter.py: the status that each answer
-- of Stripe to a refund leads to.
use billing_recovery_executi.Common.{
  ℕ, Bool, true, false, not, String, none, some, ◌==◌, ◌≡◌, ◌≢◌, refl, sym, ◌∙◌, arith, eq_iff,
  ne_of_test, if◌then◌else◌,
}
use billing_recovery_executi.Database.{
  ExecutionRequest, StripeTestPayment, Env, ApiResult, returned, raised, Refund, call_tick, pure,
  ◌>>=◌,
}
use billing_recovery_executi.Providers.Types.{ProviderResponse}
use billing_recovery_executi.Providers.Stripe.{
  python_error, if_configured, configure_stripe_client, is_stripe_configured, get_stripe_secret_key,
}
use billing_recovery_executi.Providers.StripeRefunds.{
  refund_params, response_of_refund, execute_test_mode_refund, build_mock_refund_response,
}
use billing_recovery_executi.Providers.Answers.{
  status_of_error, build_stripe_refund_fallback_response-status,
}
use billing_recovery_executi.Execution.Statuses.{map_provider_response_to_execution_status}
use billing_recovery_executi.Execution.Attempts.{caught, stripe_response}
use billing_recovery_executi.Rules.DependencyModes.{
  dependency_mode_forced_mock, dependency_mode_live,
}
use billing_recovery_executi.Rules.ExecutionRules.{succeeded, needs_manual_review}
use billing_recovery_executi.Effects.Respects.{Respects-call_tick}
use billing_recovery_executi.Safety.Triple.{
  Condition, Requests, Attempts, Triple, Triple-bind, Triple-quiet, Triple-pure, Triple-if,
  Quiet-IsStable,
}

-- The status of a request after a refund that Stripe answered so.
abbrev pub status_of_call : ApiResult Refund → String
status_of_call (returned refund) = succeeded
status_of_call (raised error) = status_of_error error.class

-- Stripe was asked for a refund, and answered so that the request has the status.
abbrev pub IsAskedFor : Env → String → Type 0
IsAskedFor env status =
    (t : ℕ) × (request : ExecutionRequest) × (payment : StripeTestPayment) × (status
      ≡ status_of_call (env.refund_create t (refund_params request payment)))

-- The status of a request after a refund in a dependency mode.
pub record IsRefundAnswer (env : Env) (mode status : String) : Type 0 where
  pub on_forced : mode ≡ dependency_mode_forced_mock → status ≡ succeeded
  pub on_live :
      mode ≡ dependency_mode_live
      → is_stripe_configured (get_stripe_secret_key env) ≡ true
      → IsAskedFor env status
  pub on_unconfigured :
      mode ≡ dependency_mode_live
      → is_stripe_configured (get_stripe_secret_key env) ≡ false
      → status ≡ needs_manual_review
  pub on_unsupported :
      mode ≢ dependency_mode_forced_mock
      → mode ≢ dependency_mode_live
      → status ≡ needs_manual_review

modes_differ : dependency_mode_forced_mock ≢ dependency_mode_live
modes_differ = ne_of_test _ _ refl

caught-status :
    (env : Env) (request : ExecutionRequest) (payment : StripeTestPayment)
    (answer : ApiResult Refund)
    → map_provider_response_to_execution_status
        (caught env request (response_of_refund request payment answer))
      ≡ status_of_call answer
unfolding caught map_provider_response_to_execution_status
caught-status env request payment (returned refund) = refl
caught-status env request payment (raised error) =
    (build_stripe_refund_fallback_response-status request error).0

caught_python-status :
    (env : Env) (request : ExecutionRequest) (message : String)
    → map_provider_response_to_execution_status
        (caught env request (raised (python_error "ValueError" message)))
      ≡ needs_manual_review
unfolding caught
caught_python-status env request message =
    (build_stripe_refund_fallback_response-status request (python_error "ValueError" message)).0

forced-IsRefundAnswer :
    (env : Env) (mode : String) (request : ExecutionRequest)
    → (mode == dependency_mode_forced_mock) ≡ true
    → IsRefundAnswer env mode
        (map_provider_response_to_execution_status (build_mock_refund_response request))
unfolding build_mock_refund_response map_provider_response_to_execution_status
forced-IsRefundAnswer env mode request h =
    let forced : mode ≡ dependency_mode_forced_mock = (eq_iff _ _).0 h in
    record {
      on_forced = λ e. refl;
      on_live = λ e c. absurd (modes_differ (sym forced ∙ e));
      on_unconfigured = λ e c. absurd (modes_differ (sym forced ∙ e));
      on_unsupported = λ e c. absurd (e forced);
    }

unsupported-IsRefundAnswer :
    (env : Env) (mode : String) (request : ExecutionRequest) (message : String)
    → (mode == dependency_mode_forced_mock) ≡ false
    → (mode == dependency_mode_live) ≡ false
    → IsRefundAnswer env mode (
        map_provider_response_to_execution_status
          (caught env request (raised (python_error "ValueError" message))))
unfolding caught
unsupported-IsRefundAnswer env mode request message h k =
    let not_forced : mode ≢ dependency_mode_forced_mock =
      λ e. ground (arith, eq_iff mode dependency_mode_forced_mock) in
    let not_live : mode ≢ dependency_mode_live =
      λ e. ground (arith, eq_iff mode dependency_mode_live) in
    record {
      on_forced = λ e. absurd (not_forced e);
      on_live = λ e c. absurd (not_live e);
      on_unconfigured = λ e c. absurd (not_live e);
      on_unsupported = λ _ _. caught_python-status env request message;
    }

live-IsRefundAnswer :
    (env : Env) (mode : String) (b : Bool)
    → mode ≡ dependency_mode_live
    → is_stripe_configured (get_stripe_secret_key env) ≡ b
    → (status : String) → (b ≡ true → IsAskedFor env status)
    → (b ≡ false → status ≡ needs_manual_review)
    → IsRefundAnswer env mode status
live-IsRefundAnswer env mode b live e status asked unconfigured = record {
  on_forced = λ f. absurd (modes_differ (sym f ∙ live));
  on_live = λ _ c. asked (sym e ∙ c);
  on_unconfigured = λ _ c. unconfigured (sym e ∙ c);
  on_unsupported = λ _ not_live. absurd (not_live live);
}

module _ {p e : Condition} (weaken : (rs : Requests) (ats : Attempts) → p rs ats → e rs ats)
    (env : Env) (request : ExecutionRequest) (payment : StripeTestPayment) (mode : String) where
  abbrev Fits : ApiResult ProviderResponse → Condition
  Fits answer rs ats =
      p rs ats
      × IsRefundAnswer env mode
          (map_provider_response_to_execution_status (caught env request answer))

  ask-Triple :
      (b : Bool) (message : String)
      → mode ≡ dependency_mode_live
      → is_stripe_configured (get_stripe_secret_key env) ≡ b
      → Triple p
          (if_configured (if not b then some (python_error "ValueError" message) else none) (do
            tick ← call_tick env
            pure (
                response_of_refund request payment
                  (env.refund_create tick (refund_params request payment)))))
          Fits
          e
  unfolding if_configured
  ask-Triple true message live c =
      Triple-bind _ _ (Triple-quiet weaken (Respects-call_tick Quiet-IsStable env)) λ tick.
        Triple-pure _ λ rs ats h. (
          h,
          live-IsRefundAnswer env mode true live c _
              (λ _. (tick, request, payment, caught-status env request payment _)) (λ x. absurd cc),
        )
  ask-Triple false message live c = Triple-pure _ λ rs ats h. (
    h,
    live-IsRefundAnswer env mode false live c _ (λ x. absurd cc)
        (λ _. caught_python-status env request message),
  )

  refund-Triple :
      mode ≡ dependency_mode_live → Triple p (execute_test_mode_refund env request payment) Fits e
  unfolding execute_test_mode_refund configure_stripe_client
  refund-Triple live = ask-Triple _ _ live refl

  pub stripe_response-Triple :
      Triple p
        (stripe_response env request payment mode)
        (λ a rs ats.
          p rs ats × IsRefundAnswer env mode (map_provider_response_to_execution_status a))
        e
  unfolding stripe_response
  stripe_response-Triple =
      Triple-if (mode == dependency_mode_forced_mock)
        (λ h. Triple-pure _ λ rs ats k. (k, forced-IsRefundAnswer env mode request h))
        (λ h.
          Triple-if (mode == dependency_mode_live)
            (λ live.
              Triple-bind _ _ (refund-Triple ((eq_iff _ _).0 live))
                λ answer. Triple-pure _ λ rs ats k. k)
            (λ unsupported.
              Triple-pure _
                λ rs ats k. (k, unsupported-IsRefundAnswer env mode request _ h unsupported)))
