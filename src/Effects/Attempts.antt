-- ===== src/Effects/Attempts.antt =====
-- Provider attempts: they respect whatever the writes to the tables respect.
use billing_recovery_executi.Common.{ℕ, String, Option, none, some, false, ◌≡◌}
use billing_recovery_executi.Database.{
  Json, Database, ExecutionRequest, ExecutionAttempt, StripeTestPayment, Env,
}
use billing_recovery_executi.Providers.Types.{ProviderResponse}
use billing_recovery_executi.Providers.Mock.{execute_billing_operation}
use billing_recovery_executi.Providers.StripeRefunds.{execute_test_mode_refund}
use billing_recovery_executi.Providers.TestPayments.{get_latest_stripe_test_payment}
use billing_recovery_executi.Execution.Requests.{
  get_execution_request_by_id, get_execution_attempt_count, update_requests,
  set_execution_request_status, update_execution_request_provider_and_status,
}
use billing_recovery_executi.Execution.Attempts.{
  has_attempt, add_attempt, store_execution_attempt, run_provider_attempt, stripe_response,
  run_stripe_refund_attempt,
}
use billing_recovery_executi.Execution.Runs.{
  must_be_pending, found_payment, execute_with_stripe_provider, execute_with_mock_provider, give_up,
  retry_with_mock_provider,
}
use billing_recovery_executi.Effects.Respects.{
  Relation, Respects, respects_rules, Respects-pure, Respects-raise,
}
use billing_recovery_executi.Effects.Frame.{
  Frame, Updates, record_audit_event-Respects, update_case_status-Respects,
}
use billing_recovery_executi.Effects.Requests.{
  found-Respects, set_execution_request_status-Respects,
}

abbrev pub AddsAttempts : Relation → Type 0
AddsAttempts R =
    (a : ExecutionAttempt) (db : Database)
    → has_attempt a.attempt_id db ≡ false
    → R db (add_attempt a db)

module _ {R : Relation} (env : Env) (frame : Frame R) where
  pub execute_billing_operation-Respects :
      (r : ExecutionRequest) (outcome : String)
      → Respects R (execute_billing_operation env r outcome)
  unfolding execute_billing_operation
  execute_billing_operation-Respects r o = search (respects_rules, frame.stable) depth 40

  pub stripe_response-Respects :
      (r : ExecutionRequest) (p : StripeTestPayment) (mode : String)
      → Respects R (stripe_response env r p mode)
  unfolding stripe_response execute_test_mode_refund
  stripe_response-Respects r p m = search (respects_rules, frame.stable) depth 40

-- A relation that respects every update of a request.
pub record AllUpdates (R : Relation) : Type 0 where
  pub updates : Updates (λ _. Unit {0}) R
  pub providers :
      (request_id provider status : String) (at : ℕ) (db : Database)
      → R db (
          update_requests request_id
            (λ r. record r { provider = provider; status = status; updated_at = at })
            db)

module _ {R : Relation} (env : Env) (frame : Frame R) (all : AllUpdates R)
    (adds : AddsAttempts R) where
  set_status-Respects :
      (request_id status : String) (object_id : Option String)
      → Respects R (set_execution_request_status env request_id status object_id)
  set_status-Respects i s o = set_execution_request_status-Respects env frame all.updates i s o tt

  store_execution_attempt-Respects :
      (attempt_id request_id : String) (number : ℕ) (provider : String) (payload : Json)
      (response : ProviderResponse)
      → Respects R
          (store_execution_attempt env attempt_id request_id number provider payload response)
  unfolding store_execution_attempt
  store_execution_attempt-Respects a i n p j r =
      search (respects_rules, frame.stable, adds) depth 40

  pub run_provider_attempt-Respects :
      (r : ExecutionRequest) (outcome status case_status : String)
      → Respects R (run_provider_attempt env r outcome status case_status)
  unfolding run_provider_attempt get_execution_request_by_id get_execution_attempt_count
  run_provider_attempt-Respects r o s c =
      search
        (
          respects_rules,
          frame.stable,
          set_status-Respects,
          store_execution_attempt-Respects,
          execute_billing_operation-Respects env frame,
          record_audit_event-Respects env frame,
          update_case_status-Respects env frame,
        )
        depth 60

  set_provider-Respects :
      (request_id provider status : String)
      → Respects R (update_execution_request_provider_and_status env request_id provider status)
  unfolding update_execution_request_provider_and_status
  set_provider-Respects i p s = search (respects_rules, frame.stable, all.providers) depth 40

  pub run_stripe_refund_attempt-Respects :
      (r : ExecutionRequest) (p : StripeTestPayment) (mode : String)
      → Respects R (run_stripe_refund_attempt env r p mode)
  unfolding run_stripe_refund_attempt get_execution_request_by_id get_execution_attempt_count
  run_stripe_refund_attempt-Respects r p m =
      search
        (
          respects_rules,
          frame.stable,
          set_status-Respects,
          set_provider-Respects,
          store_execution_attempt-Respects,
          stripe_response-Respects env frame,
          record_audit_event-Respects env frame,
          update_case_status-Respects env frame,
        )
        depth 60

  must_be_pending-Respects : (r : ExecutionRequest) → Respects R (must_be_pending r)
  unfolding must_be_pending
  must_be_pending-Respects r = search (respects_rules, frame.stable) depth 10

  found_payment-Respects : (o : Option StripeTestPayment) → Respects R (found_payment o)
  unfolding found_payment
  found_payment-Respects none = Respects-raise frame.stable _
  found_payment-Respects (some p) = Respects-pure frame.stable p

  pub execute_with_mock_provider-Respects :
      (request_id outcome : String) → Respects R (execute_with_mock_provider env request_id outcome)
  unfolding execute_with_mock_provider get_execution_request_by_id
  execute_with_mock_provider-Respects i o =
      search
        (
          respects_rules,
          frame.stable,
          found-Respects frame,
          must_be_pending-Respects,
          run_provider_attempt-Respects,
        )
        depth 40

  pub execute_with_stripe_provider-Respects :
      (request_id mode : String) → Respects R (execute_with_stripe_provider env request_id mode)
  unfolding execute_with_stripe_provider get_execution_request_by_id get_latest_stripe_test_payment
  execute_with_stripe_provider-Respects i m =
      search
        (
          respects_rules,
          frame.stable,
          found-Respects frame,
          must_be_pending-Respects,
          found_payment-Respects,
          run_stripe_refund_attempt-Respects,
        )
        depth 40

  give_up-Respects :
      (request_id : String) (r : ExecutionRequest) → Respects R (give_up env request_id r)
  unfolding give_up get_execution_request_by_id
  give_up-Respects i r =
      search
        (respects_rules, frame.stable, set_status-Respects, update_case_status-Respects env frame)
        depth 40

  pub retry_with_mock_provider-Respects :
      (request_id outcome : String) → Respects R (retry_with_mock_provider env request_id outcome)
  unfolding retry_with_mock_provider get_execution_request_by_id get_execution_attempt_count
  retry_with_mock_provider-Respects i o =
      search
        (
          respects_rules,
          frame.stable,
          found-Respects frame,
          run_provider_attempt-Respects,
          give_up-Respects,
        )
        depth 40
