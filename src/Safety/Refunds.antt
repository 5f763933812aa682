-- ===== src/Safety/Refunds.antt =====
-- src/execution/execution_service.py and src/providers/stripe_adapter.py: what the call that refunds
-- with Stripe returns and leaves in the tables, where it returns, by what Stripe answers.
use mathlib.Core.Path.{subst}
use billing_recovery_executi.Common.{ℕ, ◌+◌, String, Option, none, some, ◌≡◌, refl, sym, ◌∙◌}
use billing_recovery_executi.Table.{fetch_one, count}
use billing_recovery_executi.Database.{
  Database, ExecutionRequest, StripeTestPayment, Env, ok, row, ◌>>=◌, ◌>>◌,
}
use billing_recovery_executi.Providers.Types.{ProviderResponse}
use billing_recovery_executi.Providers.TestPayments.{get_latest_stripe_test_payment}
use billing_recovery_executi.Execution.Requests.{
  has_id, is_of, get_execution_request_by_id, get_execution_attempt_count,
  set_execution_request_status, update_execution_request_provider_and_status,
}
use billing_recovery_executi.Execution.Statuses.{map_provider_response_to_execution_status}
use billing_recovery_executi.Execution.Attempts.{run_stripe_refund_attempt}
use billing_recovery_executi.Execution.Runs.{
  must_be_pending, found_payment, execute_with_stripe_provider,
}
use billing_recovery_executi.Cases.{update_case_status}
use billing_recovery_executi.Effects.Respects.{Respects-draw_uuid8, Respects-now, Respects-gets}
use billing_recovery_executi.Effects.Frame.{
  record_audit_event-Respects, update_case_status-Respects,
}
use billing_recovery_executi.Safety.Triple.{
  Condition, Triple, Triple-bind, Triple-quiet, Triple-gets, Triple-row, Triple-modify,
  Triple-raise_if, Triple-pre, Triple-fact, Triple-post, Quiet-Frame, Quiet-IsStable,
}
use billing_recovery_executi.Safety.Runs.{Triple-found, fetched}
use billing_recovery_executi.Safety.Attempted.{Used, Anything, settle-Shows, store-Used}
use billing_recovery_executi.Safety.Outcomes.{returned_by}
use billing_recovery_executi.Safety.RefundAnswers.{IsRefundAnswer, stripe_response-Triple}

module _ (env : Env) (i : String) (n : ℕ) (mode : String) where
  -- The stored request, with the answer to the refund.
  abbrev pub Refunded : ExecutionRequest → Condition
  Refunded r rs ats =
      (fetch_one (has_id i) rs ≡ some r) × IsRefundAnswer env mode r.status × Used i (n + 1) rs ats

  begin-Used :
      (provider st : String)
      → Triple
          (Used i n)
          (update_execution_request_provider_and_status env i provider st)
          (λ _. Used i n)
          Anything
  unfolding update_execution_request_provider_and_status
  begin-Used provider st =
      Triple-bind _ _ (Triple-quiet (λ rs ats h. tt) (Respects-now Quiet-IsStable env))
        λ at. Triple-modify _ λ db h. h

  found_payment-Used :
      (o : Option StripeTestPayment) → Triple (Used i n) (found_payment o) (λ _. Used i n) Anything
  unfolding found_payment
  found_payment-Used none = record { at = λ db h. tt }
  found_payment-Used (some payment) = record { at = λ db h. h }

  -- The end of a refund, with an answer that fits.
  settled-Refunded :
      (response : ProviderResponse) (case_id case_status : String)
      → IsRefundAnswer env mode (map_provider_response_to_execution_status response)
      → Triple
          (Used i (n + 1))
          (do
            set_execution_request_status env i
                (map_provider_response_to_execution_status response)
                response.provider_object_id
            update_case_status env case_id case_status
            updated ← get_execution_request_by_id i
            row updated)
          Refunded
          Anything
  settled-Refunded response case_id case_status fits =
      Triple-post _ (settle-Shows env i (n + 1) _ response.provider_object_id _ _)
        λ r rs ats h. (h.0, subst (IsRefundAnswer env mode) (sym h.1) fits, h.2)

run_stripe_refund_attempt-Refunded :
    (env : Env) (first : ExecutionRequest) (n : ℕ) (payment : StripeTestPayment) (mode : String)
    → Triple
        (Used first.execution_request_id n)
        (run_stripe_refund_attempt env first payment mode)
        (Refunded env first.execution_request_id n mode)
        Anything
unfolding run_stripe_refund_attempt get_execution_request_by_id get_execution_attempt_count
run_stripe_refund_attempt-Refunded env first n payment mode =
    let i = first.execution_request_id in
    Triple-bind _ _ (begin-Used env i n mode _ _) λ _.
      Triple-bind _ _
        (Triple-quiet (λ rs ats h. tt) (update_case_status-Respects env Quiet-Frame _ _))
        λ _.
          Triple-bind _ _ (Triple-gets (λ rs ats h. tt) (λ rs ats. fetch_one (has_id i) rs))
            λ found.
              Triple-bind _ _ (Triple-gets (λ rs ats h. tt) (λ rs ats. count (is_of i) ats))
                λ before.
                  Triple-bind _ _
                    (Triple-quiet (λ rs ats h. tt) (Respects-draw_uuid8 Quiet-IsStable env))
                    λ uuid. Triple-bind _ _ (Triple-row (λ rs ats h. tt) found) λ request.
                      Triple-bind _ _
                        (stripe_response-Triple (λ rs ats h. tt) env request payment mode)
                        λ response.
                          Triple-pre
                            {p' = λ rs ats.
                              Used i n rs ats
                              × IsRefundAnswer env mode
                                  (map_provider_response_to_execution_status response)}
                            (λ rs ats h. (h.0.0.0.0, h.1))
                            (Triple-fact λ fits.
                              Triple-bind _ _ (store-Used env i n _ _ _ _ response) λ _.
                                Triple-bind _ _
                                  (Triple-quiet (λ rs ats h. tt)
                                    (record_audit_event-Respects env Quiet-Frame _ _ _ _ _ _ _))
                                  λ _. settled-Refunded env i n mode response _ _ fits)

module _ (env : Env) (i : String) (n : ℕ) (mode : String) where
  own-Triple :
      (r : ExecutionRequest) (payment : StripeTestPayment)
      → Triple
          (λ rs ats. Used i n rs ats × (r.execution_request_id ≡ i))
          (run_stripe_refund_attempt env r payment mode)
          (Refunded env i n mode)
          Anything
  own-Triple r payment = Triple-fact λ own.
      subst
        (λ j.
          Triple (Used j n) (run_stripe_refund_attempt env r payment mode) (Refunded env j n mode)
            Anything)
        own (run_stripe_refund_attempt-Refunded env r n payment mode)

  execute_with_stripe_provider-Triple :
      Triple (Used i n) (execute_with_stripe_provider env i mode) (Refunded env i n mode) Anything
  unfolding execute_with_stripe_provider get_execution_request_by_id must_be_pending
      get_latest_stripe_test_payment
  execute_with_stripe_provider-Triple =
      Triple-bind _ _ (Triple-gets (λ rs ats h. tt) (λ rs ats. fetch_one (has_id i) rs)) λ read.
        Triple-bind _ _ (Triple-found (λ rs ats h. tt) read) λ request.
          Triple-pre {p' = λ rs ats. Used i n rs ats × (request.execution_request_id ≡ i)}
            (λ rs ats h. (h.0.0, fetched i rs request (sym h.0.1 ∙ h.1)))
            (Triple-fact λ own. Triple-bind _ _ (Triple-raise_if (λ rs ats h. tt) _ _) λ _.
              Triple-bind _ _ (Triple-quiet (λ rs ats h. tt) (Respects-gets Quiet-IsStable _))
                λ latest.
                  Triple-bind _ _
                    (Triple-pre (λ rs ats h. h.0) (found_payment-Used env i n mode latest))
                    λ payment. Triple-pre (λ rs ats h. (h, own)) (own-Triple request payment))

-- If execution with Stripe returns a request, that is the request stored under the identifier and one
-- more attempt of it is stored. Its status fits the mode. Forced mock: succeeded. Live, with a test
-- key configured: the answer of Stripe to a refund, where a rate limit, a connection or an API error
-- gives failed_transient, an invalid request, an authentication or a permission error
-- failed_permanent, any other exception needs_manual_review, and only a refund that is returned
-- succeeded. Live without such a key, and any other mode: needs_manual_review.
pub execute_with_stripe_provider-Refunded :
    (env : Env) (id mode : String) (db next : Database) (r : ExecutionRequest)
    → execute_with_stripe_provider env id mode db ≡ (ok r, next)
    → Refunded env id
        (count (is_of id) db.execution_attempts)
        mode
        r
        next.execution_requests
        next.execution_attempts
execute_with_stripe_provider-Refunded env id mode db next r e =
    returned_by _ _ _ db next r (execute_with_stripe_provider-Triple env id _ mode) refl e
