-- ===== src/Safety/Attempts.antt =====
-- One attempt, with the mock provider or with Stripe, keeps the limits.
use billing_recovery_executi.Common.{ℕ, String, Option, none, ◌≢◌, refl, arith, ne_of_test}
use billing_recovery_executi.Table.{fetch_one, count}
use billing_recovery_executi.Database.{
  Json, ExecutionRequest, StripeTestPayment, Env, row, ◌>>=◌, ◌>>◌,
}
use billing_recovery_executi.Cases.{update_case_status}
use billing_recovery_executi.Providers.Types.{ProviderResponse}
use billing_recovery_executi.Execution.Requests.{
  has_id, is_of, get_execution_request_by_id, get_execution_attempt_count,
  set_execution_request_status, update_execution_request_provider_and_status, with_status,
}
use billing_recovery_executi.Execution.Statuses.{map_provider_response_to_execution_status}
use billing_recovery_executi.Execution.Attempts.{
  store_execution_attempt, run_provider_attempt, run_stripe_refund_attempt,
}
use billing_recovery_executi.Rules.ExecutionRules.{execution_pending, failed_transient, processing}
use billing_recovery_executi.Effects.Respects.{Respects-draw_uuid8, Respects-now}
use billing_recovery_executi.Effects.Frame.{
  record_audit_event-Respects, update_case_status-Respects,
}
use billing_recovery_executi.Effects.Attempts.{
  execute_billing_operation-Respects, stripe_response-Respects,
}
use billing_recovery_executi.Safety.Triple.{
  Requests, Attempts, Triple, Triple-bind, Triple-quiet, Triple-gets, Triple-row, Triple-modify,
  Triple-insert, Triple-pre, Triple-drop, Quiet-Frame, Quiet-IsStable,
}
use billing_recovery_executi.Safety.Tables.{IsSafe}
use billing_recovery_executi.Safety.Steps.{
  Ready, Busy, Opened, Stored, begin, finish, opened, store_at, status_of_answer-ne-pending,
}

-- A read of the environment and then an UPDATE.
module _ (env : Env) (i : String) where
  IsSafe-before :
      (st : String) (rs : Requests) (ats : Attempts) → Stored i st rs ats → IsSafe rs ats
  IsSafe-before st rs ats h = h.0

  begin-Triple :
      (st : String)
      → st ≢ execution_pending
      → Triple (Ready i) (set_execution_request_status env i st none) (λ _. Busy i st) IsSafe
  unfolding set_execution_request_status
  begin-Triple st np =
      Triple-bind _ _ (Triple-quiet (λ rs ats h. h.0) (Respects-now Quiet-IsStable env)) λ at.
        Triple-modify _ λ db h.
          begin i (with_status st none at) st (λ r. refl) (λ r. refl) np db.execution_requests
            db.execution_attempts h

  begin_stripe-Triple :
      (provider st : String)
      → st ≢ execution_pending
      → Triple
          (Ready i)
          (update_execution_request_provider_and_status env i provider st)
          (λ _. Busy i st)
          IsSafe
  unfolding update_execution_request_provider_and_status
  begin_stripe-Triple provider st np =
      Triple-bind _ _ (Triple-quiet (λ rs ats h. h.0) (Respects-now Quiet-IsStable env)) λ at.
        Triple-modify _ λ db h.
          begin i (λ r. record r { provider = provider; status = st; updated_at = at }) st
            (λ r. refl) (λ r. refl) np db.execution_requests db.execution_attempts h

  pub finish-Triple :
      (st : String) (object_id : Option String)
      → st ≢ execution_pending
      → Triple (Stored i st) (set_execution_request_status env i st object_id) (λ _. IsSafe) IsSafe
  unfolding set_execution_request_status
  finish-Triple st object_id np =
      Triple-bind _ _ (Triple-quiet (λ rs ats h. h.0) (Respects-now Quiet-IsStable env)) λ at.
        Triple-modify _ λ db h.
          finish i (with_status st object_id at) st (λ r. ground arith) (λ r. ground arith) np
            db.execution_requests db.execution_attempts h

  store-Triple :
      (attempt_id : String) (number : ℕ) (provider : String) (payload : Json)
      (response : ProviderResponse)
      → Triple
          (Opened i)
          (store_execution_attempt env attempt_id i number provider payload response)
          (λ _. Stored i (map_provider_response_to_execution_status response))
          IsSafe
  unfolding store_execution_attempt
  store-Triple attempt_id number provider payload response =
      Triple-bind _ _ (Triple-quiet (λ rs ats h. h.0) (Respects-now Quiet-IsStable env)) λ at.
        Triple-insert (λ rs ats h. h.0) _ _ _
          λ db h. store_at i _ response refl refl db.execution_requests db.execution_attempts h

  -- The end of both kinds of attempt.
  settle-Triple :
      (st : String) (object_id : Option String) (case_id case_status : String)
      → st ≢ execution_pending
      → Triple
          (Stored i st)
          (do
            set_execution_request_status env i st object_id
            update_case_status env case_id case_status
            updated ← get_execution_request_by_id i
            row updated)
          (λ _. IsSafe)
          IsSafe
  unfolding get_execution_request_by_id
  settle-Triple st object_id case_id case_status np =
      Triple-bind _ _ (finish-Triple st object_id np) λ _.
        Triple-bind _ _
          (Triple-quiet (λ rs ats h. h) (update_case_status-Respects env Quiet-Frame _ _))
          λ _.
            Triple-bind _ _ (Triple-gets (λ rs ats h. h) (λ rs ats. fetch_one (has_id i) rs))
              λ updated.
                Triple-pre (λ rs ats h. h.0) (Triple-drop _ (Triple-row (λ rs ats h. h) updated))

module _ (env : Env) (first : ExecutionRequest) where
  abbrev own_id : String
  own_id = first.execution_request_id

  pub run_provider_attempt-Triple :
      (outcome st case_status : String)
      → st ≢ execution_pending
      → st ≢ failed_transient
      → Triple
          (Ready own_id)
          (run_provider_attempt env first outcome st case_status)
          (λ _. IsSafe)
          IsSafe
  unfolding run_provider_attempt get_execution_request_by_id get_execution_attempt_count
      map_provider_response_to_execution_status
  run_provider_attempt-Triple outcome st case_status np nt =
      Triple-bind _ _ (begin-Triple env own_id st np) λ _.
        Triple-bind _ _
          (Triple-quiet (λ rs ats h. h.0.0) (update_case_status-Respects env Quiet-Frame _ _))
          λ _.
            Triple-bind _ _
              (Triple-gets (λ rs ats h. h.0.0) (λ rs ats. fetch_one (has_id own_id) rs))
              λ found.
                Triple-bind _ _
                  (Triple-gets (λ rs ats h. h.0.0.0) (λ rs ats. count (is_of own_id) ats))
                  λ before.
                    Triple-bind _ _
                      (Triple-quiet (λ rs ats h. h.0.0.0.0)
                        (Respects-draw_uuid8 Quiet-IsStable env))
                      λ uuid. Triple-bind _ _ (Triple-row (λ rs ats h. h.0.0.0.0) found) λ request.
                        Triple-pre
                          (λ rs ats h.
                            opened own_id st rs ats found request np nt h.0.0.0 h.0.0.1 h.1)
                          (Triple-bind _ _
                            (Triple-quiet (λ rs ats h. h.0)
                              (execute_billing_operation-Respects env Quiet-Frame request outcome))
                            λ response.
                              Triple-bind _ _ (store-Triple env own_id _ _ _ _ response) λ _.
                                Triple-bind _ _
                                  (Triple-quiet (λ rs ats h. h.0)
                                    (record_audit_event-Respects env Quiet-Frame _ _ _ _ _ _ _))
                                  λ _. settle-Triple env own_id _ response.provider_object_id _ _ (
                                    status_of_answer-ne-pending response.provider_status
                                      response.error_type))

  pub run_stripe_refund_attempt-Triple :
      (payment : StripeTestPayment) (mode : String)
      → Triple
          (Ready own_id)
          (run_stripe_refund_attempt env first payment mode)
          (λ _. IsSafe)
          IsSafe
  unfolding run_stripe_refund_attempt get_execution_request_by_id get_execution_attempt_count
      map_provider_response_to_execution_status
  run_stripe_refund_attempt-Triple payment mode =
      let np : processing ≢ execution_pending = ne_of_test processing execution_pending refl in
      let nt : processing ≢ failed_transient = ne_of_test processing failed_transient refl in
      Triple-bind _ _ (begin_stripe-Triple env own_id _ processing np) λ _.
        Triple-bind _ _
          (Triple-quiet (λ rs ats h. h.0.0) (update_case_status-Respects env Quiet-Frame _ _))
          λ _.
            Triple-bind _ _
              (Triple-gets (λ rs ats h. h.0.0) (λ rs ats. fetch_one (has_id own_id) rs))
              λ found.
                Triple-bind _ _
                  (Triple-gets (λ rs ats h. h.0.0.0) (λ rs ats. count (is_of own_id) ats))
                  λ before.
                    Triple-bind _ _
                      (Triple-quiet (λ rs ats h. h.0.0.0.0)
                        (Respects-draw_uuid8 Quiet-IsStable env))
                      λ uuid. Triple-bind _ _ (Triple-row (λ rs ats h. h.0.0.0.0) found) λ request.
                        Triple-pre
                          (λ rs ats h.
                            opened own_id processing rs ats found request np nt h.0.0.0 h.0.0.1 h.1)
                          (Triple-bind _ _
                            (Triple-quiet (λ rs ats h. h.0)
                              (stripe_response-Respects env Quiet-Frame request payment mode))
                            λ response.
                              Triple-bind _ _ (store-Triple env own_id _ _ _ _ response) λ _.
                                Triple-bind _ _
                                  (Triple-quiet (λ rs ats h. h.0)
                                    (record_audit_event-Respects env Quiet-Frame _ _ _ _ _ _ _))
                                  λ _. settle-Triple env own_id _ response.provider_object_id _ _ (
                                    status_of_answer-ne-pending response.provider_status
                                      response.error_type))
