-- ===== src/Safety/Runs.antt =====
-- src/execution/execution_service.py: the calls that execute and retry keep the limits on attempts.
use mathlib.Core.Path.{subst}
use billing_recovery_executi.Common.{
  ℕ, ◌<◌, false, not, String, Option, none, some, ◌==◌, ◌≡◌, refl, sym, ◌∙◌, arith, eq_iff,
  ne_of_test,
}
use billing_recovery_executi.Table.{fetch_one, count, fetch_one_holds}
use billing_recovery_executi.Database.{ExecutionRequest, StripeTestPayment, Env}
use billing_recovery_executi.Providers.TestPayments.{get_latest_stripe_test_payment}
use billing_recovery_executi.Execution.RetryPolicy.{
  evaluate_retry_status, evaluate_retry_eligibility,
}
use billing_recovery_executi.Execution.Requests.{
  has_id, is_of, found, get_execution_request_by_id, get_execution_attempt_count,
}
use billing_recovery_executi.Execution.Runs.{
  must_be_pending, found_payment, execute_with_mock_provider, execute_with_stripe_provider, give_up,
  retry_with_mock_provider,
}
use billing_recovery_executi.Rules.ExecutionRules.{
  execution_pending, failed_transient, processing, retrying, needs_manual_review,
  case_status_processing, case_status_retrying,
}
use billing_recovery_executi.Effects.Respects.{Respects-gets}
use billing_recovery_executi.Effects.Frame.{update_case_status-Respects}
use billing_recovery_executi.Safety.Triple.{
  Requests, Attempts, Condition, Triple, Triple-bind, Triple-quiet, Triple-gets, Triple-row,
  Triple-raise_if, Triple-pre, Triple-drop, Triple-pure, Triple-if, Quiet-Frame, Quiet-IsStable,
}
use billing_recovery_executi.Safety.Tables.{IsSafe, RequestIsSafe, succeeded_for}
use billing_recovery_executi.Safety.Steps.{Ready}
use billing_recovery_executi.Safety.Attempts.{
  finish-Triple, run_provider_attempt-Triple, run_stripe_refund_attempt-Triple,
}

pub Triple-found :
    {p e : Condition} (weaken : (rs : Requests) (ats : Attempts) → p rs ats → e rs ats)
    (o : Option ExecutionRequest)
    → Triple p (found o) (λ r rs ats. p rs ats × (o ≡ some r)) e
unfolding found
Triple-found weaken none = record {
  at = λ db h. weaken db.execution_requests db.execution_attempts h;
}
Triple-found weaken (some r) = record { at = λ db h. (h, refl) }

pub fetched :
    (i : String) (rs : Requests) (r : ExecutionRequest)
    → fetch_one (has_id i) rs ≡ some r
    → r.execution_request_id ≡ i
fetched i rs r e = (eq_iff r.execution_request_id i).0 (fetch_one_holds (has_id i) rs r e)

-- A request that is read can be attempted, if what holds of it leaves room.
ready :
    (i : String) (rs : Requests) (ats : Attempts) (o : Option ExecutionRequest)
    (r : ExecutionRequest)
    → IsSafe rs ats
    → o ≡ fetch_one (has_id i) rs
    → o ≡ some r
    → ((n s : ℕ) → n ≡ count (is_of i) ats → RequestIsSafe (some r) n s → (n < 3) × (s ≡ 0))
    → Ready r.execution_request_id rs ats
ready i rs ats o r safe e x h =
    let there : fetch_one (has_id i) rs ≡ some r = sym e ∙ x in
    let fits : RequestIsSafe (some r) (count (is_of i) ats) (count (succeeded_for i) ats) =
      subst (λ o. RequestIsSafe o (count (is_of i) ats) (count (succeeded_for i) ats)) there
        (safe.at i) in
    let limits : (count (is_of i) ats < 3) × (count (succeeded_for i) ats ≡ 0) = h _ _ refl fits in
    subst (λ j. Ready j rs ats) (sym (fetched i rs r there)) (safe, limits.0, limits.1)

pending_fits :
    (r : ExecutionRequest) (n s : ℕ)
    → not (r.status == execution_pending) ≡ false
    → RequestIsSafe (some r) n s
    → (n < 3) × (s ≡ 0)
pending_fits r n s h k = ground (arith, eq_iff r.status execution_pending)

retryable_fits :
    (r : ExecutionRequest) (n s : ℕ)
    → not (evaluate_retry_status r.status n).is_retryable ≡ false
    → RequestIsSafe (some r) n s
    → (n < 3) × (s ≡ 0)
unfolding evaluate_retry_status
retryable_fits r n s h k = ground (arith, eq_iff r.status failed_transient)

module _ (env : Env) where
  pub mock-Triple :
      (i outcome : String)
      → Triple IsSafe (execute_with_mock_provider env i outcome) (λ _. IsSafe) IsSafe
  unfolding execute_with_mock_provider get_execution_request_by_id must_be_pending
  mock-Triple i outcome =
      Triple-bind _ _ (Triple-gets (λ rs ats h. h) (λ rs ats. fetch_one (has_id i) rs)) λ read.
        Triple-bind _ _ (Triple-found (λ rs ats h. h.0) read) λ request.
          Triple-bind _ _ (Triple-raise_if (λ rs ats h. h.0.0) _ _) λ _.
            Triple-pre
              (λ rs ats h.
                ready i rs ats read request h.0.0.0 h.0.0.1 h.0.1
                  (λ n s e k. pending_fits request n s h.1 k))
              (run_provider_attempt-Triple env request outcome processing case_status_processing
                (ne_of_test processing execution_pending refl)
                (ne_of_test processing failed_transient refl))

  Triple-found_payment :
      {p : Condition} (weaken : (rs : Requests) (ats : Attempts) → p rs ats → IsSafe rs ats)
      (o : Option StripeTestPayment)
      → Triple p (found_payment o) (λ _. p) IsSafe
  unfolding found_payment
  Triple-found_payment weaken none = record {
    at = λ db h. weaken db.execution_requests db.execution_attempts h;
  }
  Triple-found_payment weaken (some r) = record { at = λ db h. h }

  pub stripe-Triple :
      (i mode : String)
      → Triple IsSafe (execute_with_stripe_provider env i mode) (λ _. IsSafe) IsSafe
  unfolding execute_with_stripe_provider get_execution_request_by_id must_be_pending
      get_latest_stripe_test_payment
  stripe-Triple i mode =
      Triple-bind _ _ (Triple-gets (λ rs ats h. h) (λ rs ats. fetch_one (has_id i) rs)) λ read.
        Triple-bind _ _ (Triple-found (λ rs ats h. h.0) read) λ request.
          Triple-bind _ _ (Triple-raise_if (λ rs ats h. h.0.0) _ _) λ _.
            Triple-bind _ _ (Triple-quiet (λ rs ats h. h.0.0.0) (Respects-gets Quiet-IsStable _))
              λ latest.
                Triple-bind _ _ (Triple-found_payment (λ rs ats h. h.0.0.0) latest) λ payment.
                  Triple-pre
                    (λ rs ats h.
                      ready i rs ats read request h.0.0.0 h.0.0.1 h.0.1
                        (λ n s e k. pending_fits request n s h.1 k))
                    (run_stripe_refund_attempt-Triple env request payment mode)

  give_up-Triple :
      (i : String) (r : ExecutionRequest) → Triple IsSafe (give_up env i r) (λ _. IsSafe) IsSafe
  unfolding give_up get_execution_request_by_id
  give_up-Triple i r =
      Triple-bind _ _
        (Triple-pre
          (λ rs ats h. (h, λ x. absurd (ne_of_test needs_manual_review failed_transient refl x)))
          (finish-Triple env i needs_manual_review none
            (ne_of_test needs_manual_review execution_pending refl)))
        λ _.
          Triple-bind _ _
            (Triple-quiet (λ rs ats h. h) (update_case_status-Respects env Quiet-Frame _ _))
            λ _.
              Triple-bind _ _ (Triple-gets (λ rs ats h. h) (λ rs ats. fetch_one (has_id i) rs))
                λ read.
                  Triple-pre (λ rs ats h. h.0) (Triple-drop _ (Triple-row (λ rs ats h. h) read))

  pub retry-Triple :
      (i outcome : String)
      → Triple IsSafe (retry_with_mock_provider env i outcome) (λ _. IsSafe) IsSafe
  unfolding retry_with_mock_provider get_execution_request_by_id get_execution_attempt_count
      evaluate_retry_eligibility
  retry-Triple i outcome =
      Triple-bind _ _ (Triple-gets (λ rs ats h. h) (λ rs ats. fetch_one (has_id i) rs)) λ read.
        Triple-bind _ _ (Triple-found (λ rs ats h. h.0) read) λ request.
          Triple-bind _ _ (Triple-gets (λ rs ats h. h.0.0) (λ rs ats. count (is_of i) ats))
            λ attempts. Triple-bind _ _ (Triple-raise_if (λ rs ats h. h.0.0.0) _ _) λ _.
              Triple-bind _ _
                (Triple-pre
                  (λ rs ats h.
                    ready i rs ats read request h.0.0.0.0 h.0.0.0.1 h.0.0.1
                      (λ n s e k. retryable_fits request n s (rw (e ∙ sym h.0.1) h.1) k))
                  (run_provider_attempt-Triple env request outcome retrying case_status_retrying
                    (ne_of_test retrying execution_pending refl)
                    (ne_of_test retrying failed_transient refl)))
                λ updated.
                  Triple-bind _ _ (Triple-gets (λ rs ats h. h) (λ rs ats. fetch_one (has_id i) rs))
                    λ read_again.
                      Triple-bind _ _
                        (Triple-gets (λ rs ats h. h.0) (λ rs ats. count (is_of i) ats))
                        λ count_again.
                          Triple-bind _ _ (Triple-row (λ rs ats h. h.0.0) read_again) λ refreshed.
                            Triple-pre (λ rs ats h. h.0.0.0)
                              (Triple-if _ (λ _. give_up-Triple i refreshed)
                                (λ _. Triple-pure updated (λ rs ats h. h)))
