-- ===== src/Lifecycle/Runs.antt =====
-- src/execution/execution_service.py: the calls that execute and retry, as steps of the request.
use mathlib.Core.Path.{subst}
use billing_recovery_executi.Common.{
  ℕ, ◌+◌, Bool, true, false, not, ◌&&◌, if◌then◌else◌, String, Option, none, some, ◌==◌, ◌≡◌, inl,
  inr, refl, sym, ◌∙◌, arith, eq_iff,
}
use billing_recovery_executi.Table.{fetch_one, count, fetch_one_holds}
use billing_recovery_executi.Database.{Database, ExecutionRequest, StripeTestPayment, Env, pure}
use billing_recovery_executi.Providers.TestPayments.{get_latest_stripe_test_payment}
use billing_recovery_executi.Execution.RetryPolicy.{
  evaluate_retry_status, evaluate_retry_eligibility,
}
use billing_recovery_executi.Execution.Requests.{
  has_id, is_of, found, get_execution_request_by_id, get_execution_attempt_count,
}
use billing_recovery_executi.Execution.Runs.{
  must_be_pending, found_payment, execute_with_mock_provider, execute_with_stripe_provider, give_up,
  retry_with_mock_provider,
}
use billing_recovery_executi.Rules.ExecutionRules.{
  execution_pending, processing, retrying, failed_transient, needs_manual_review,
  case_status_processing, case_status_retrying,
}
use billing_recovery_executi.Effects.Respects.{Relation}
use billing_recovery_executi.Effects.Spec.{
  Condition, Spec, Spec-bind, Spec-gets, Spec-row, Spec-raise, Spec-raise_if, Spec-pure, Spec-pre,
  Spec-post, Spec-fact, Spec-some, Spec-if,
}
use billing_recovery_executi.Lifecycle.Steps.{Step, execute, retry}
use billing_recovery_executi.Lifecycle.Writes.{Writes, Known}
use billing_recovery_executi.Lifecycle.Attempts.{
  read_back, settle-Spec, run_provider_attempt-Spec, run_stripe_refund_attempt-Spec,
}

pub own_id_of :
    (i : String) (o : Option ExecutionRequest) (r : ExecutionRequest) (db : Database)
    → o ≡ fetch_one (has_id i) db.execution_requests
    → o ≡ some r
    → r.execution_request_id ≡ i
own_id_of i o r db e x =
    (eq_iff r.execution_request_id i).0
      (fetch_one_holds (has_id i) db.execution_requests r (sym e ∙ x))

module _ (R : Relation) (start : Database) where
  -- What is known of a request that is read.
  pub Known-read :
      (i : String) (o : Option ExecutionRequest) (r : ExecutionRequest) (db : Database)
      → R start db
      → o ≡ fetch_one (has_id i) db.execution_requests
      → o ≡ some r
      → Known R start i r.status (count (is_of i) db.execution_attempts) db
  Known-read i o r db h e x = record {
    from = h;
    has_status = λ q f. ground (arith, sym e ∙ x);
    used = refl;
  }

  -- The request `i` has the status, and some number of attempts.
  abbrev pub Has : String → String → Condition
  Has i s db = (n : ℕ) × Known R start i s n db

  pub Has-own :
      (i : String) (o : Option ExecutionRequest) (r : ExecutionRequest) (db : Database)
      → R start db
      → o ≡ fetch_one (has_id i) db.execution_requests
      → o ≡ some r
      → Has r.execution_request_id r.status db
  Has-own i o r db h e x =
      subst (λ j. Has j r.status db) (sym (own_id_of i o r db e x)) (_, Known-read i o r db h e x)

pub Spec-found :
    {p e : Condition} (weaken : (db : Database) → p db → e db) (o : Option ExecutionRequest)
    → Spec p (found o) (λ r db. p db × (o ≡ some r)) e
unfolding found
Spec-found weaken none = Spec-raise weaken _
Spec-found weaken (some r) = Spec-pure r λ db h. (h, refl)

is_pending : (s : String) → not (s == execution_pending) ≡ false → s ≡ execution_pending
is_pending s h = ground (arith, eq_iff s execution_pending)

is_retryable :
    (s : String) (n : ℕ)
    → not (evaluate_retry_status s n).is_retryable ≡ false
    → s ≡ failed_transient
unfolding evaluate_retry_status
is_retryable s n h = ground (arith, eq_iff s failed_transient)

is_transient : (s : String) (b : Bool) → (s == failed_transient && b) ≡ true → s ≡ failed_transient
is_transient s b h = ground (arith, eq_iff s failed_transient)

module _ {R : Relation} (w : Writes R) (env : Env) (start : Database) where
  abbrev From : Condition
  From db = R start db

  Has-from : (i s : String) (db : Database) → Has R start i s db → From db
  Has-from i s db h = h.1.from

  pub execute_with_mock_provider-Spec :
      (i outcome : String) → Spec From (execute_with_mock_provider env i outcome) (λ _. From) From
  unfolding execute_with_mock_provider get_execution_request_by_id must_be_pending
  execute_with_mock_provider-Spec i outcome = Spec-bind _ _ (Spec-gets (λ db h. h) _) λ o.
      Spec-bind _ _ (Spec-found (λ db h. h.0) o) λ r.
        Spec-bind _ _ (Spec-raise_if (λ db h. h.0.0) _ _) λ _.
          Spec-pre {p' = λ db. Has R start r.execution_request_id execution_pending db}
            (λ db h.
              subst (λ s. Has R start r.execution_request_id s db) (is_pending r.status h.1)
                (Has-own R start i o r db h.0.0.0 h.0.0.1 h.0.1))
            (Spec-some λ n.
              Spec-post _
                (run_provider_attempt-Spec w env start r execution_pending processing n outcome
                  case_status_processing (execute refl refl) (inl refl))
                λ q db h. h.from)

  found_payment-Spec :
      {p : Condition} (weaken : (db : Database) → p db → From db) (o : Option StripeTestPayment)
      → Spec p (found_payment o) (λ _. p) From
  unfolding found_payment
  found_payment-Spec weaken none = Spec-raise weaken _
  found_payment-Spec weaken (some q) = Spec-pure q λ db h. h

  pub execute_with_stripe_provider-Spec :
      (i mode : String) → Spec From (execute_with_stripe_provider env i mode) (λ _. From) From
  unfolding execute_with_stripe_provider get_execution_request_by_id must_be_pending
      get_latest_stripe_test_payment
  execute_with_stripe_provider-Spec i mode = Spec-bind _ _ (Spec-gets (λ db h. h) _) λ o.
      Spec-bind _ _ (Spec-found (λ db h. h.0) o) λ r.
        Spec-bind _ _ (Spec-raise_if (λ db h. h.0.0) _ _) λ _.
          Spec-bind _ _ (Spec-gets (λ db h. h.0.0.0) _) λ latest.
            Spec-bind _ _ (found_payment-Spec (λ db h. h.0.0.0.0) latest) λ payment.
              Spec-pre {p' = λ db. Has R start r.execution_request_id execution_pending db}
                (λ db h.
                  subst (λ s. Has R start r.execution_request_id s db) (is_pending r.status h.0.1)
                    (Has-own R start i o r db h.0.0.0.0 h.0.0.0.1 h.0.0.1))
                (Spec-some λ n.
                  Spec-post _ (run_stripe_refund_attempt-Spec w env start r n payment mode)
                    λ q db h. h.from)

  give_up-Spec :
      (i : String) (n : ℕ) (r : ExecutionRequest)
      → Spec (Known R start i failed_transient n) (give_up env i r) (λ _. From) From
  unfolding give_up
  give_up-Spec i n r =
      Spec-post _
        (settle-Spec w env start i failed_transient needs_manual_review n none _ _
          (Step.give_up refl refl))
        λ q db h. h.from

  -- What a retry does after its attempt.
  retried :
      (i : String) (updated refreshed : ExecutionRequest) (o : Option ExecutionRequest) (b : Bool)
      → Spec
          (λ db. Has R start i refreshed.status db)
          (if refreshed.status == failed_transient && b
            then give_up env i refreshed
            else pure updated)
          (λ _. From)
          From
  retried i updated refreshed o b =
      Spec-if _
        (λ h. Spec-some λ n.
          Spec-pre
            (λ db k. subst (λ s. Known R start i s n db) (is_transient refreshed.status b h) k)
            (give_up-Spec i n refreshed))
        (λ h. Spec-pure updated λ db k. k.1.from)

  pub retry_with_mock_provider-Spec :
      (i outcome : String) → Spec From (retry_with_mock_provider env i outcome) (λ _. From) From
  unfolding retry_with_mock_provider get_execution_request_by_id get_execution_attempt_count
      evaluate_retry_eligibility
  retry_with_mock_provider-Spec i outcome = Spec-bind _ _ (Spec-gets (λ db h. h) _) λ o.
      Spec-bind _ _ (Spec-found (λ db h. h.0) o) λ r.
        Spec-bind _ _ (Spec-gets (λ db h. h.0.0) _) λ attempts.
          Spec-bind _ _ (Spec-raise_if (λ db h. h.0.0.0) _ _) λ _.
            Spec-bind _ _
              (Spec-pre
                {p' = λ db.
                  Has R start r.execution_request_id failed_transient db
                  × (r.execution_request_id ≡ i)}
                (λ db h. (
                  subst (λ s. Has R start r.execution_request_id s db)
                      (is_retryable r.status attempts h.1)
                      (Has-own R start i o r db h.0.0.0.0 h.0.0.0.1 h.0.0.1),
                  own_id_of i o r db h.0.0.0.1 h.0.0.1,
                ))
                (Spec-fact λ same. Spec-some λ n.
                  Spec-post {q = λ q db. Has R start i q.status db} _
                    (run_provider_attempt-Spec w env start r failed_transient retrying n outcome
                      case_status_retrying (retry refl refl) (inr refl))
                    λ q db h. (n + 1, subst (λ j. Known R start j q.status (n + 1) db) same h)))
              λ updated. Spec-bind _ _ (Spec-gets (Has-from i _) _) λ again.
                Spec-bind _ _ (Spec-gets (λ db h. h.0.1.from) _) λ count_again.
                  Spec-bind _ _ (Spec-row (λ db h. h.0.0.1.from) again) λ refreshed.
                    Spec-pre
                      (λ db h. (
                        h.0.0.0.0,
                        read_back w env start i updated.status h.0.0.0.0 again refreshed db
                            h.0.0.0.1 h.0.0.1 h.1,
                      ))
                      (retried i updated refreshed again _)
