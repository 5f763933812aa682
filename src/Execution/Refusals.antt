-- ===== src/Execution/Refusals.antt =====
-- src/execution/execution_service.py and src/execution/retry_policy.py: when a call is refused, and
-- that a refused call writes nothing.
use billing_recovery_executi.Common.{
  ℕ, ◌+◌, ◌<◌, String, true, false, not, some, ◌≡◌, ◌≢◌, ◌↔◌, refl, arith, eq_iff, ◌==◌, fstring,
  [], ◌∷◌,
}
use billing_recovery_executi.Table.{fetch_one, count}
use billing_recovery_executi.Database.{
  Database, ExecutionRequest, Env, Action, err, value_error, pure, gets, raise_if, ◌>>=◌,
}
use billing_recovery_executi.Execution.RetryPolicy.{
  evaluate_retry_status, evaluate_retry_eligibility,
}
use billing_recovery_executi.Execution.Requests.{
  has_id, is_of, get_execution_request_by_id, get_execution_attempt_count, found,
}
use billing_recovery_executi.Execution.Runs.{
  must_be_pending, execute_with_mock_provider, execute_with_stripe_provider,
  retry_with_mock_provider,
}
use billing_recovery_executi.Rules.ExecutionRules.{execution_pending, failed_transient}

-- An action raises a ValueError and leaves the database as it is.
pub record IsRefused {A : Type 0} (m : Action A) (db : Database) : Type 0 where
  pub message : String
  pub refused : m db ≡ (err (value_error message), db)

-- A request may be retried exactly while it is failed_transient and has fewer than three attempts,
-- and then the attempts used and those remaining make three; where it may not be retried, none
-- remain.
pub evaluate_retry_status-retryable :
    (status : String) (n : ℕ)
    → ((evaluate_retry_status status n).is_retryable ≡ true ↔ (status ≡ failed_transient) × (n < 3))
      × ((evaluate_retry_status status n).is_retryable ≡ true
          → n + (evaluate_retry_status status n).attempts_remaining ≡ 3)
      × ((evaluate_retry_status status n).is_retryable ≡ false
          → (evaluate_retry_status status n).attempts_remaining ≡ 0)
unfolding evaluate_retry_status
evaluate_retry_status-retryable status n = ground (arith, eq_iff status failed_transient)

module _ (env : Env) (id : String) (db : Database) where
  -- A request that is there, by its status and its attempts.
  module _ (r : ExecutionRequest)
      (there : fetch_one (has_id id) db.execution_requests ≡ some r) where
    not_pending : r.status ≢ execution_pending → not (r.status == execution_pending) ≡ true
    not_pending h = ground (arith, eq_iff r.status execution_pending)

    -- Execution with either provider is refused from any status but execution_pending, whatever the
    -- outcome or dependency mode that is asked for: it raises a ValueError and writes nothing.
    pub execute-IsRefused :
        (outcome mode : String)
        → r.status ≢ execution_pending
        → IsRefused (execute_with_mock_provider env id outcome) db
          × IsRefused (execute_with_stripe_provider env id mode) db
    unfolding execute_with_mock_provider execute_with_stripe_provider get_execution_request_by_id
        found must_be_pending gets pure raise_if ◌>>=◌
    execute-IsRefused outcome mode h = (
      record {
        message =
            fstring ("Execution request is not executable from status " ∷ r.status ∷ "." ∷ []);
        refused = rw (there, not_pending h) refl;
      },
      record {
        message =
            fstring ("Execution request is not executable from status " ∷ r.status ∷ "." ∷ []);
        refused = rw (there, not_pending h) refl;
      },
    )

    -- A retry is refused unless the request is failed_transient and has fewer than three attempts: it
    -- raises a ValueError and writes nothing.
    pub retry-IsRefused :
        (outcome : String)
        → ¬ ((r.status ≡ failed_transient) × (count (is_of id) db.execution_attempts < 3))
        → IsRefused (retry_with_mock_provider env id outcome) db
    unfolding retry_with_mock_provider evaluate_retry_eligibility get_execution_request_by_id
        get_execution_attempt_count found gets pure raise_if ◌>>=◌
    retry-IsRefused outcome h =
        let stop : not
              (evaluate_retry_status r.status (count (is_of id) db.execution_attempts)).is_retryable
            ≡ true =
          ground (
            arith,
            evaluate_retry_status-retryable r.status (count (is_of id) db.execution_attempts),
            h,
          ) in
        record {
          message =
              (evaluate_retry_status r.status (count (is_of id) db.execution_attempts)).reason;
          refused = rw (there, stop) refl;
        }
