-- ===== src/Execution/RetryPolicy.antt =====
-- src/execution/retry_policy.py: which execution requests may be retried.
use billing_recovery_executi.Common.{
  ℕ, ◌-◌, String, Bool, true, false, [], ◌∷◌, ◌&&◌, ◌==◌, ltb, leb, is_in, if◌then◌else◌, fstring,
}
use billing_recovery_executi.Database.{ExecutionRequest}
use billing_recovery_executi.Rules.ExecutionRules.{
  failed_transient, max_retry_attempts, retry_blocked_statuses,
}

pub record RetryEligibility : Type 0 where
  pub is_retryable : Bool
  pub reason : String
  pub attempts_remaining : ℕ

-- The request counts only by its status.
unfoldable pub evaluate_retry_status : String → ℕ → RetryEligibility
evaluate_retry_status status attempt_count =
    if status == failed_transient && ltb attempt_count max_retry_attempts
    then record {
      is_retryable = true;
      reason =
          "Execution failed with a transient provider error and is eligible for retry under the current retry policy.";
      attempts_remaining = max_retry_attempts - attempt_count;
    }
    else if status == failed_transient && leb max_retry_attempts attempt_count
    then record {
      is_retryable = false;
      reason =
          "Maximum retry attempts have been reached. This execution should move to manual review instead of being retried again.";
      attempts_remaining = 0;
    }
    else if is_in status retry_blocked_statuses
    then record {
      is_retryable = false;
      reason = fstring ("Execution is not retryable from status: " ∷ status ∷ "." ∷ []);
      attempts_remaining = 0;
    }
    else record {
      is_retryable = false;
      reason =
          "Execution is not currently in a retryable state. Only transient failures can be retried.";
      attempts_remaining = 0;
    }

unfoldable pub evaluate_retry_eligibility : ExecutionRequest → ℕ → RetryEligibility
unfolding evaluate_retry_status
evaluate_retry_eligibility request attempt_count =
    evaluate_retry_status request.status attempt_count
