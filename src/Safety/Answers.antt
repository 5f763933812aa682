-- ===== src/Safety/Answers.antt =====
-- src/providers/mock_billing_adapter.py: the status that each simulated outcome leads to.
use billing_recovery_executi.Common.{
  Bool, true, false, String, ◌==◌, ◌≡◌, ◌≢◌, ◌↔◌, refl, sym, ◌∙◌, arith, eq_iff, ne_of_test,
  if◌then◌else◌,
}
use billing_recovery_executi.Database.{ExecutionRequest, Env}
use billing_recovery_executi.Providers.Types.{ProviderResponse}
use billing_recovery_executi.Providers.Mock.{execute_billing_operation, mock_failure_response}
use billing_recovery_executi.Execution.Statuses.{map_provider_response_to_execution_status}
use billing_recovery_executi.Rules.ExecutionRules.{
  mock_success, mock_transient_failure, mock_permanent_failure, mock_timeout, succeeded,
  failed_transient, failed_permanent, needs_manual_review,
}
use billing_recovery_executi.Effects.Respects.{Respects-draw_uuid10}
use billing_recovery_executi.Safety.Triple.{
  Requests, Attempts, Condition, Triple, Triple-bind, Triple-quiet, Triple-pure, Triple-if,
  Quiet-IsStable,
}

-- The status of a request after an attempt with a simulated outcome: succeeded, failed_transient and
-- needs_manual_review stand for success, transient failure and timeout, and all other outcomes are
-- permanent failures.
pub record IsAnswer (outcome status : String) : Type 0 where
  pub on_success : status ≡ succeeded ↔ outcome ≡ mock_success
  pub on_transient : status ≡ failed_transient ↔ outcome ≡ mock_transient_failure
  pub on_timeout : status ≡ needs_manual_review ↔ outcome ≡ mock_timeout
  pub on_other :
      status ≡ failed_permanent
      ↔ (outcome ≢ mock_success) × (outcome ≢ mock_transient_failure) × (outcome ≢ mock_timeout)

outcomes_differ :
    (mock_success ≢ mock_transient_failure)
    × (mock_success ≢ mock_timeout)
    × (mock_transient_failure ≢ mock_timeout)
outcomes_differ = (ne_of_test _ _ refl, ne_of_test _ _ refl, ne_of_test _ _ refl)

answers_differ :
    (succeeded ≢ failed_transient)
    × (succeeded ≢ needs_manual_review)
    × (succeeded ≢ failed_permanent)
    × (failed_transient ≢ needs_manual_review)
    × (failed_transient ≢ failed_permanent)
    × (needs_manual_review ≢ failed_permanent)
answers_differ = (
  ne_of_test _ _ refl,
  ne_of_test _ _ refl,
  ne_of_test _ _ refl,
  ne_of_test _ _ refl,
  ne_of_test _ _ refl,
  ne_of_test _ _ refl,
)

not_text : (s t : String) → (s == t) ≡ false → s ≢ t
not_text s t h x = ground (arith, eq_iff s t)

permanent_not_timeout : mock_permanent_failure ≢ mock_timeout
permanent_not_timeout = ne_of_test _ _ refl

success-IsAnswer : (o : String) → (o == mock_success) ≡ true → IsAnswer o succeeded
success-IsAnswer o h = record {
  on_success = ground (arith, eq_iff o mock_success, outcomes_differ, answers_differ);
  on_transient = ground (arith, eq_iff o mock_success, outcomes_differ, answers_differ);
  on_timeout = ground (arith, eq_iff o mock_success, outcomes_differ, answers_differ);
  on_other = ground (arith, eq_iff o mock_success, outcomes_differ, answers_differ);
}

transient-IsAnswer :
    (o : String) → (o == mock_transient_failure) ≡ true → IsAnswer o failed_transient
transient-IsAnswer o h = record {
  on_success = ground (arith, eq_iff o mock_transient_failure, outcomes_differ, answers_differ);
  on_transient = ground (arith, eq_iff o mock_transient_failure, outcomes_differ, answers_differ);
  on_timeout = ground (arith, eq_iff o mock_transient_failure, outcomes_differ, answers_differ);
  on_other = ground (arith, eq_iff o mock_transient_failure, outcomes_differ, answers_differ);
}

timeout-IsAnswer : (o : String) → (o == mock_timeout) ≡ true → IsAnswer o needs_manual_review
timeout-IsAnswer o h = record {
  on_success = ground (arith, eq_iff o mock_timeout, outcomes_differ, answers_differ);
  on_transient = ground (arith, eq_iff o mock_timeout, outcomes_differ, answers_differ);
  on_timeout = ground (arith, eq_iff o mock_timeout, outcomes_differ, answers_differ);
  on_other = ground (arith, eq_iff o mock_timeout, outcomes_differ, answers_differ);
}

other-IsAnswer :
    (o : String)
    → o ≢ mock_success
    → o ≢ mock_transient_failure
    → o ≢ mock_timeout
    → IsAnswer o failed_permanent
other-IsAnswer o h k l = record {
  on_success = ground (arith, answers_differ);
  on_transient = ground (arith, answers_differ);
  on_timeout = ground (arith, answers_differ);
  on_other = ground arith;
}

if-IsAnswer :
    (o : String) (b : Bool) (r q : ProviderResponse)
    → (b ≡ true → IsAnswer o (map_provider_response_to_execution_status r))
    → (b ≡ false → IsAnswer o (map_provider_response_to_execution_status q))
    → IsAnswer o (map_provider_response_to_execution_status (if b then r else q))
if-IsAnswer o true r q h k = h refl
if-IsAnswer o false r q h k = k refl

failure-IsAnswer :
    (o : String)
    → (o == mock_success) ≡ false
    → IsAnswer o (map_provider_response_to_execution_status (mock_failure_response o))
unfolding mock_failure_response map_provider_response_to_execution_status
failure-IsAnswer o h = if-IsAnswer o (o == mock_transient_failure) _ _ (transient-IsAnswer o) λ a.
    if-IsAnswer o (o == mock_permanent_failure) _ _
      (λ b.
        other-IsAnswer o (not_text o mock_success h) (not_text o mock_transient_failure a)
          (λ x. permanent_not_timeout ((sym ((eq_iff o mock_permanent_failure).0 b)) ∙ x)))
      λ b. if-IsAnswer o (o == mock_timeout) _ _ (timeout-IsAnswer o) λ c.
        other-IsAnswer o (not_text o mock_success h) (not_text o mock_transient_failure a)
          (not_text o mock_timeout c)

module _ {p e : Condition} (weaken : (rs : Requests) (ats : Attempts) → p rs ats → e rs ats) where
  pub answer-Triple :
      (env : Env) (r : ExecutionRequest) (outcome : String)
      → Triple p
          (execute_billing_operation env r outcome)
          (λ a rs ats. p rs ats × IsAnswer outcome (map_provider_response_to_execution_status a))
          e
  unfolding execute_billing_operation map_provider_response_to_execution_status
  answer-Triple env r outcome =
      Triple-if (outcome == mock_success)
        (λ h.
          Triple-bind _ _ (Triple-quiet weaken (Respects-draw_uuid10 Quiet-IsStable env))
            λ uuid. Triple-pure _ (λ rs ats k. (k, success-IsAnswer outcome h)))
        (λ h. Triple-pure _ (λ rs ats k. (k, failure-IsAnswer outcome h)))
