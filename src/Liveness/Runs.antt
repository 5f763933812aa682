-- ===== src/Liveness/Runs.antt =====
-- src/execution/execution_service.py: an execution and a retry return, and where they leave the request.
use mathlib.Core.Path.{subst}
use mathlib.Core.Option.{some-injective}
use billing_recovery_executi.Common.{
  ℕ, ◌+◌, ◌<◌, ◌≤◌, String, false, not, Option, none, some, ◌&&◌, ◌==◌, ◌≡◌, ◌⊎◌, inl, inr, refl,
  sym, ◌∙◌, ap, arith, eq_iff, leb,
}
use billing_recovery_executi.Table.{fetch_one, fetch_one_holds}
use billing_recovery_executi.Database.{ExecutionRequest, Env, pure}
use billing_recovery_executi.Execution.RetryPolicy.{
  evaluate_retry_status, evaluate_retry_eligibility,
}
use billing_recovery_executi.Execution.Requests.{
  has_id, found, get_execution_request_by_id, get_execution_attempt_count,
}
use billing_recovery_executi.Execution.Attempts.{run_provider_attempt}
use billing_recovery_executi.Execution.Runs.{
  must_be_pending, execute_with_mock_provider, give_up, retry_with_mock_provider,
}
use billing_recovery_executi.Rules.ExecutionRules.{
  execution_pending, processing, retrying, succeeded, failed_transient, failed_permanent,
  needs_manual_review, max_retry_attempts, case_status_processing, case_status_retrying,
}
use billing_recovery_executi.Effects.Spec.{
  Condition, Spec, Spec-bind, Spec-pure, Spec-pre, Spec-post, Spec-fact, Spec-if,
}
use billing_recovery_executi.Lifecycle.Steps.{IsAnswered}
use billing_recovery_executi.Liveness.Fresh.{DrawsDiffer, Stands}
use billing_recovery_executi.Liveness.Attempts.{
  set_status-Stands, update_case_status-Stands, read_back-Stands, run_provider_attempt-Stands,
}
use billing_recovery_executi.Effects.Returns.{Never, Spec-fetched, Spec-present, Spec-passed}

-- The statuses that end the work of the provider.
abbrev pub IsSettled : String → Type 0
IsSettled t = (t ≡ succeeded) ⊎ (t ≡ failed_permanent) ⊎ (t ≡ needs_manual_review)

-- The request is settled, or a retry is due and `k` retries use up its attempts.
abbrev pub Landed : Env → String → ℕ → Condition
Landed env i k db =
    (n : ℕ) × (t : String) × Stands env i t n db
    × (IsSettled t ⊎ (t ≡ failed_transient) × (n < 3) × (3 ≤ n + k))

found-Stands :
    {env : Env} {i s : String} {n : ℕ} (o : Option ExecutionRequest)
    → Spec
        (λ db. Stands env i s n db × (o ≡ fetch_one (has_id i) db.execution_requests))
        (found o)
        (λ r db. Stands env i s n db × (r.execution_request_id ≡ i) × (r.status ≡ s))
        Never
unfolding found pure
found-Stands none = record { at = λ db h. let x = h.1 ∙ h.0.there in absurd cc }
found-Stands {i = i} (some r) = record {
  at = λ db h. (
    h.0,
    (eq_iff r.execution_request_id i).0
        (fetch_one_holds (has_id i) db.execution_requests r (sym h.1)),
    ap (λ q. q.status) (some-injective r h.0.row (h.1 ∙ h.0.there)) ∙ h.0.status,
  );
}

due_or_done :
    (t : String) (n : ℕ) (k : ℕ)
    → IsAnswered t
    → (t ≡ failed_transient → (n < 3) × (3 ≤ n + k))
    → IsSettled t ⊎ (t ≡ failed_transient) × (n < 3) × (3 ≤ n + k)
due_or_done t n k h room = ground arith

retryable :
    (s : String) (n : ℕ)
    → s ≡ failed_transient
    → n < 3
    → not (evaluate_retry_status s n).is_retryable ≡ false
unfolding evaluate_retry_status
retryable s n h room = ground (arith, eq_iff s failed_transient)

due :
    (t u : String) (n k m : ℕ)
    → m ≡ n + 1
    → u ≡ t
    → (u == failed_transient && leb max_retry_attempts m) ≡ false
    → 3 ≤ n + (k + 1)
    → t ≡ failed_transient
    → (n + 1 < 3) × (3 ≤ n + 1 + k)
due t u n k m e same go enough h = ground (arith, eq_iff u failed_transient)

module _ (env : Env) (distinct : DrawsDiffer env) (i : String) where
  -- An attempt on the request that was read under `i`.
  attempt_under :
      (r : ExecutionRequest) (s t outcome case_status : String) (n : ℕ)
      → r.execution_request_id ≡ i
      → Spec
          (Stands env i s n)
          (run_provider_attempt env r outcome t case_status)
          (λ q db. Stands env i q.status (n + 1) db × IsAnswered q.status)
          Never
  attempt_under r s t outcome case_status n same =
      subst
        (λ j.
          Spec (Stands env j s n) (run_provider_attempt env r outcome t case_status)
            (λ q db. Stands env j q.status (n + 1) db × IsAnswered q.status) Never)
        same (run_provider_attempt-Stands env distinct r n s t outcome case_status)

  pub execute-Landed :
      (outcome : String)
      → Spec
          (Stands env i execution_pending 0)
          (execute_with_mock_provider env i outcome)
          (λ _. Landed env i 2)
          Never
  unfolding execute_with_mock_provider get_execution_request_by_id must_be_pending
  execute-Landed outcome = Spec-bind _ _ (Spec-fetched _) λ o. Spec-bind _ _ (found-Stands o) λ r.
      Spec-bind _ _
        (Spec-passed (not (r.status == execution_pending)) _
          λ db h. ground (arith, eq_iff r.status execution_pending, h.2))
        λ _.
          Spec-pre (λ db h. (h.0, h.1))
            (Spec-fact λ same.
              Spec-post _
                (attempt_under r execution_pending processing outcome case_status_processing 0 same)
                λ q db h.
                  (1, q.status, h.0, due_or_done q.status 1 2 h.1 λ _. (omega arith, omega arith)))

  give_up-Landed :
      (r : ExecutionRequest) (s : String) (n k : ℕ)
      → Spec (Stands env i s n) (give_up env i r) (λ _. Landed env i k) Never
  unfolding give_up
  give_up-Landed r s n k = Spec-bind _ _ (set_status-Stands env i s n needs_manual_review none) λ _.
      Spec-bind _ _ (update_case_status-Stands env i needs_manual_review n _ _) λ _.
        Spec-post _ (read_back-Stands env i needs_manual_review n)
          λ q db h. (n, needs_manual_review, h.0, inl (inr (inr refl)))

  pub retry-Landed :
      (outcome : String) (n k : ℕ)
      → n < 3
      → 3 ≤ n + (k + 1)
      → Spec
          (Stands env i failed_transient n)
          (retry_with_mock_provider env i outcome)
          (λ _. Landed env i k)
          Never
  unfolding retry_with_mock_provider get_execution_request_by_id get_execution_attempt_count
      evaluate_retry_eligibility
  retry-Landed outcome n k room enough = Spec-bind _ _ (Spec-fetched _) λ o.
      Spec-bind _ _ (found-Stands o) λ r. Spec-bind _ _ (Spec-fetched _) λ attempts.
        Spec-bind _ _
          (Spec-passed (not (evaluate_retry_status r.status attempts).is_retryable) _ λ db h.
            retryable r.status attempts h.0.2 (subst (λ m. m < 3) (sym (h.1 ∙ h.0.0.used)) room))
          λ _.
            Spec-pre (λ db h. (h.0.0, h.0.1))
              (Spec-fact λ same.
                Spec-bind _ _
                  (attempt_under r failed_transient retrying outcome case_status_retrying n same)
                  λ updated. Spec-bind _ _ (Spec-fetched _) λ again.
                    Spec-bind _ _ (Spec-fetched _) λ count_again.
                      Spec-bind _ _
                        (Spec-present again λ db h. (h.0.0.0.row, h.0.1 ∙ h.0.0.0.there))
                        λ refreshed.
                          Spec-pre
                            {p' = λ db.
                              Stands env i updated.status (n + 1) db
                              × (IsAnswered updated.status
                                  × (count_again ≡ n + 1)
                                  × (refreshed.status ≡ updated.status))}
                            (λ db h. (
                              h.0.0.0.0,
                              (
                                h.0.0.0.1,
                                h.0.1 ∙ h.0.0.0.0.used,
                                ap (λ q. q.status)
                                      (some-injective refreshed h.0.0.0.0.row
                                        (sym h.1 ∙ h.0.0.1 ∙ h.0.0.0.0.there))
                                    ∙ h.0.0.0.0.status,
                              ),
                            ))
                            (Spec-fact λ known.
                              Spec-if
                                (refreshed.status == failed_transient
                                  && leb max_retry_attempts count_again)
                                (λ stop. give_up-Landed refreshed updated.status (n + 1) k)
                                (λ go. Spec-pure updated λ db h. (
                                  n + 1,
                                  updated.status,
                                  h,
                                  due_or_done updated.status (n + 1) k known.0 (
                                      due updated.status refreshed.status n k count_again known.1
                                        known.2 go enough),
                                ))))
