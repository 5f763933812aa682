-- ===== src/Safety/Outcomes.antt =====
-- src/execution/execution_service.py: what the calls that execute and retry with the mock provider
-- return and leave in the tables, where they return.
use mathlib.Core.Path.{subst}
use mathlib.Core.Option.{some-injective}
use billing_recovery_executi.Common.{
  ℕ, ◌+◌, ◌<◌, true, false, String, none, some, ◌&&◌, ◌==◌, ◌≡◌, ◌≢◌, ◌⊎◌, ◌≤◌, refl, sym, ◌∙◌,
  arith, ap, eq_iff, leb,
}
use billing_recovery_executi.Table.{fetch_one, count}
use billing_recovery_executi.Database.{Database, ExecutionRequest, Env, ok, Action}
use billing_recovery_executi.Execution.Requests.{
  has_id, is_of, get_execution_request_by_id, get_execution_attempt_count,
}
use billing_recovery_executi.Execution.Attempts.{run_provider_attempt}
use billing_recovery_executi.Execution.Runs.{
  must_be_pending, execute_with_mock_provider, give_up, retry_with_mock_provider,
}
use billing_recovery_executi.Rules.ExecutionRules.{
  mock_transient_failure, failed_transient, needs_manual_review, processing, retrying,
  max_retry_attempts, case_status_processing, case_status_retrying, case_status_needs_manual_review,
}
use billing_recovery_executi.Safety.Triple.{
  Outcome, Requests, Attempts, Condition, Triple, Triple-bind, Triple-gets, Triple-row, Triple-pre,
  Triple-pure, Triple-if, Triple-fact, Triple-post, Triple-raise_if,
}
use billing_recovery_executi.Safety.Runs.{Triple-found, fetched}
use billing_recovery_executi.Safety.Answers.{IsAnswer}
use billing_recovery_executi.Safety.Attempted.{
  Used, Anything, Answered, run_provider_attempt-Answered, settle-Shows,
}

-- What a retry returns after `n` attempts: the answer to one more, but manual review after a third
-- transient failure.
pub record Retried (i : String) (n : ℕ) (outcome : String) (r : ExecutionRequest) (rs : Requests)
    (ats : Attempts) : Type 0 where
  pub stored : fetch_one (has_id i) rs ≡ some r
  pub used : Used i (n + 1) rs ats
  pub answered : (outcome ≢ mock_transient_failure) ⊎ (n + 1 < 3) → IsAnswer outcome r.status
  pub exhausted : outcome ≡ mock_transient_failure → 3 ≤ n + 1 → r.status ≡ needs_manual_review

exhausting :
    (outcome : String) (u : ExecutionRequest) (r : ExecutionRequest) (m n : ℕ)
    → IsAnswer outcome u.status
    → m ≡ n
    → r ≡ u
    → (r.status == failed_transient && leb max_retry_attempts m) ≡ true
    → (outcome ≡ mock_transient_failure) × (3 ≤ n)
exhausting outcome u r m n fits e same stop =
    let s : r.status ≡ u.status = ap (λ q. q.status) same in
    ground (arith, fits.on_transient, eq_iff r.status failed_transient, s)

not_exhausting :
    (outcome : String) (u : ExecutionRequest) (r : ExecutionRequest) (m n : ℕ)
    → IsAnswer outcome u.status
    → m ≡ n
    → r ≡ u
    → (r.status == failed_transient && leb max_retry_attempts m) ≡ false
    → outcome ≡ mock_transient_failure
    → 3 ≤ n
    → u.status ≡ needs_manual_review
not_exhausting outcome u r m n fits e same go transient used =
    let s : r.status ≡ u.status = ap (λ q. q.status) same in
    ground (arith, fits.on_transient, eq_iff r.status failed_transient, s)

module _ (env : Env) (i : String) (n : ℕ) where
  -- The request is at hand, under its own identifier.
  abbrev Read : ExecutionRequest → Condition
  Read r rs ats = Used i n rs ats × (r.execution_request_id ≡ i)

  attempt-Triple :
      (r : ExecutionRequest) (outcome st case_status : String)
      → Triple
          (Read r)
          (run_provider_attempt env r outcome st case_status)
          (Answered i (n + 1) outcome)
          Anything
  attempt-Triple r outcome st case_status = Triple-fact λ own.
      subst
        (λ j.
          Triple (Used j n) (run_provider_attempt env r outcome st case_status)
            (Answered j (n + 1) outcome) Anything)
        own (run_provider_attempt-Answered env r n outcome st case_status)

  execute-Triple :
      (outcome : String)
      → Triple
          (Used i n)
          (execute_with_mock_provider env i outcome)
          (Answered i (n + 1) outcome)
          Anything
  unfolding execute_with_mock_provider get_execution_request_by_id must_be_pending
  execute-Triple outcome =
      Triple-bind _ _ (Triple-gets (λ rs ats h. tt) (λ rs ats. fetch_one (has_id i) rs)) λ read.
        Triple-bind _ _ (Triple-found (λ rs ats h. tt) read) λ request.
          Triple-bind _ _ (Triple-raise_if (λ rs ats h. tt) _ _) λ _.
            Triple-pre (λ rs ats h. (h.0.0.0, fetched i rs request (sym h.0.0.1 ∙ h.0.1)))
              (attempt-Triple request outcome processing case_status_processing)

  give_up-Triple :
      (outcome : String) (r : ExecutionRequest)
      → outcome ≡ mock_transient_failure
      → 3 ≤ n + 1
      → Triple (Used i (n + 1)) (give_up env i r) (Retried i n outcome) Anything
  unfolding give_up
  give_up-Triple outcome r transient full =
      Triple-post _
        (settle-Shows env i (n + 1) needs_manual_review none r.case_id
          case_status_needs_manual_review)
        λ q rs ats h. record {
          stored = h.0;
          used = h.2;
          answered = λ x. ground (arith, x, transient);
          exhausted = λ _ _. h.1;
        }

  retry-Triple :
      (outcome : String)
      → Triple (Used i n) (retry_with_mock_provider env i outcome) (Retried i n outcome) Anything
  unfolding retry_with_mock_provider get_execution_request_by_id get_execution_attempt_count
  retry-Triple outcome =
      Triple-bind _ _ (Triple-gets (λ rs ats h. tt) (λ rs ats. fetch_one (has_id i) rs)) λ read.
        Triple-bind _ _ (Triple-found (λ rs ats h. tt) read) λ request.
          Triple-bind _ _ (Triple-gets (λ rs ats h. tt) (λ rs ats. count (is_of i) ats)) λ attempts.
            Triple-bind _ _ (Triple-raise_if (λ rs ats h. tt) _ _) λ _.
              Triple-bind _ _
                (Triple-pre
                  (λ rs ats h. (h.0.0.0.0, fetched i rs request (sym h.0.0.0.1 ∙ h.0.0.1)))
                  (attempt-Triple request outcome retrying case_status_retrying))
                λ updated.
                  Triple-bind _ _ (Triple-gets (λ rs ats h. tt) (λ rs ats. fetch_one (has_id i) rs))
                    λ read_again.
                      Triple-bind _ _ (Triple-gets (λ rs ats h. tt) (λ rs ats. count (is_of i) ats))
                        λ count_again.
                          Triple-bind _ _ (Triple-row (λ rs ats h. tt) read_again) λ refreshed.
                            Triple-pre
                              {p' = λ rs ats.
                                Answered i (n + 1) outcome updated rs ats
                                × ((count_again ≡ n + 1) × (refreshed ≡ updated))}
                              (λ rs ats h. (
                                h.0.0.0,
                                (
                                  h.0.1 ∙ h.0.0.0.2,
                                  some-injective refreshed updated (sym h.1 ∙ h.0.0.1 ∙ h.0.0.0.0),
                                ),
                              ))
                              (Triple-fact λ known.
                                Triple-if _
                                  (λ stop.
                                    Triple-pre
                                      {p' = λ rs ats.
                                        Used i (n + 1) rs ats × IsAnswer outcome updated.status}
                                      (λ rs ats h. (h.2, h.1))
                                      (Triple-fact λ fits.
                                        let (transient, full) =
                                          exhausting outcome updated refreshed count_again (n + 1)
                                            fits known.0 known.1 stop in
                                        give_up-Triple outcome refreshed transient full))
                                  (λ go. Triple-pure updated λ rs ats h. record {
                                    stored = h.0;
                                    used = h.2;
                                    answered = λ _. h.1;
                                    exhausted =
                                        not_exhausting outcome updated refreshed count_again (n + 1)
                                          h.1 known.0 known.1 go;
                                  }))

pub returned_by :
    {A : Type 0} (p : Condition) (q : A → Condition) (m : Action A) (db next : Database) (a : A)
    → Triple p m q Anything
    → p db.execution_requests db.execution_attempts
    → m db ≡ (ok a, next)
    → q a next.execution_requests next.execution_attempts
returned_by p q m db next a t h e =
    subst (λ r. Outcome q Anything r.0 r.1.execution_requests r.1.execution_attempts) e (t.at db h)

-- If execution with the mock provider returns a request, that is the request stored under the
-- identifier, one more attempt of it is stored, and its status is the answer to the simulated
-- outcome.
pub execute_with_mock_provider-Answered :
    (env : Env) (id outcome : String) (db next : Database) (r : ExecutionRequest)
    → execute_with_mock_provider env id outcome db ≡ (ok r, next)
    → Answered id
        (count (is_of id) db.execution_attempts + 1)
        outcome
        r
        next.execution_requests
        next.execution_attempts
execute_with_mock_provider-Answered env id outcome db next r e =
    returned_by _ _ _ db next r (execute-Triple env id _ outcome) refl e

-- If a retry returns a request, that is the request stored under the identifier and one more attempt
-- of it is stored; its status is the answer to the simulated outcome, but for a transient failure of
-- the third attempt, after which it needs manual review.
pub retry_with_mock_provider-Retried :
    (env : Env) (id outcome : String) (db next : Database) (r : ExecutionRequest)
    → retry_with_mock_provider env id outcome db ≡ (ok r, next)
    → Retried id
        (count (is_of id) db.execution_attempts)
        outcome
        r
        next.execution_requests
        next.execution_attempts
retry_with_mock_provider-Retried env id outcome db next r e =
    returned_by _ _ _ db next r (retry-Triple env id _ outcome) refl e
