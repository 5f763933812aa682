-- ===== src/Liveness/Settling.antt =====
-- src/execution/execution_service.py: an execution and two retries of a pending request.
use mathlib.Core.Path.{subst}
use billing_recovery_executi.Common.{
  ℕ, ◌+◌, String, some, List, [], ◌∷◌, ◌≡◌, ◌≢◌, inl, inr, refl, sym, ◌∙◌, ap, arith, ne_of_test,
}
use billing_recovery_executi.Table.{fetch_one, count}
use billing_recovery_executi.Database.{Database, ExecutionRequest, Env}
use billing_recovery_executi.Execution.Requests.{has_id, is_of}
use billing_recovery_executi.Execution.Refusals.{retry-IsRefused}
use billing_recovery_executi.Execution.Runs.{retry_with_mock_provider}
use billing_recovery_executi.Rules.ExecutionRules.{
  execution_pending, succeeded, failed_transient, failed_permanent, needs_manual_review,
}
use billing_recovery_executi.Workflow.{Command, execute_mock, retry, perform, run}
use billing_recovery_executi.Liveness.Fresh.{DrawsDiffer, IsFresh, Stands}
use billing_recovery_executi.Effects.Returns.{ended}
use billing_recovery_executi.Liveness.Runs.{IsSettled, Landed, execute-Landed, retry-Landed}

module _ (env : Env) (distinct : DrawsDiffer env) (i : String) where
  settled-ne-transient : (t : String) → IsSettled t → t ≢ failed_transient
  settled-ne-transient t h = ground (
    arith,
    ne_of_test succeeded failed_transient refl,
    ne_of_test failed_permanent failed_transient refl,
    ne_of_test needs_manual_review failed_transient refl,
  )

  retried :
      (outcome : String) (k : ℕ) (db : Database)
      → Landed env i (k + 1) db
      → Landed env i k (retry_with_mock_provider env i outcome db).1
  retried outcome k db (n, t, stands, inl settled) =
      let refused =
        retry-IsRefused env i db stands.row stands.there outcome
          λ x. settled-ne-transient t settled (sym stands.status ∙ x.0) in
      subst (λ d. Landed env i k d) (sym (ap (λ c. c.1) refused.refused))
        (n, t, stands, inl settled)
  retried outcome k db (n, t, stands, inr (transient, room, enough)) = ended (Landed env i k) _ _ (
      (retry-Landed env distinct i outcome n k room enough).at db
        (subst (λ u. Stands env i u n db) transient stands))

landed_row :
    (env : Env) (i : String) (db : Database)
    → Landed env i 0 db
    → (q : ExecutionRequest) × (fetch_one (has_id i) db.execution_requests ≡ some q)
      × IsSettled q.status
landed_row env i db (n, t, stands, inl settled) =
    (stands.row, stands.there, subst (λ u. IsSettled u) (sym stands.status) settled)
landed_row env i db (n, t, stands, inr (transient, room, enough)) = absurd (omega arith)

-- An execution, and two retries.
abbrev pub two_retries : String → (first second third : String) → List Command
two_retries id first second third = execute_mock id first ∷ retry id second ∷ retry id third ∷ []

-- Where the identifiers that will be drawn differ from each other and from those in the database, a
-- pending request that has not been attempted is settled by its execution with the mock provider and
-- two retries, whatever outcomes are simulated: it is there, and it has succeeded, has failed
-- permanently or needs manual review.
pub run-IsSettled :
    (env : Env) (db : Database) (id : String) (r : ExecutionRequest) (first second third : String)
    → DrawsDiffer env
    → IsFresh env db
    → fetch_one (has_id id) db.execution_requests ≡ some r
    → r.status ≡ execution_pending
    → count (is_of id) db.execution_attempts ≡ 0
    → (q : ExecutionRequest) × (fetch_one
          (has_id id)
          (run env (two_retries id first second third) db).execution_requests
        ≡ some q)
      × IsSettled q.status
unfolding run perform
run-IsSettled env db id r first second third distinct fresh there pending unused =
    landed_row env id _ (
      retried env distinct id third 0 _ (
        retried env distinct id second 1 _ (
          ended (Landed env id 2) _ _ (
            (execute-Landed env distinct id first).at db (record {
              fresh = fresh;
              row = r;
              there = there;
              status = pending;
              used = unused;
            })))))
