-- ===== src/Tests/Runs.antt =====
-- The theorems on runs of commands, at concrete inputs.
use billing_recovery_executi.Common.{
  ℕ, zero, suc, String, List, [], ◌∷◌, ◌++◌, ◌≡◌, inl, refl, ap, some, none,
}
use billing_recovery_executi.Table.{fetch_one}
use billing_recovery_executi.Database.{Database, ExecutionRequest, Env}
use billing_recovery_executi.Execution.Requests.{has_id}
use billing_recovery_executi.Rules.ExecutionRules.{reconciled}
use billing_recovery_executi.Workflow.{Command, run}
use billing_recovery_executi.Metrics.Counts.{attempt_metrics}
use billing_recovery_executi.Metrics.Totals.{AddsUp, run-AddsUp}
use billing_recovery_executi.Lifecycle.Refinement.{Advances, run-Advances, run-reconciled}
use billing_recovery_executi.Lifecycle.Ledger.{IsLedger, IsLedger-nil, run-IsLedger}
use billing_recovery_executi.Lifecycle.Statuses.{AllKnown, run-AllKnown}
use billing_recovery_executi.Liveness.Runs.{IsSettled}
use billing_recovery_executi.Liveness.Settling.{two_retries, run-IsSettled}
use billing_recovery_executi.Tests.Inputs.{
  demo, fresh, preparation, attempts, request_with, with_request, recovery,
}

abbrev session : List Command
session = preparation ++ attempts

-- An execution, two retries, a reconciliation and a recovery.
abbrev retries : String → List Command
retries id =
    Command.execute_mock id "transient_failure"
    ∷ Command.retry id "timeout"
    ∷ Command.reconcile id none none
    ∷ Command.recover id recovery
    ∷ []

abbrev pending : Database
pending = with_request "execution_pending"

run-Advances_example : Advances pending (run demo (retries "EXE-1") pending)
run-Advances_example = run-Advances demo (retries "EXE-1") pending

abbrev verified : Database
verified = with_request "reconciled"

run-reconciled_example :
    (q : ExecutionRequest) × (fetch_one
        (has_id "EXE-1")
        (run demo (retries "EXE-1") verified).execution_requests
      ≡ some q)
    × (q.status ≡ reconciled)
run-reconciled_example =
    run-reconciled demo (retries "EXE-1") verified "EXE-1" (request_with "reconciled") refl refl

run-IsLedger_example : IsLedger (run demo session fresh).execution_attempts
run-IsLedger_example = run-IsLedger demo session fresh IsLedger-nil

run-AddsUp_example : AddsUp (attempt_metrics (run demo session fresh).execution_attempts)
unfolding attempt_metrics
run-AddsUp_example = run-AddsUp demo session fresh refl

run-AllKnown_example : AllKnown (run demo (retries "EXE-1") pending).execution_requests
run-AllKnown_example = run-AllKnown demo (retries "EXE-1") pending (inl refl, tt)

-- A new identifier at each draw.
abbrev tally : ℕ → String
tally zero = String.[]
tally (suc n) = String.◌∷◌ "A" (tally n)

tally-injective : (t u : ℕ) → tally t ≡ tally u → t ≡ u
tally-injective zero zero h = refl
tally-injective zero (suc u) h = absurd cc
tally-injective (suc t) zero h = absurd cc
tally-injective (suc t) (suc u) h =
    let same : tally t ≡ tally u = cc in ap suc (tally-injective t u same)

abbrev counting : Env
counting = record demo { uuid8 = tally }

run-IsSettled_example :
    (q : ExecutionRequest) × (fetch_one
        (has_id "EXE-1")
        (run counting
          (two_retries "EXE-1" "transient_failure" "timeout" "success")
          pending).execution_requests
      ≡ some q)
    × IsSettled q.status
run-IsSettled_example =
    run-IsSettled counting pending "EXE-1" (request_with "execution_pending") "transient_failure"
      "timeout" "success" tally-injective (record { attempts = λ t h. refl; events = λ t h. refl })
      refl refl refl
