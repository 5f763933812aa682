-- ===== src/Safety/Calls.antt =====
-- Every service call keeps the limits on attempts.
use billing_recovery_executi.Common.{
  ℕ, false, String, Option, none, some, List, [], ◌∷◌, ◌++◌, ◌==◌, ◌≡◌, ◌≢◌, refl, arith, ap,
  ne_of_test,
}
use billing_recovery_executi.Table.{
  fetch_one, update, touched, fetch_one-update, fetch_one_of_free, exists-or,
}
use billing_recovery_executi.Database.{Database, ExecutionRequest, Env}
use billing_recovery_executi.Execution.Requests.{has_id, with_status}
use billing_recovery_executi.Execution.Creation.{takes_key}
use billing_recovery_executi.Recovery.{get_new_execution_status}
use billing_recovery_executi.Rules.ExecutionRules.{
  execution_pending, failed_transient, needs_manual_review, reconciled, manually_resolved,
  cancelled, manual_action_reopen_for_investigation,
}
use billing_recovery_executi.Effects.Respects.{Relation}
use billing_recovery_executi.Effects.Frame.{create_approval_decision-Respects, Frame, Updates}
use billing_recovery_executi.Effects.Requests.{
  run_reconciliation-Respects, create_manual_recovery_action-Respects,
}
use billing_recovery_executi.Effects.Creation.{create_execution_request-Respects}
use billing_recovery_executi.Workflow.{Command, Calls, run, run_respects}
use billing_recovery_executi.Safety.Triple.{Requests, Attempts, Respects-of_Triple}
use billing_recovery_executi.Safety.Tables.{
  IsSafe, RequestIsSafe, update-IsSafe, add_request-IsSafe,
}
use billing_recovery_executi.Safety.Runs.{mock-Triple, stripe-Triple, retry-Triple}

abbrev pub KeepsSafe : Relation
KeepsSafe a b =
    IsSafe a.execution_requests a.execution_attempts
    → IsSafe b.execution_requests b.execution_attempts

KeepsSafe-Frame : Frame KeepsSafe
KeepsSafe-Frame = record {
  stable = record { same = λ db h. h; both = λ a b c h k x. k (h x); ticks = λ db h. h };
  cases = λ i s t db h. h;
  evaluations = λ e db k h. h;
  payments = λ p db k h. h;
  runs = λ r db k h. h;
  actions = λ a db k h. h;
  briefs = λ b db k h. h;
  events = λ e db k h. h;
}

-- The statuses that no attempt follows.
abbrev IsSettled : String → Type 0
IsSettled st = (st ≢ execution_pending) × (st ≢ failed_transient)

new_status-IsSettled : (action : String) → IsSettled (get_new_execution_status action)
unfolding get_new_execution_status
new_status-IsSettled action = (
  ground (
    arith,
    ne_of_test manually_resolved execution_pending refl,
    ne_of_test cancelled execution_pending refl,
    ne_of_test manual_action_reopen_for_investigation execution_pending refl,
  ),
  ground (
    arith,
    ne_of_test manually_resolved failed_transient refl,
    ne_of_test cancelled failed_transient refl,
    ne_of_test manual_action_reopen_for_investigation failed_transient refl,
  ),
)

same_row-IsSafe :
    (i : String) (f : ExecutionRequest → ExecutionRequest) (rs : Requests) (ats : Attempts)
    → ((r : ExecutionRequest) → (f r).execution_request_id ≡ r.execution_request_id)
    → ((r : ExecutionRequest) → (f r).status ≡ r.status)
    → IsSafe rs ats
    → IsSafe (update (has_id i) f rs) ats
same_row-IsSafe i f rs ats same k h = record {
  at = λ id.
      rw (fetch_one-update (has_id id) (has_id i) f rs (λ r. ap (λ j. j == id) (same r)))
        (go (fetch_one (has_id id) rs) _ _ (h.at id));
}
  where
    go :
        (o : Option ExecutionRequest) (n s : ℕ)
        → RequestIsSafe o n s
        → RequestIsSafe (touched (has_id i) f o) n s
    go none n s x = x
    go (some r) n s x = ground (arith, k r)

KeepsSafe-Updates : Updates IsSettled KeepsSafe
KeepsSafe-Updates = record {
  statuses = λ i s o t db settled h.
      update-IsSafe (with_status s o t) s i db.execution_requests db.execution_attempts h
        (λ r. ground arith) (λ r. ground arith) (λ x. absurd (settled.0 x))
        (λ x. absurd (settled.1 x));
  references = λ i r t db h.
      same_row-IsSafe i _ db.execution_requests db.execution_attempts (λ q. refl) (λ q. refl) h;
}

adds_safely :
    (r : ExecutionRequest) (db : Database)
    → takes_key r db ≡ false
    → r.status ≡ execution_pending
    → IsSafe db.execution_requests db.execution_attempts
    → IsSafe (db.execution_requests ++ r ∷ []) db.execution_attempts
adds_safely r db free p h = add_request-IsSafe db.execution_requests db.execution_attempts r h (
    fetch_one_of_free (has_id r.execution_request_id) db.execution_requests
      (exists-or (has_id r.execution_request_id) (λ q. q.idempotency_key == r.idempotency_key)
        db.execution_requests free).0)

KeepsSafe-Calls : (env : Env) → Calls env KeepsSafe
KeepsSafe-Calls env =
    let reviewed : IsSettled needs_manual_review = (
      ne_of_test needs_manual_review execution_pending refl,
      ne_of_test needs_manual_review failed_transient refl,
    ) in
    let done : IsSettled reconciled =
      (ne_of_test reconciled execution_pending refl, ne_of_test reconciled failed_transient refl) in
    record {
      frame = KeepsSafe-Frame;
      decides = create_approval_decision-Respects env KeepsSafe-Frame (λ a db k h. h);
      creates = create_execution_request-Respects env KeepsSafe-Frame adds_safely;
      executes_mock = λ i o. Respects-of_Triple IsSafe _ (mock-Triple env i o);
      executes_stripe = λ i m. Respects-of_Triple IsSafe _ (stripe-Triple env i m);
      retries = λ i o. Respects-of_Triple IsSafe _ (retry-Triple env i o);
      reconciles = λ i s m.
          run_reconciliation-Respects env KeepsSafe-Frame KeepsSafe-Updates i s m done reviewed;
      recovers = λ i f.
          create_manual_recovery_action-Respects env KeepsSafe-Frame KeepsSafe-Updates i f
            (new_status-IsSettled f.action_type);
    }

-- The limits on attempts are an invariant of the console: if they hold before, they hold after any
-- service calls, in any order and whether they return or raise. For each identifier with no
-- execution request there is no attempt; for each request there are at most three attempts, of
-- which at most one succeeded, none while it is pending, and none that succeeded while it is
-- failed_transient, the only status from which it can be retried.
pub run-IsSafe :
    (env : Env) (cs : List Command) (db : Database)
    → IsSafe db.execution_requests db.execution_attempts
    → IsSafe (run env cs db).execution_requests (run env cs db).execution_attempts
run-IsSafe env cs db h = run_respects env (KeepsSafe-Calls env) cs db h
