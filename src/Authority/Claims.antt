-- ===== src/Authority/Claims.antt =====
-- src/execution/execution_service.py over runs of the console: an approval is spent at most once.
use mathlib.Core.Path.{subst}
use billing_recovery_executi.Common.{
  ◌≤◌, String, List, ◌==◌, ◌≡◌, ap, arith, eq_iff, inl, inr, Bool-cases,
}
use billing_recovery_executi.Table.{count, count-append, count-update}
use billing_recovery_executi.Database.{Database, ExecutionRequest, Env, PicksLatest}
use billing_recovery_executi.Execution.Requests.{has_id, update_requests}
use billing_recovery_executi.Execution.Creation.{add_request}
use billing_recovery_executi.Effects.Respects.{Relation}
use billing_recovery_executi.Effects.Frame.{Frame, create_approval_decision-Respects}
use billing_recovery_executi.Effects.Attempts.{AllUpdates}
use billing_recovery_executi.Workflow.Requests.{KeepsTerms, with_status-KeepsTerms}
use billing_recovery_executi.Workflow.{Command, Calls, Calls-of_writes, run, run_respects}
use billing_recovery_executi.Authority.Creation.{
  claims, unclaimed-count, create_execution_request-Grounds,
}

-- At most one execution request names the approval.
pub record ClaimsOnce (db : Database) : Type 0 where
  pub at : (approval_id : String) → count (claims approval_id) db.execution_requests ≤ 1

abbrev KeepsClaims : Relation
KeepsClaims a b = ClaimsOnce a → ClaimsOnce b

update_requests-ClaimsOnce :
    (i : String) (f : ExecutionRequest → ExecutionRequest) (db : Database)
    → KeepsTerms f
    → ClaimsOnce db
    → ClaimsOnce (update_requests i f db)
update_requests-ClaimsOnce i f db same h = record {
  at = λ id.
      rw
        (count-update (claims id) (has_id i) f db.execution_requests
          (λ r. ap (λ x. x == id) (same r).same_approval))
        (h.at id);
}

add_request-ClaimsOnce :
    (r : ExecutionRequest) (db : Database)
    → count (claims r.approval_id) db.execution_requests ≡ 0
    → ClaimsOnce db
    → ClaimsOnce (add_request r db)
add_request-ClaimsOnce r db free h = record {
  at = λ id.
      rw (count-append (claims id) db.execution_requests r) (elim (Bool-cases (claims id r)) [
        | inl e ↦
            rw
              (
                e,
                subst (λ j. count (claims j) db.execution_requests ≡ 0)
                    ((eq_iff r.approval_id id).0 e) free,
              )
              (omega arith)
        | inr e ↦ rw e (omega (arith, h.at id))
      ]);
}

KeepsClaims-Frame : Frame KeepsClaims
KeepsClaims-Frame = record {
  stable = record {
    same = λ db h. h;
    both = λ a b c h k x. k (h x);
    ticks = λ db h. record { at = h.at };
  };
  cases = λ i s t db h. record { at = h.at };
  evaluations = λ e db free h. record { at = h.at };
  payments = λ p db k h. record { at = h.at };
  runs = λ r db k h. record { at = h.at };
  actions = λ a db k h. record { at = h.at };
  briefs = λ b db k h. record { at = h.at };
  events = λ e db k h. record { at = h.at };
}

KeepsClaims-AllUpdates : AllUpdates KeepsClaims
KeepsClaims-AllUpdates = record {
  updates = record {
    statuses = λ i s o t db k. update_requests-ClaimsOnce i _ db (with_status-KeepsTerms s o t);
    references = λ i r t db. update_requests-ClaimsOnce i _ db (λ q. ground arith);
  };
  providers = λ i p s t db. update_requests-ClaimsOnce i _ db (λ q. ground arith);
}

KeepsClaims-Calls : (env : Env) → PicksLatest env → Calls env KeepsClaims
KeepsClaims-Calls env picks =
    Calls-of_writes env KeepsClaims-Frame
      (create_approval_decision-Respects env KeepsClaims-Frame
        (λ a db free h. record { at = h.at }))
      KeepsClaims-AllUpdates (λ a db h k. record { at = k.at })
      (create_execution_request-Grounds env KeepsClaims-Frame (λ r db g h.
        add_request-ClaimsOnce r db
          (unclaimed-count env picks (claims r.approval_id) db.execution_requests g.unclaimed) h))

-- An approval is spent at most once: where ORDER BY created_at DESC LIMIT 1 picks a row with the
-- latest time, if at most one execution request names each approval before, then so it is after any
-- service calls, in any order and whether they return or raise.
pub run-ClaimsOnce :
    (env : Env) (picks : PicksLatest env) (cs : List Command) (db : Database)
    → ClaimsOnce db
    → ClaimsOnce (run env cs db)
run-ClaimsOnce env picks cs db h = run_respects env (KeepsClaims-Calls env picks) cs db h
