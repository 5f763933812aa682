-- ===== src/Authority/Requests.antt =====
-- src/execution/execution_service.py over runs of the console: no execution request without an
-- approval that covers it.
use billing_recovery_executi.Common.{String, List, [], ◌∷◌, ◌++◌, arith, ◌∙◌}
use billing_recovery_executi.Table.{All}
use billing_recovery_executi.Database.{Database, Approval, ExecutionRequest, Env}
use billing_recovery_executi.Execution.Requests.{has_id, update_requests}
use billing_recovery_executi.Effects.Respects.{Relation}
use billing_recovery_executi.Effects.Frame.{Frame, create_approval_decision-Respects}
use billing_recovery_executi.Effects.Attempts.{AllUpdates}
use billing_recovery_executi.Workflow.Requests.{SameTerms, KeepsTerms, with_status-KeepsTerms}
use billing_recovery_executi.Workflow.{Command, Calls, Calls-of_writes, run, run_respects}
use billing_recovery_executi.Table.{IsRow-append, All-append, All-update, All-map}
use billing_recovery_executi.Authority.Creation.{IsCovered, create_execution_request-Grounds}

abbrev pub AllCovered : Database → Type 0
AllCovered db = All (IsCovered db.approvals) db.execution_requests

abbrev KeepsCovered : Relation
KeepsCovered a b = AllCovered a → AllCovered b

add_approval-IsCovered :
    (t : List Approval) (a : Approval) (r : ExecutionRequest)
    → IsCovered t r
    → IsCovered (t ++ a ∷ []) r
add_approval-IsCovered t a r h = record {
  approval = h.approval;
  is_row = IsRow-append t _ _ h.is_row;
  is_approved = h.is_approved;
  same_approval = h.same_approval;
  same_case = h.same_case;
  same_action = h.same_action;
  same_amount = h.same_amount;
  own_key = h.own_key;
}

SameTerms-IsCovered :
    (t : List Approval) (r q : ExecutionRequest) → SameTerms r q → IsCovered t r → IsCovered t q
SameTerms-IsCovered t r q s h = record {
  approval = h.approval;
  is_row = h.is_row;
  is_approved = h.is_approved;
  same_approval = s.same_approval ∙ h.same_approval;
  same_case = s.same_case ∙ h.same_case;
  same_action = s.same_operation ∙ h.same_action;
  same_amount = s.same_amount ∙ h.same_amount;
  own_key =
      cc (s.same_approval, s.same_case, s.same_operation, s.same_amount, s.same_key, h.own_key);
}

covered_update :
    (i : String) (f : ExecutionRequest → ExecutionRequest) (db : Database)
    → KeepsTerms f
    → AllCovered db
    → AllCovered (update_requests i f db)
covered_update i f db same h =
    All-update _ (has_id i) f db.execution_requests
      (λ r k. SameTerms-IsCovered db.approvals r (f r) (same r) k) h

KeepsCovered-Frame : Frame KeepsCovered
KeepsCovered-Frame = record {
  stable = record { same = λ db h. h; both = λ a b c h k x. k (h x); ticks = λ db h. h };
  cases = λ i s t db h. h;
  evaluations = λ e db free h. h;
  payments = λ p db k h. h;
  runs = λ r db k h. h;
  actions = λ a db k h. h;
  briefs = λ b db k h. h;
  events = λ e db k h. h;
}

KeepsCovered-AllUpdates : AllUpdates KeepsCovered
KeepsCovered-AllUpdates = record {
  updates = record {
    statuses = λ i s o t db k. covered_update i _ db (with_status-KeepsTerms s o t);
    references = λ i r t db. covered_update i _ db (λ q. ground arith);
  };
  providers = λ i p s t db. covered_update i _ db (λ q. ground arith);
}

KeepsCovered-Calls : (env : Env) → Calls env KeepsCovered
KeepsCovered-Calls env =
    Calls-of_writes env KeepsCovered-Frame
      (create_approval_decision-Respects env KeepsCovered-Frame
        (λ a db free h. All-map db.execution_requests (add_approval-IsCovered db.approvals a) h))
      KeepsCovered-AllUpdates (λ a db h k. k)
      (create_execution_request-Grounds env KeepsCovered-Frame
        (λ r db g h. All-append _ db.execution_requests r h g.covered))

-- No request is executed without approval: if it holds before, then after any service calls, in any
-- order and whether they return or raise, each execution request names a stored approval whose
-- decision is approved, has that approval's case, action and amount, and has the idempotency key
-- that is made from its own case, approval, action and amount.
pub run-AllCovered :
    (env : Env) (cs : List Command) (db : Database) → AllCovered db → AllCovered (run env cs db)
run-AllCovered env cs db h = run_respects env (KeepsCovered-Calls env) cs db h
