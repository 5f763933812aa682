-- ===== src/Authority/Approvals.antt =====
-- src/approvals/approval_service.py over runs of the console: no approval without a policy that
-- permits it.
use billing_recovery_executi.Common.{List, [], ◌∷◌, ◌++◌}
use billing_recovery_executi.Table.{All}
use billing_recovery_executi.Database.{Database, PolicyEvaluation, Approval, Env}
use billing_recovery_executi.Effects.Respects.{Relation}
use billing_recovery_executi.Effects.Frame.{Frame}
use billing_recovery_executi.Effects.Attempts.{AllUpdates}
use billing_recovery_executi.Effects.Creation.{create_execution_request-Respects}
use billing_recovery_executi.Workflow.{Command, Calls, Calls-of_writes, run, run_respects}
use billing_recovery_executi.Table.{IsRow-append, All-append, All-map}
use billing_recovery_executi.Authority.Decisions.{IsPermitted, create_approval_decision-Permits}

abbrev pub AllPermitted : Database → Type 0
AllPermitted db = All (IsPermitted db.policy_evaluations) db.approvals

abbrev KeepsPermitted : Relation
KeepsPermitted a b = AllPermitted a → AllPermitted b

add_evaluation-IsPermitted :
    (t : List PolicyEvaluation) (e : PolicyEvaluation) (a : Approval)
    → IsPermitted t a
    → IsPermitted (t ++ e ∷ []) a
add_evaluation-IsPermitted t e a h = record {
  evaluation = h.evaluation;
  is_row = IsRow-append t _ _ h.is_row;
  same_evaluation = h.same_evaluation;
  same_case = h.same_case;
  permits = h.permits;
  decided = h.decided;
  amount = h.amount;
}

KeepsPermitted-Frame : Frame KeepsPermitted
KeepsPermitted-Frame = record {
  stable = record { same = λ db h. h; both = λ a b c h k x. k (h x); ticks = λ db h. h };
  cases = λ i s t db h. h;
  evaluations =
      λ e db free h. All-map db.approvals (add_evaluation-IsPermitted db.policy_evaluations e) h;
  payments = λ p db k h. h;
  runs = λ r db k h. h;
  actions = λ a db k h. h;
  briefs = λ b db k h. h;
  events = λ e db k h. h;
}

KeepsPermitted-AllUpdates : AllUpdates KeepsPermitted
KeepsPermitted-AllUpdates = record {
  updates = record { statuses = λ i s o t db k h. h; references = λ i r t db h. h };
  providers = λ i p s t db h. h;
}

KeepsPermitted-Calls : (env : Env) → Calls env KeepsPermitted
KeepsPermitted-Calls env =
    Calls-of_writes env KeepsPermitted-Frame
      (create_approval_decision-Permits env KeepsPermitted-Frame
        (λ a db free p h. All-append _ db.approvals a h p))
      KeepsPermitted-AllUpdates (λ a db h k. k)
      (create_execution_request-Respects env KeepsPermitted-Frame (λ r db h p k. k))

-- No approval is stored without authority: if it holds before, then after any service calls, in any
-- order and whether they return or raise, each stored approval names a stored policy evaluation of
-- its own case, which has found the case eligible, the approver being a billing agent or a finance
-- manager, or found that it requires a manager, the approver being a finance manager; its decision
-- is approved or rejected, and its amount is not negative.
pub run-AllPermitted :
    (env : Env) (cs : List Command) (db : Database) → AllPermitted db → AllPermitted (run env cs db)
run-AllPermitted env cs db h = run_respects env (KeepsPermitted-Calls env) cs db h
