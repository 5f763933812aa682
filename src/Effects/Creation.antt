-- ===== src/Effects/Creation.antt =====
-- The creation of execution requests respects whatever the writes to the tables respect.
use billing_recovery_executi.Common.{Option, none, some, false, ◌≡◌}
use billing_recovery_executi.Database.{Database, BillingCase, Approval, ExecutionRequest, Env}
use billing_recovery_executi.Approvals.{get_latest_approval}
use billing_recovery_executi.Execution.Requests.{
  get_execution_request_by_id, get_execution_request_by_approval_id,
}
use billing_recovery_executi.Execution.Creation.{
  takes_key, add_request, approved_decision, create_request, keep_or_create,
  create_execution_request,
}
use billing_recovery_executi.Rules.ExecutionRules.{execution_pending}
use billing_recovery_executi.Effects.Respects.{
  Relation, Respects, respects_rules, Respects-pure, Respects-raise,
}
use billing_recovery_executi.Effects.Frame.{
  Frame, record_audit_event-Respects, update_case_status-Respects,
}

-- A new request is pending, has no provider object, and its keys are free.
abbrev pub AddsRequests : Relation → Type 0
AddsRequests R =
    (r : ExecutionRequest) (db : Database)
    → takes_key r db ≡ false
    → r.status ≡ execution_pending
    → R db (add_request r db)

module _ {R : Relation} (env : Env) (frame : Frame R) (adds : AddsRequests R) where
  approved_decision-Respects : (o : Option Approval) → Respects R (approved_decision env o)
  unfolding approved_decision
  approved_decision-Respects none = Respects-raise frame.stable _
  approved_decision-Respects (some a) = search (respects_rules, frame.stable) depth 40

  pub create_request-Respects :
      (c : BillingCase) (a : Approval) → Respects R (create_request env c a)
  unfolding create_request get_execution_request_by_id
  create_request-Respects c a =
      search
        (
          respects_rules,
          frame.stable,
          adds,
          record_audit_event-Respects env frame,
          update_case_status-Respects env frame,
        )
        depth 60

  keep_or_create-Respects :
      (c : BillingCase) (a : Approval) (o : Option ExecutionRequest)
      → Respects R (keep_or_create env c a o)
  unfolding keep_or_create
  keep_or_create-Respects c a none = create_request-Respects c a
  keep_or_create-Respects c a (some r) = Respects-pure frame.stable _

  pub create_execution_request-Respects :
      (c : BillingCase) → Respects R (create_execution_request env c)
  unfolding create_execution_request get_latest_approval get_execution_request_by_approval_id
  create_execution_request-Respects c =
      search (respects_rules, frame.stable, approved_decision-Respects, keep_or_create-Respects)
        depth 40
