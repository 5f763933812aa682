-- ===== src/Execution/Creation.antt =====
-- src/execution/execution_service.py: `create_execution_request`.
use billing_recovery_executi.Common.{
  Bool, true, false, not, Option, none, some, [], ◌∷◌, ◌++◌, ◌||◌, ◌==◌, fstring,
}
use billing_recovery_executi.Table.{exists}
use billing_recovery_executi.Database.{
  text, int, Database, BillingCase, Approval, ExecutionRequest, Env, Action, value_error, pure,
  raise, row, raise_if, insert, draw_uuid8, now, ◌>>=◌, ◌>>◌,
}
use billing_recovery_executi.Audit.{record_audit_event}
use billing_recovery_executi.Cases.{update_case_status}
use billing_recovery_executi.Approvals.{get_latest_approval}
use billing_recovery_executi.Execution.Idempotency.{generate_idempotency_key}
use billing_recovery_executi.Execution.Requests.{
  get_execution_request_by_id, get_execution_request_by_approval_id,
}
use billing_recovery_executi.Rules.ApprovalRules.{approved}
use billing_recovery_executi.Rules.ExecutionRules.{
  mock_billing_provider, execution_pending, case_status_execution_pending,
}

-- PRIMARY KEY of execution_request_id, and UNIQUE of idempotency_key.
abbrev pub takes_key : ExecutionRequest → Database → Bool
takes_key r db =
    exists
      (λ q.
        q.execution_request_id == r.execution_request_id || q.idempotency_key == r.idempotency_key)
      db.execution_requests

abbrev pub add_request : ExecutionRequest → Database → Database
add_request r db = record db { execution_requests = db.execution_requests ++ r ∷ [] }

module _ (env : Env) where
  -- `if latest_approval is None`, and `if latest_approval["decision"] != APPROVED`
  unfoldable pub approved_decision : Option Approval → Action Approval
  unfolding pure raise
  approved_decision none =
      raise (value_error "Execution request cannot be created before human approval.")
  approved_decision (some a) = do
    raise_if (not (a.decision == approved)) (
        value_error
          "Execution request cannot be created because the latest approval decision is not approved.")
    pure a

  -- What follows where the approval has no execution request yet.
  unfoldable pub create_request : BillingCase → Approval → Action (ExecutionRequest × Bool)
  create_request c approval = do
    let operation_type = approval.approved_action
    let approved_amount_cents = approval.approved_amount_cents
    let idempotency_key =
        generate_idempotency_key c.case_id approval.approval_id operation_type approved_amount_cents
    uuid ← draw_uuid8 env
    let request_id = fstring ("EXE-" ∷ uuid ∷ [])
    at ← now env
    let request : ExecutionRequest = record {
      execution_request_id = request_id;
      case_id = c.case_id;
      approval_id = approval.approval_id;
      operation_type = operation_type;
      provider = mock_billing_provider;
      approved_amount_cents = approved_amount_cents;
      currency = c.currency;
      idempotency_key = idempotency_key;
      status = execution_pending;
      provider_object_id = none;
      created_at = at;
      updated_at = at;
    }
    insert "execution_requests" (takes_key request) (add_request request)
    update_case_status env c.case_id case_status_execution_pending
    record_audit_event env (some c.case_id) "execution_request" request_id
        "execution_request_created" "system" "execution_service"
        (("approval_id", text approval.approval_id)
          ∷ ("operation_type", text operation_type)
          ∷ ("provider", text mock_billing_provider)
          ∷ ("approved_amount_cents", int approved_amount_cents)
          ∷ ("currency", text c.currency)
          ∷ ("idempotency_key", text idempotency_key)
          ∷ ("status", text execution_pending)
          ∷ [])
    created ← get_execution_request_by_id request_id
    stored ← row created
    pure (stored, true)

  unfoldable pub keep_or_create :
      BillingCase → Approval → Option ExecutionRequest → Action (ExecutionRequest × Bool)
  keep_or_create c approval (some existing) = pure (existing, false)
  keep_or_create c approval none = create_request c approval

  unfoldable pub create_execution_request : BillingCase → Action (ExecutionRequest × Bool)
  create_execution_request c = do
    latest ← get_latest_approval env c.case_id
    approval ← approved_decision latest
    existing ← get_execution_request_by_approval_id env approval.approval_id
    keep_or_create c approval existing
