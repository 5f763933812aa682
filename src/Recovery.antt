-- ===== src/Recovery.antt =====
-- src/recovery/manual_recovery_service.py: manual recovery by an operator.
pub mod Refusals
use billing_recovery_executi.Common.{
  String, Bool, true, false, not, Option, none, some, [], ◌∷◌, ◌++◌, ◌==◌, ◌&&◌, is_in, is_blank,
  truthy, text_or, strip, if◌then◌else◌, fstring,
}
use billing_recovery_executi.Table.{exists}
use billing_recovery_executi.Database.{
  text, optional, Database, ExecutionRequest, ManualRecoveryAction, Env, Action, value_error, pure,
  row, raise_if, insert, draw_uuid8, now, ◌>>=◌, ◌>>◌,
}
use billing_recovery_executi.Audit.{record_audit_event}
use billing_recovery_executi.Cases.{update_case_status}
use billing_recovery_executi.Execution.Requests.{
  get_execution_request_by_id, update_execution_request_status, attach_provider_reference,
}
use billing_recovery_executi.Rules.ExecutionRules.{
  case_status_cancelled, case_status_manually_resolved, case_status_under_review, cancelled,
  manual_action_attach_provider_reference, manual_action_cancel_execution,
  manual_action_mark_resolved, manual_action_reopen_for_investigation, manual_recovery_actions,
  manual_recovery_eligible_statuses, manually_resolved,
}

unfoldable pub can_manually_recover : Option ExecutionRequest → Bool × String
can_manually_recover none = (false, "Create an execution request before manual recovery.")
can_manually_recover (some r) =
    if is_in r.status manual_recovery_eligible_statuses
    then (
      true,
      "This execution is eligible for manual recovery because it is failed, unresolved, or needs manual review.",
    )
    else (false, fstring ("Manual recovery is not available from status: " ∷ r.status ∷ "." ∷ []))

-- What an operator fills in; a name or rationale that is missing is empty, which is treated alike.
pub record RecoveryForm : Type 0 where
  pub action_type : String
  pub operator_name : String
  pub rationale : String
  pub provider_reference_id : Option String

unfoldable pub validate_manual_recovery_fields : RecoveryForm → Action (Unit {0})
validate_manual_recovery_fields f = do
  raise_if (not (is_in f.action_type manual_recovery_actions))
      (value_error "Unsupported manual recovery action.")
  raise_if (is_blank f.operator_name) (value_error "Operator name is required.")
  raise_if (is_blank f.rationale) (value_error "Manual recovery rationale is required.")
  raise_if
      (f.action_type == manual_action_attach_provider_reference
        && is_blank (text_or f.provider_reference_id ""))
      (value_error "Provider reference ID is required when attaching a provider reference.")

unfoldable pub get_new_execution_status : String → String
get_new_execution_status action_type =
    if is_in action_type
      (manual_action_mark_resolved ∷ manual_action_attach_provider_reference ∷ [])
    then manually_resolved
    else if action_type == manual_action_cancel_execution
    then cancelled
    else if action_type == manual_action_reopen_for_investigation
    then manual_action_reopen_for_investigation
    else manually_resolved

-- `provider_reference_id.strip() if provider_reference_id else None`
abbrev stripped_reference : Option String → Option String
stripped_reference reference =
    if truthy reference then some (strip (text_or reference "")) else none

abbrev pub has_action : String → Database → Bool
has_action recovery_id db =
    exists (λ a. a.manual_recovery_id == recovery_id) db.manual_recovery_actions

abbrev pub add_action : ManualRecoveryAction → Database → Database
add_action a db = record db { manual_recovery_actions = db.manual_recovery_actions ++ a ∷ [] }

module _ (env : Env) where
  unfoldable pub update_case_status_after_manual_recovery : String → String → Action (Unit {0})
  update_case_status_after_manual_recovery case_id action_type =
      if is_in action_type
        (manual_action_mark_resolved ∷ manual_action_attach_provider_reference ∷ [])
      then update_case_status env case_id case_status_manually_resolved
      else if action_type == manual_action_cancel_execution
      then update_case_status env case_id case_status_cancelled
      else if action_type == manual_action_reopen_for_investigation
      then update_case_status env case_id case_status_under_review
      else pure tt

  -- `if action_type == MANUAL_ACTION_ATTACH_PROVIDER_REFERENCE`
  unfoldable pub attach_if_asked : String → RecoveryForm → Action (Unit {0})
  attach_if_asked request_id f =
      if f.action_type == manual_action_attach_provider_reference
      then attach_provider_reference env request_id (strip (text_or f.provider_reference_id ""))
      else pure tt

  -- The dictionary that is returned is the row without its time.
  unfoldable pub create_manual_recovery_action : String → RecoveryForm → Action ManualRecoveryAction
  create_manual_recovery_action request_id f = do
    read ← get_execution_request_by_id request_id
    let (allowed, reason) = can_manually_recover read
    raise_if (not allowed) (value_error reason)
    validate_manual_recovery_fields f
    request ← row read
    let previous_status = request.status
    let new_status = get_new_execution_status f.action_type
    uuid ← draw_uuid8 env
    let recovery_id = fstring ("MAN-" ∷ uuid ∷ [])
    attach_if_asked request_id f
    update_execution_request_status env request_id new_status
    update_case_status_after_manual_recovery request.case_id f.action_type
    at ← now env
    let action : ManualRecoveryAction = record {
      manual_recovery_id = recovery_id;
      execution_request_id = request_id;
      action_type = f.action_type;
      operator_name = strip f.operator_name;
      rationale = strip f.rationale;
      provider_reference_id = stripped_reference f.provider_reference_id;
      previous_execution_status = previous_status;
      new_execution_status = new_status;
      created_at = at;
    }
    insert "manual_recovery_actions.manual_recovery_id" (has_action recovery_id) (add_action action)
    record_audit_event env (some request.case_id) "manual_recovery_action" recovery_id
        "manual_recovery_recorded" "operator" (strip f.operator_name)
        (("execution_request_id", text request_id)
          ∷ ("action_type", text f.action_type)
          ∷ ("provider_reference_id", optional (stripped_reference f.provider_reference_id))
          ∷ ("previous_execution_status", text previous_status)
          ∷ ("new_execution_status", text new_status)
          ∷ ("rationale", text (strip f.rationale))
          ∷ [])
    pure action
