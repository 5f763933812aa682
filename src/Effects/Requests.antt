-- ===== src/Effects/Requests.antt =====
-- The updates of execution requests, reconciliation and manual recovery: they respect whatever the
-- writes to the tables respect.
use billing_recovery_executi.Common.{String, Option, none, some}
use billing_recovery_executi.Database.{ExecutionRequest, Env}
use billing_recovery_executi.Providers.StripeRefunds.{retrieve_refund, lookup_stripe_refund_state}
use billing_recovery_executi.Execution.Requests.{
  get_execution_request_by_id, found, set_execution_request_status, update_execution_request_status,
  mark_execution_reconciled, attach_provider_reference,
}
use billing_recovery_executi.Reconciliation.{
  lookup_for_reconciliation, apply_reconciliation_action, run_reconciliation,
}
use billing_recovery_executi.Recovery.{
  RecoveryForm, validate_manual_recovery_fields, get_new_execution_status,
  update_case_status_after_manual_recovery, attach_if_asked, create_manual_recovery_action,
}
use billing_recovery_executi.Rules.ExecutionRules.{needs_manual_review, reconciled}
use billing_recovery_executi.Effects.Respects.{
  Relation, Respects, respects_rules, Respects-pure, Respects-raise,
}
use billing_recovery_executi.Effects.Frame.{
  Frame, Updates, record_audit_event-Respects, update_case_status-Respects,
}

module _ {R : Relation} (frame : Frame R) where
  pub found-Respects : (o : Option ExecutionRequest) → Respects R (found o)
  unfolding found
  found-Respects none = Respects-raise frame.stable _
  found-Respects (some r) = Respects-pure frame.stable r

module _ {Allowed : String → Type 0} {R : Relation} (env : Env) (frame : Frame R)
    (updates : Updates Allowed R) where
  pub set_execution_request_status-Respects :
      (request_id status : String) (object_id : Option String)
      → Allowed status
      → Respects R (set_execution_request_status env request_id status object_id)
  unfolding set_execution_request_status
  set_execution_request_status-Respects i s o h =
      search (respects_rules, frame.stable, updates.statuses) depth 40

  pub update_execution_request_status-Respects :
      (request_id status : String)
      → Allowed status
      → Respects R (update_execution_request_status env request_id status)
  unfolding update_execution_request_status get_execution_request_by_id
  update_execution_request_status-Respects i s h =
      search
        (
          respects_rules,
          frame.stable,
          found-Respects frame,
          set_execution_request_status-Respects,
          record_audit_event-Respects env frame,
        )
        depth 40

  pub mark_execution_reconciled-Respects :
      (request_id : String)
      → Allowed reconciled
      → Respects R (mark_execution_reconciled env request_id)
  unfolding mark_execution_reconciled get_execution_request_by_id
  mark_execution_reconciled-Respects i h =
      search
        (
          respects_rules,
          frame.stable,
          found-Respects frame,
          set_execution_request_status-Respects,
          record_audit_event-Respects env frame,
          update_case_status-Respects env frame,
        )
        depth 40

  pub attach_provider_reference-Respects :
      (request_id reference : String)
      → Respects R (attach_provider_reference env request_id reference)
  unfolding attach_provider_reference get_execution_request_by_id
  attach_provider_reference-Respects i r =
      search (respects_rules, frame.stable, found-Respects frame, updates.references) depth 40

module _ {R : Relation} (env : Env) (frame : Frame R) where
  pub lookup_for_reconciliation-Respects :
      (r : ExecutionRequest) (simulated mode : Option String)
      → Respects R (lookup_for_reconciliation env r simulated mode)
  unfolding lookup_for_reconciliation lookup_stripe_refund_state retrieve_refund
  lookup_for_reconciliation-Respects r s m = search (respects_rules, frame.stable) depth 40

  pub update_case_status_after_manual_recovery-Respects :
      (case_id action : String)
      → Respects R (update_case_status_after_manual_recovery env case_id action)
  unfolding update_case_status_after_manual_recovery
  update_case_status_after_manual_recovery-Respects c a =
      search (respects_rules, frame.stable, update_case_status-Respects env frame) depth 40

module _ {Allowed : String → Type 0} {R : Relation} (env : Env) (frame : Frame R)
    (updates : Updates Allowed R) where
  apply_reconciliation_action-Respects :
      (r : ExecutionRequest) (action : String)
      → Allowed reconciled
      → Allowed needs_manual_review
      → Respects R (apply_reconciliation_action env r action)
  unfolding apply_reconciliation_action
  apply_reconciliation_action-Respects r a h k =
      search
        (
          respects_rules,
          frame.stable,
          mark_execution_reconciled-Respects env frame updates,
          update_execution_request_status-Respects env frame updates,
          update_case_status-Respects env frame,
        )
        depth 40

  pub run_reconciliation-Respects :
      (request_id : String) (simulated mode : Option String)
      → Allowed reconciled
      → Allowed needs_manual_review
      → Respects R (run_reconciliation env request_id simulated mode)
  unfolding run_reconciliation get_execution_request_by_id
  run_reconciliation-Respects i s m h k =
      search
        (
          respects_rules,
          frame.stable,
          frame.runs,
          found-Respects frame,
          lookup_for_reconciliation-Respects env frame,
          apply_reconciliation_action-Respects,
          record_audit_event-Respects env frame,
        )
        depth 40

  validate_manual_recovery_fields-Respects :
      (f : RecoveryForm) → Respects R (validate_manual_recovery_fields f)
  unfolding validate_manual_recovery_fields
  validate_manual_recovery_fields-Respects f = search (respects_rules, frame.stable) depth 40

  attach_if_asked-Respects :
      (request_id : String) (f : RecoveryForm) → Respects R (attach_if_asked env request_id f)
  unfolding attach_if_asked
  attach_if_asked-Respects i f =
      search (respects_rules, frame.stable, attach_provider_reference-Respects env frame updates)
        depth 40

  pub create_manual_recovery_action-Respects :
      (request_id : String) (f : RecoveryForm)
      → Allowed (get_new_execution_status f.action_type)
      → Respects R (create_manual_recovery_action env request_id f)
  unfolding create_manual_recovery_action get_execution_request_by_id
  create_manual_recovery_action-Respects i f h =
      search
        (
          respects_rules,
          frame.stable,
          frame.actions,
          validate_manual_recovery_fields-Respects,
          attach_if_asked-Respects,
          update_execution_request_status-Respects env frame updates,
          update_case_status_after_manual_recovery-Respects env frame,
          record_audit_event-Respects env frame,
        )
        depth 40
