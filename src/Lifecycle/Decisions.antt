-- ===== src/Lifecycle/Decisions.antt =====
-- src/reconciliation/reconciliation_service.py and src/recovery/manual_recovery_service.py, as steps
-- of the request that they work on.
use billing_recovery_executi.Common.{
  ℕ, true, false, not, String, Option, none, some, ◌==◌, ◌≡◌, refl, arith, eq_iff,
}
use billing_recovery_executi.Database.{Database, ExecutionRequest, Env}
use billing_recovery_executi.Execution.Requests.{get_execution_request_by_id}
use billing_recovery_executi.Reconciliation.{
  compare_states, evaluate_reconciliation, apply_reconciliation_action, run_reconciliation,
}
use billing_recovery_executi.Reconciliation.Verdicts.{compare_states-action}
use billing_recovery_executi.Recovery.{
  RecoveryForm, can_manually_recover, validate_manual_recovery_fields, get_new_execution_status,
  create_manual_recovery_action,
}
use billing_recovery_executi.Rules.ExecutionRules.{
  needs_manual_review, failed_transient, failed_permanent, recon_action_mark_reconciled,
  recon_action_route_manual_review,
}
use billing_recovery_executi.Effects.Respects.{Relation}
use billing_recovery_executi.Effects.Frame.{
  record_audit_event-Respects, update_case_status-Respects,
}
use billing_recovery_executi.Effects.Requests.{
  lookup_for_reconciliation-Respects, update_case_status_after_manual_recovery-Respects,
}
use billing_recovery_executi.Effects.Spec.{
  Condition, Spec, Spec-bind, Spec-keeps, Spec-gets, Spec-row, Spec-raise_if, Spec-pure, Spec-check,
  Spec-draw_uuid8, Spec-now, Spec-insert, Spec-pre, Spec-post, Spec-fact, Spec-some, Spec-if,
}
use billing_recovery_executi.Lifecycle.Steps.{IsRecoverable, IsRecovered, review, recover}
use billing_recovery_executi.Lifecycle.Writes.{Writes, Known, Known-Frame, Known-from}
use billing_recovery_executi.Lifecycle.Runs.{Known-read, Has, Has-own, Spec-found}
use billing_recovery_executi.Lifecycle.Updates.{
  update_execution_request_status-Spec, mark_execution_reconciled-Spec, attach_if_asked-Spec,
}

new_status : (action : String) → IsRecovered (get_new_execution_status action)
unfolding get_new_execution_status
new_status action = ground arith

allowed :
    (o : Option ExecutionRequest) (r : ExecutionRequest)
    → not (can_manually_recover o).0 ≡ false
    → o ≡ some r
    → IsRecoverable r.status
unfolding can_manually_recover
allowed none r h x = cc
allowed (some q) r h x = ground (
  arith,
  eq_iff r.status failed_transient,
  eq_iff r.status failed_permanent,
  eq_iff r.status needs_manual_review,
)

module _ {R : Relation} (w : Writes R) (env : Env) (start : Database) where
  abbrev From : Condition
  From db = R start db

  is_text : (s t : String) → (s == t) ≡ true → s ≡ t
  is_text s t = (eq_iff s t).0

  apply_reconciliation_action-Spec :
      (r : ExecutionRequest) (n : ℕ) (provider : String)
      → Spec
          (Known R start r.execution_request_id r.status n)
          (apply_reconciliation_action env r (compare_states r.status provider).action_taken)
          (λ _. From)
          From
  unfolding apply_reconciliation_action
  apply_reconciliation_action-Spec r n provider =
      let i = r.execution_request_id in
      let action = (compare_states r.status provider).action_taken in
      let cases = compare_states-action r.status provider in
      Spec-if _
        (λ h.
          mark_execution_reconciled-Spec w env start i r.status n
            (cases.0.0 (is_text action recon_action_mark_reconciled h)).0)
        (λ _.
          Spec-if _
            (λ h.
              Spec-bind _ _
                (update_execution_request_status-Spec w env start i r.status n needs_manual_review
                  (review (cases.1.0 (is_text action recon_action_route_manual_review h)).0 refl))
                λ _.
                  Spec-post _
                    (Spec-keeps (Known-from w start i needs_manual_review n) (
                      update_case_status-Respects env (Known-Frame w start i needs_manual_review n)
                        _ _))
                    λ _ db k. k.from)
            (λ _. Spec-pure tt (Known-from w start i r.status n)))

  pub run_reconciliation-Spec :
      (i : String) (simulated mode : Option String)
      → Spec From (run_reconciliation env i simulated mode) (λ _. From) From
  unfolding run_reconciliation get_execution_request_by_id evaluate_reconciliation
  run_reconciliation-Spec i simulated mode = Spec-bind _ _ (Spec-gets (λ db h. h) _) λ o.
      Spec-bind _ _ (Spec-found (λ db h. h.0) o) λ r.
        Spec-pre (λ db h. Has-own R start i o r db h.0.0 h.0.1 h.1)
          (Spec-some λ n.
            let own = r.execution_request_id in
            let frame = Known-Frame w start own r.status n in
            let known = Known-from w start own r.status n in
            Spec-bind _ _
              (Spec-keeps known (lookup_for_reconciliation-Respects env frame r simulated mode))
              λ lookup. Spec-bind _ _ (Spec-draw_uuid8 env frame.stable.ticks) λ uuid.
                Spec-bind _ _ (Spec-now env frame.stable.ticks) λ at.
                  Spec-bind _ _ (Spec-insert known _ _ _ λ db k free. frame.runs _ db free k) λ _.
                    Spec-bind _ _
                      (Spec-keeps known (record_audit_event-Respects env frame _ _ _ _ _ _ _))
                      λ _.
                        Spec-bind _ _ (apply_reconciliation_action-Spec r n lookup.provider_status)
                          λ _. Spec-pure _ λ db h. h)

  validate_manual_recovery_fields-Spec :
      {p : Condition} (weaken : (db : Database) → p db → From db) (f : RecoveryForm)
      → Spec p (validate_manual_recovery_fields f) (λ _. p) From
  unfolding validate_manual_recovery_fields
  validate_manual_recovery_fields-Spec weaken f = Spec-bind _ _ (Spec-check weaken _ _) λ _.
      Spec-bind _ _ (Spec-check weaken _ _)
        λ _. Spec-bind _ _ (Spec-check weaken _ _) λ _. Spec-check weaken _ _

  pub create_manual_recovery_action-Spec :
      (i : String) (f : RecoveryForm)
      → Spec From (create_manual_recovery_action env i f) (λ _. From) From
  unfolding create_manual_recovery_action get_execution_request_by_id
  create_manual_recovery_action-Spec i f = Spec-bind _ _ (Spec-gets (λ db h. h) _) λ o.
      Spec-bind _ _ (Spec-raise_if (λ db h. h.0) _ _) λ _.
        Spec-bind _ _ (validate_manual_recovery_fields-Spec (λ db h. h.0.0) f) λ _.
          Spec-bind _ _ (Spec-row (λ db h. h.0.0) o) λ r.
            Spec-pre {p' = λ db. Has R start i r.status db × IsRecoverable r.status}
              (λ db h.
                ((_, Known-read R start i o r db h.0.0.0 h.0.0.1 h.1), allowed o r h.0.1 h.1))
              (Spec-fact λ eligible. Spec-some λ n.
                let t = get_new_execution_status f.action_type in
                let before = Known-Frame w start i r.status n in
                let after = Known-Frame w start i t n in
                let known = Known-from w start i t n in
                Spec-bind _ _ (Spec-draw_uuid8 env before.stable.ticks) λ uuid.
                  Spec-bind _ _ (attach_if_asked-Spec w env start i r.status n f) λ _.
                    Spec-bind _ _
                      (update_execution_request_status-Spec w env start i r.status n t
                        (recover eligible (new_status f.action_type)))
                      λ _.
                        Spec-bind _ _
                          (Spec-keeps known
                            (update_case_status_after_manual_recovery-Respects env after _ _))
                          λ _. Spec-bind _ _ (Spec-now env after.stable.ticks) λ at.
                            Spec-bind _ _
                              (Spec-insert known _ _ _ λ db k free. after.actions _ db free k)
                              λ _.
                                Spec-bind _ _
                                  (Spec-keeps known
                                    (record_audit_event-Respects env after _ _ _ _ _ _ _))
                                  λ _. Spec-pure _ known)
