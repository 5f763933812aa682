-- ===== src/Lifecycle/Updates.antt =====
-- src/execution/execution_service.py: the updates of a request, as steps of it.
use billing_recovery_executi.Common.{
  ℕ, String, Option, none, some, ◌==◌, ◌≡◌, refl, sym, ◌∙◌, ap, arith,
}
use billing_recovery_executi.Table.{fetch_one, touched, fetch_one-update}
use billing_recovery_executi.Database.{Database, ExecutionRequest, Env}
use billing_recovery_executi.Execution.Requests.{
  has_id, get_execution_request_by_id, update_requests, update_execution_request_status,
  mark_execution_reconciled, attach_provider_reference,
}
use billing_recovery_executi.Recovery.{RecoveryForm, attach_if_asked}
use billing_recovery_executi.Rules.ExecutionRules.{
  succeeded, reconciled, manual_action_attach_provider_reference,
}
use billing_recovery_executi.Effects.Respects.{Relation}
use billing_recovery_executi.Effects.Frame.{
  record_audit_event-Respects, update_case_status-Respects,
}
use billing_recovery_executi.Effects.Spec.{
  Condition, Spec, Spec-bind, Spec-keeps, Spec-gets, Spec-pure, Spec-now, Spec-modify, Spec-pre,
  Spec-if,
}
use billing_recovery_executi.Lifecycle.Steps.{Step, reconcile}
use billing_recovery_executi.Lifecycle.Writes.{
  HasStatus, Writes, Known, Known-Frame, Known-from, set-Spec,
}
use billing_recovery_executi.Lifecycle.Runs.{Spec-found}

kept_status :
    (i s : String) (f : ExecutionRequest → ExecutionRequest) (db : Database)
    → ((r : ExecutionRequest) → (f r).execution_request_id ≡ r.execution_request_id)
    → ((r : ExecutionRequest) → (f r).status ≡ r.status)
    → HasStatus i s db
    → HasStatus i s (update_requests i f db)
kept_status i s f db same k h q e = go (fetch_one (has_id i) db.execution_requests) h (
    sym (
      fetch_one-update (has_id i) (has_id i) f db.execution_requests
        (λ r. ap (λ j. j == i) (same r)))
    ∙ e)
  where
    go :
        (o : Option ExecutionRequest)
        → ((r : ExecutionRequest) → o ≡ some r → r.status ≡ s)
        → touched (has_id i) f o ≡ some q
        → q.status ≡ s
    go none holds x = cc
    go (some r) holds x = ground (arith, holds r refl, k r)

module _ {R : Relation} (w : Writes R) (env : Env) (start : Database) (i s : String) (n : ℕ) where
  abbrev Now : String → Condition
  Now t db = Known R start i t n db

  known : (t : String) (db : Database) → Now t db → R start db
  known t = Known-from w start i t n

  pub update_execution_request_status-Spec :
      (t : String)
      → Step s t
      → Spec (Now s) (update_execution_request_status env i t) (λ _. Now t) (R start)
  unfolding update_execution_request_status get_execution_request_by_id
  update_execution_request_status-Spec t st = Spec-bind _ _ (Spec-gets (known s) _) λ o.
      Spec-bind _ _ (Spec-found (λ db h. h.0.from) o) λ r.
        Spec-pre (λ db h. h.0.0)
          (Spec-bind _ _ (set-Spec w env start i s n t none st) λ _.
            Spec-bind _ _
              (Spec-keeps (known t)
                (record_audit_event-Respects env (Known-Frame w start i t n) _ _ _ _ _ _ _))
              λ _. Spec-pure tt λ db h. h)

  pub mark_execution_reconciled-Spec :
      s ≡ succeeded → Spec (Now s) (mark_execution_reconciled env i) (λ _. R start) (R start)
  unfolding mark_execution_reconciled get_execution_request_by_id
  mark_execution_reconciled-Spec e = Spec-bind _ _ (Spec-gets (known s) _) λ o.
      Spec-bind _ _ (Spec-found (λ db h. h.0.from) o) λ r.
        Spec-pre (λ db h. h.0.0)
          (Spec-bind _ _ (set-Spec w env start i s n reconciled none (reconcile e refl)) λ _.
            Spec-bind _ _
              (Spec-keeps (known reconciled)
                (update_case_status-Respects env (Known-Frame w start i reconciled n) _ _))
              λ _.
                Spec-bind _ _
                  (Spec-keeps (known reconciled) (
                    record_audit_event-Respects env (Known-Frame w start i reconciled n) _ _ _ _ _ _
                      _))
                  λ _. Spec-pure tt (known reconciled))

  attach_provider_reference-Spec :
      (reference : String)
      → Spec (Now s) (attach_provider_reference env i reference) (λ _. Now s) (R start)
  unfolding attach_provider_reference get_execution_request_by_id
  attach_provider_reference-Spec reference = Spec-bind _ _ (Spec-gets (known s) _) λ o.
      Spec-bind _ _ (Spec-found (λ db h. h.0.from) o) λ r.
        Spec-pre (λ db h. h.0.0)
          (Spec-bind _ _ (Spec-now env (Known-Frame w start i s n).stable.ticks) λ at.
            Spec-modify _ λ db k. record {
              from = w.frame.stable.both start db _ k.from (w.references i reference at db);
              has_status =
                  kept_status i s
                    (λ r. record r { provider_object_id = some reference; updated_at = at }) db
                    (λ r. refl) (λ r. refl) k.has_status;
              used = k.used;
            })

  pub attach_if_asked-Spec :
      (f : RecoveryForm) → Spec (Now s) (attach_if_asked env i f) (λ _. Now s) (R start)
  unfolding attach_if_asked
  attach_if_asked-Spec f =
      Spec-if (f.action_type == manual_action_attach_provider_reference)
        (λ _. attach_provider_reference-Spec _) (λ _. Spec-pure tt λ db h. h)
