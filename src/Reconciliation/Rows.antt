-- ===== src/Reconciliation/Rows.antt =====
-- src/reconciliation/reconciliation_service.py: what is known of a request and of the runs while a
-- reconciliation works on them.
use mathlib.Core.Path.{subst}
use billing_recovery_executi.Common.{
  ℕ, Bool, String, Option, none, some, false, List, ◌==◌, ◌≡◌, refl, sym, ◌∙◌, ap, arith,
  if◌then◌else◌, true,
}
use billing_recovery_executi.Table.{fetch_one, touched, fetch_one-update, fetch_one_holds}
use billing_recovery_executi.Database.{
  Json, Database, ExecutionRequest, ReconciliationRun, AuditEvent, Env, pure, ◌>>◌,
}
use billing_recovery_executi.Audit.{has_event, add_event, record_audit_event}
use billing_recovery_executi.Cases.{update_case_status, set_case_status}
use billing_recovery_executi.Providers.StripeRefunds.{retrieve_refund, lookup_stripe_refund_state}
use billing_recovery_executi.Execution.Requests.{
  has_id, with_status, get_execution_request_by_id, set_execution_request_status,
  update_execution_request_status, mark_execution_reconciled,
}
use billing_recovery_executi.Reconciliation.{lookup_for_reconciliation, apply_reconciliation_action}
use billing_recovery_executi.Rules.ExecutionRules.{
  reconciled, needs_manual_review, recon_action_mark_reconciled, recon_action_route_manual_review,
  case_status_needs_manual_review,
}
use billing_recovery_executi.Effects.Respects.{Relation, Respects, IsStable, respects_rules}
use billing_recovery_executi.Effects.Spec.{
  Condition, Spec, Spec-bind, Spec-keeps, Spec-gets, Spec-modify, Spec-pure, Spec-pre, Spec-now,
}
use billing_recovery_executi.Lifecycle.Runs.{Spec-found}

abbrev pub Anything : Condition
Anything db = Unit {0}

-- The request `i` is there with the status `s`, and `runs` are the reconciliation runs.
pub record Row (i s : String) (runs : List ReconciliationRun) (db : Database) : Type 0 where
  pub request : ExecutionRequest
  pub there : fetch_one (has_id i) db.execution_requests ≡ some request
  pub status : request.status ≡ s
  pub same_runs : db.reconciliation_runs ≡ runs

-- The status that an action leaves.
abbrev pub status_after : String → String → String
status_after s action =
    if action == recon_action_mark_reconciled
    then reconciled
    else if action == recon_action_route_manual_review
    then needs_manual_review
    else s

module _ (i s : String) (runs : List ReconciliationRun) where
  abbrev pub Keeps : Relation
  Keeps a b = Row i s runs a → Row i s runs b

  same_row :
      (a b : Database)
      → (b.execution_requests ≡ a.execution_requests)
      → (b.reconciliation_runs ≡ a.reconciliation_runs)
      → Keeps a b
  same_row a b e k h = record {
    request = h.request;
    there = ap (fetch_one (has_id i)) e ∙ h.there;
    status = h.status;
    same_runs = k ∙ h.same_runs;
  }

  pub Keeps-IsStable : IsStable Keeps
  Keeps-IsStable = record {
    same = λ db h. h;
    both = λ a b c h k x. k (h x);
    ticks = λ db. same_row db _ refl refl;
  }

  keeps_event :
      (e : AuditEvent) (db : Database) → has_event e.event_id db ≡ false → Keeps db (add_event e db)
  keeps_event e db h = same_row db _ refl refl

  keeps_case : (c t : String) (at : ℕ) (db : Database) → Keeps db (set_case_status c t at db)
  keeps_case c t at db = same_row db _ refl refl

  pub record_audit_event-Keeps :
      (env : Env) (c : Option String) (et ei ev at an : String) (d : Json)
      → Respects Keeps (record_audit_event env c et ei ev at an d)
  unfolding record_audit_event
  record_audit_event-Keeps env c et ei ev at an d =
      search (respects_rules, Keeps-IsStable, keeps_event) depth 40

  pub update_case_status-Keeps :
      (env : Env) (c t : String) → Respects Keeps (update_case_status env c t)
  unfolding update_case_status
  update_case_status-Keeps env c t = search (respects_rules, Keeps-IsStable, keeps_case) depth 40

  pub lookup_for_reconciliation-Keeps :
      (env : Env) (r : ExecutionRequest) (simulated mode : Option String)
      → Respects Keeps (lookup_for_reconciliation env r simulated mode)
  unfolding lookup_for_reconciliation lookup_stripe_refund_state retrieve_refund
  lookup_for_reconciliation-Keeps env r simulated mode =
      search (respects_rules, Keeps-IsStable) depth 40

module _ (env : Env) (i s : String) (runs : List ReconciliationRun) where
  set_status-Row :
      (t : String) (o : Option String)
      → Spec (Row i s runs) (set_execution_request_status env i t o) (λ _. Row i t runs) Anything
  unfolding set_execution_request_status
  set_status-Row t o = Spec-bind _ _ (Spec-now env (Keeps-IsStable i s runs).ticks) λ at.
      Spec-modify _ λ db h. record {
        request = with_status t o at h.request;
        there =
            fetch_one-update (has_id i) (has_id i) (with_status t o at) db.execution_requests
              (λ r. ground arith)
            ∙ ap (touched (has_id i) (with_status t o at)) h.there
            ∙ ap some (
                ground (arith, fetch_one_holds (has_id i) db.execution_requests h.request h.there));
        status = ground arith;
        same_runs = h.same_runs;
      }

  update_status-Row :
      (t : String)
      → Spec (Row i s runs) (update_execution_request_status env i t) (λ _. Row i t runs) Anything
  unfolding update_execution_request_status get_execution_request_by_id
  update_status-Row t = Spec-bind _ _ (Spec-gets (λ db h. tt) _) λ o.
      Spec-bind _ _ (Spec-found (λ db h. tt) o) λ r.
        Spec-pre (λ db h. h.0.0)
          (Spec-bind _ _ (set_status-Row t none) λ _.
            Spec-bind _ _
              (Spec-keeps (λ db h. tt) (record_audit_event-Keeps i t runs env _ _ _ _ _ _ _))
              λ _. Spec-pure tt λ db h. h)

  mark-Row :
      Spec (Row i s runs) (mark_execution_reconciled env i) (λ _. Row i reconciled runs) Anything
  unfolding mark_execution_reconciled get_execution_request_by_id
  mark-Row = Spec-bind _ _ (Spec-gets (λ db h. tt) _) λ o.
      Spec-bind _ _ (Spec-found (λ db h. tt) o) λ r.
        Spec-pre (λ db h. h.0.0)
          (Spec-bind _ _ (set_status-Row reconciled none) λ _.
            Spec-bind _ _
              (Spec-keeps (λ db h. tt) (update_case_status-Keeps i reconciled runs env _ _))
              λ _.
                Spec-bind _ _
                  (Spec-keeps (λ db h. tt)
                    (record_audit_event-Keeps i reconciled runs env _ _ _ _ _ _ _))
                  λ _. Spec-pure tt λ db h. h)

  pub apply-Row :
      (r : ExecutionRequest) (action : String)
      → r.execution_request_id ≡ i
      → Spec
          (Row i s runs)
          (apply_reconciliation_action env r action)
          (λ _. Row i (status_after s action) runs)
          Anything
  unfolding apply_reconciliation_action
  apply-Row r action same =
      branches (action == recon_action_mark_reconciled) (action == recon_action_route_manual_review)
    where
      branches :
          (mark route : Bool)
          → Spec
              (Row i s runs)
              (if mark
                then mark_execution_reconciled env r.execution_request_id
                else if route
                then (do
                  update_execution_request_status env r.execution_request_id needs_manual_review
                  update_case_status env r.case_id case_status_needs_manual_review)
                else pure tt)
              (λ _.
                Row i (if mark then reconciled else if route then needs_manual_review else s) runs)
              Anything
      branches true route =
          subst
            (λ j.
              Spec (Row i s runs) (mark_execution_reconciled env j) (λ _. Row i reconciled runs)
                Anything)
            (sym same) mark-Row
      branches false true =
          Spec-bind _ _
            (subst
              (λ j.
                Spec (Row i s runs) (update_execution_request_status env j needs_manual_review)
                  (λ _. Row i needs_manual_review runs) Anything)
              (sym same) (update_status-Row needs_manual_review))
            λ _.
              Spec-keeps (λ db h. tt) (update_case_status-Keeps i needs_manual_review runs env _ _)
      branches false false = Spec-pure tt λ db h. h
