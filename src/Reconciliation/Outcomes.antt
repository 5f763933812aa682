-- ===== src/Reconciliation/Outcomes.antt =====
-- src/reconciliation/reconciliation_service.py: what a reconciliation that returns leaves in the
-- tables.
use mathlib.Core.Path.{subst}
use billing_recovery_executi.Common.{
  String, Option, some, [], ◌∷◌, ◌++◌, ◌≡◌, refl, sym, ◌∙◌, ap, fstring,
}
use billing_recovery_executi.Table.{fetch_one}
use billing_recovery_executi.Database.{Database, ExecutionRequest, ReconciliationRun, Env, ok}
use billing_recovery_executi.Execution.Requests.{has_id, get_execution_request_by_id}
use billing_recovery_executi.Reconciliation.{
  compare_states, evaluate_reconciliation, run_reconciliation,
}
use billing_recovery_executi.Effects.Spec.{
  Condition, Spec, Ends, Spec-bind, Spec-keeps, Spec-gets, Spec-insert, Spec-pure, Spec-pre,
  Spec-fact, Spec-draw_uuid8, Spec-now,
}
use billing_recovery_executi.Lifecycle.Runs.{Spec-found, own_id_of}
use billing_recovery_executi.Reconciliation.Rows.{
  Anything, Row, status_after, Keeps-IsStable, record_audit_event-Keeps,
  lookup_for_reconciliation-Keeps, apply-Row,
}

-- What a reconciliation that returns has done.
pub record IsReconciliation (id : String) (start next : Database) (run : ReconciliationRun)
    : Type 0 where
  pub read : ExecutionRequest
  pub was_there : fetch_one (has_id id) start.execution_requests ≡ some read
  pub compared : run.internal_status ≡ read.status
  pub result : run.result ≡ (compare_states read.status run.provider_status).result
  pub action : run.action_taken ≡ (compare_states read.status run.provider_status).action_taken
  pub recorded : next.reconciliation_runs ≡ start.reconciliation_runs ++ run ∷ []
  pub left : ExecutionRequest
  pub is_there : fetch_one (has_id id) next.execution_requests ≡ some left
  pub status : left.status ≡ status_after read.status run.action_taken

abbrev Unchanged : Database → Condition
Unchanged start db =
    (db.execution_requests ≡ start.execution_requests)
    × (db.reconciliation_runs ≡ start.reconciliation_runs)

run_reconciliation-Spec :
    (env : Env) (id : String) (simulated mode : Option String) (start : Database)
    → Spec
        (Unchanged start)
        (run_reconciliation env id simulated mode)
        (λ run db. IsReconciliation id start db run)
        Anything
unfolding run_reconciliation get_execution_request_by_id evaluate_reconciliation
run_reconciliation-Spec env id simulated mode start = Spec-bind _ _ (Spec-gets (λ db h. tt) _) λ o.
    Spec-bind _ _ (Spec-found (λ db h. tt) o) λ r.
      Spec-pre
        {p' = λ db.
          Row id r.status start.reconciliation_runs db
          × ((fetch_one (has_id id) start.execution_requests ≡ some r)
              × (r.execution_request_id ≡ id))}
        (λ db h.
          let there : fetch_one (has_id id) db.execution_requests ≡ some r = sym h.0.1 ∙ h.1 in
          (
            record { request = r; there = there; status = refl; same_runs = h.0.0.1 },
            (ap (fetch_one (has_id id)) (sym h.0.0.0) ∙ there, own_id_of id o r db h.0.1 h.1),
          ))
        (Spec-fact λ known.
          let old = start.reconciliation_runs in
          let stable = Keeps-IsStable id r.status old in
          Spec-bind _ _
            (Spec-keeps (λ db h. tt)
              (lookup_for_reconciliation-Keeps id r.status old env r simulated mode))
            λ lookup. Spec-bind _ _ (Spec-draw_uuid8 env stable.ticks) λ uuid.
              Spec-bind _ _ (Spec-now env stable.ticks) λ at.
                let outcome = compare_states r.status lookup.provider_status in
                let run : ReconciliationRun = record {
                  reconciliation_id = fstring ("REC-" ∷ uuid ∷ []);
                  execution_request_id = id;
                  internal_status = r.status;
                  provider_status = lookup.provider_status;
                  provider_object_id = lookup.provider_object_id;
                  result = outcome.result;
                  mismatch_reason = outcome.mismatch_reason;
                  action_taken = outcome.action_taken;
                  created_at = at;
                } in
                Spec-bind _ _
                  (Spec-insert (λ db h. tt) {q = Row id r.status (old ++ run ∷ [])} _ _ _
                    λ db h free. record {
                      request = h.request;
                      there = h.there;
                      status = h.status;
                      same_runs = ap (λ t. t ++ run ∷ []) h.same_runs;
                    })
                  λ _.
                    Spec-bind _ _
                      (Spec-keeps (λ db h. tt)
                        (record_audit_event-Keeps id r.status (old ++ run ∷ []) env _ _ _ _ _ _ _))
                      λ _.
                        Spec-bind _ _
                          (apply-Row env id r.status (old ++ run ∷ []) r outcome.action_taken
                            known.1)
                          λ _. Spec-pure run λ db h. record {
                            read = r;
                            was_there = known.0;
                            compared = refl;
                            result = refl;
                            action = refl;
                            recorded = h.same_runs;
                            left = h.request;
                            is_there = h.there;
                            status = h.status;
                          })

-- If a reconciliation returns a run, it has compared the status that the request had with the
-- provider's and stored the run after the others, with the result and the action of the comparison;
-- the request is reconciled if that action is to mark it, needs manual review if it is to route it,
-- and has the status that it had otherwise.
pub run_reconciliation-IsReconciliation :
    (env : Env) (id : String) (simulated mode : Option String) (db next : Database)
    (run : ReconciliationRun)
    → run_reconciliation env id simulated mode db ≡ (ok run, next)
    → IsReconciliation id db next run
run_reconciliation-IsReconciliation env id simulated mode db next run e =
    subst (λ m. Ends (λ a d. IsReconciliation id db d a) Anything m.0 m.1) e
      ((run_reconciliation-Spec env id simulated mode db).at db (refl, refl))
