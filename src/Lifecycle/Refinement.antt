-- ===== src/Lifecycle/Refinement.antt =====
-- Runs of the console against the abstract machine of an execution request.
use billing_recovery_executi.Common.{
  String, Bool, true, false, none, some, List, ◌≡◌, inl, inr, refl, sym, ◌∙◌, ap, ne_of_test, ◌==◌,
  eq_iff, if◌then◌else◌,
}
use billing_recovery_executi.Table.{
  fetch_one, touched, first, fetch_one-update, fetch_one-append, fetch_one_holds,
}
use billing_recovery_executi.Database.{Database, ExecutionRequest, Env}
use billing_recovery_executi.Execution.Requests.{has_id, update_requests}
use billing_recovery_executi.Execution.Creation.{add_request}
use billing_recovery_executi.Rules.ExecutionRules.{
  execution_pending, processing, retrying, succeeded, failed_transient, failed_permanent,
  needs_manual_review, reconciled,
}
use billing_recovery_executi.Workflow.{Command, run, run_respects}
use billing_recovery_executi.Effects.Frame.{Frame}
use billing_recovery_executi.Lifecycle.Steps.{
  Step, execute, retry, answer, give_up, reconcile, review, recover, Reach, here, next, Reach-trans,
}
use billing_recovery_executi.Lifecycle.Writes.{Writes}
use billing_recovery_executi.Lifecycle.Calls.{Calls-of_steps}

-- Each request is still there, with a status that the machine reaches from the one it had.
pub record AdvancesRows (t u : List ExecutionRequest) : Type 0 where
  pub at :
      (id : String) (r : ExecutionRequest)
      → fetch_one (has_id id) t ≡ some r
      → (q : ExecutionRequest) × (fetch_one (has_id id) u ≡ some q) × Reach r.status q.status

abbrev pub Advances : Database → Database → Type 0
Advances a b = AdvancesRows a.execution_requests b.execution_requests

same_rows : (db : Database) → Advances db db
same_rows db = record { at = λ i r h. (r, h, here) }

Advances-trans : (a b c : Database) → Advances a b → Advances b c → Advances a c
Advances-trans a b c h k = record {
  at = λ i r e. let (q, f, s) = h.at i r e in let (p, g, t) = k.at i q f in (p, g, Reach-trans s t);
}

Advances-Frame : Frame Advances
Advances-Frame = record {
  stable = record { same = same_rows; both = Advances-trans; ticks = same_rows };
  cases = λ i s t db. same_rows db;
  evaluations = λ e db h. same_rows db;
  payments = λ p db h. same_rows db;
  runs = λ r db h. same_rows db;
  actions = λ a db h. same_rows db;
  briefs = λ b db h. same_rows db;
  events = λ e db h. same_rows db;
}

updated-Reach :
    (b : Bool) (f : ExecutionRequest → ExecutionRequest) (r : ExecutionRequest)
    → (b ≡ true → Reach r.status (f r).status)
    → Reach r.status (if b then f r else r).status
updated-Reach true f r h = h refl
updated-Reach false f r h = here

-- An UPDATE of one request, which the machine allows.
update-Advances :
    (id : String) (f : ExecutionRequest → ExecutionRequest) (db : Database)
    → ((r : ExecutionRequest) → (f r).execution_request_id ≡ r.execution_request_id)
    → ((r : ExecutionRequest)
        → fetch_one (has_id id) db.execution_requests ≡ some r
        → Reach r.status (f r).status)
    → Advances db (update_requests id f db)
update-Advances id f db same h = record {
  at = λ i r e. (
    if has_id id r then f r else r,
    fetch_one-update (has_id i) (has_id id) f db.execution_requests (λ q. ap (λ j. j == i) (same q))
        ∙ ap (touched (has_id id) f) e,
    updated-Reach (has_id id r) f r λ x. h r (
        ap (λ j. fetch_one (has_id j) db.execution_requests)
          (sym ((eq_iff r.execution_request_id id).0 x)
            ∙ (eq_iff r.execution_request_id i).0 (fetch_one_holds (has_id i) _ r e))
        ∙ e),
  );
}

taken : {s t s' t' : String} → s' ≡ s → t' ≡ t → Step s t → Reach s' t'
taken e k st = rw (e, k) (next here st)

Advances-Writes : Writes Advances
Advances-Writes = record {
  frame = Advances-Frame;
  moves = λ i s t f db st has m.
      update-Advances i f db (λ r. (m.terms r).same_id) λ r e. taken (has r e) (m.status r) st;
  references = λ i reference at db. update-Advances i _ db (λ r. refl) (λ r e. here);
  records = λ a db h. same_rows db;
}

add_request-Advances : (q : ExecutionRequest) (db : Database) → Advances db (add_request q db)
add_request-Advances q db = record {
  at = λ i r e. (
    r,
    fetch_one-append (has_id i) db.execution_requests q
        ∙ ap (λ o. first o (if has_id i q then some q else none)) e,
    here,
  );
}

-- The console refines the abstract machine of an execution request: after any service calls, in any
-- order and whether they return or raise, each request that was in the database is there under its
-- identifier, and its status is the one it had or one that the steps of the machine lead to from it.
-- They are: pending to processing, failed_transient to retrying, processing or retrying to the
-- answer of the provider, failed_transient to manual review, succeeded to reconciled, any status but
-- reconciled to manual review, and a failed status or manual review to what an operator decides.
pub run-Advances : (env : Env) (cs : List Command) (db : Database) → Advances db (run env cs db)
run-Advances env cs db =
    run_respects env
      (Calls-of_steps env Advances-Writes (λ a d h. same_rows d)
        (λ r d h p. add_request-Advances r d))
      cs db

-- From `reconciled`, there is no step.
step_from_reconciled : (s t : String) → s ≡ reconciled → Step s t → ⊥
step_from_reconciled s t e (execute a b) = ne_of_test reconciled execution_pending refl (sym e ∙ a)
step_from_reconciled s t e (retry a b) = ne_of_test reconciled failed_transient refl (sym e ∙ a)
step_from_reconciled s t e (answer (inl a) b) = ne_of_test reconciled processing refl (sym e ∙ a)
step_from_reconciled s t e (answer (inr a) b) = ne_of_test reconciled retrying refl (sym e ∙ a)
step_from_reconciled s t e (give_up a b) = ne_of_test reconciled failed_transient refl (sym e ∙ a)
step_from_reconciled s t e (reconcile a b) = ne_of_test reconciled succeeded refl (sym e ∙ a)
step_from_reconciled s t e (review a b) = a e
step_from_reconciled s t e (recover (inl a) b) =
    ne_of_test reconciled failed_transient refl (sym e ∙ a)
step_from_reconciled s t e (recover (inr (inl a)) b) =
    ne_of_test reconciled failed_permanent refl (sym e ∙ a)
step_from_reconciled s t e (recover (inr (inr a)) b) =
    ne_of_test reconciled needs_manual_review refl (sym e ∙ a)

reconciled_stays : (s t : String) → s ≡ reconciled → Reach s t → t ≡ reconciled
reconciled_stays s t e here = e
reconciled_stays s t e (next r st) = absurd (step_from_reconciled _ t (reconciled_stays s _ e r) st)

-- A request that is reconciled stays reconciled, whatever service calls follow.
pub run-reconciled :
    (env : Env) (cs : List Command) (db : Database) (id : String) (r : ExecutionRequest)
    → fetch_one (has_id id) db.execution_requests ≡ some r
    → r.status ≡ reconciled
    → (q : ExecutionRequest) × (fetch_one (has_id id) (run env cs db).execution_requests ≡ some q)
      × (q.status ≡ reconciled)
run-reconciled env cs db id r e k =
    let (q, f, reach) = (run-Advances env cs db).at id r e in (q, f, reconciled_stays _ _ k reach)
