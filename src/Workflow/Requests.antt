-- ===== src/Workflow/Requests.antt =====
-- Execution requests are durable commands: what src/execution/execution_service.py wrote into one
-- when it was created stays as it is.
use billing_recovery_executi.Common.{
  ℕ, String, Bool, Option, none, some, List, ◌≡◌, ◌∙◌, arith, ap, ◌==◌, if◌then◌else◌,
}
use billing_recovery_executi.Table.{fetch_one, touched, first, fetch_one-update, fetch_one-append}
use billing_recovery_executi.Database.{Database, ExecutionRequest, Env}
use billing_recovery_executi.Execution.Requests.{has_id, update_requests, with_status}
use billing_recovery_executi.Execution.Creation.{add_request}
use billing_recovery_executi.Effects.Frame.{create_approval_decision-Respects, Frame}
use billing_recovery_executi.Effects.Attempts.{AllUpdates}
use billing_recovery_executi.Effects.Creation.{create_execution_request-Respects}
use billing_recovery_executi.Workflow.Commands.{Command, run, run_respects, Calls-of_writes}

-- All columns but provider, status, provider_object_id and updated_at.
pub record SameTerms (r q : ExecutionRequest) : Type 0 where
  pub same_id : q.execution_request_id ≡ r.execution_request_id
  pub same_case : q.case_id ≡ r.case_id
  pub same_approval : q.approval_id ≡ r.approval_id
  pub same_operation : q.operation_type ≡ r.operation_type
  pub same_amount : q.approved_amount_cents ≡ r.approved_amount_cents
  pub same_currency : q.currency ≡ r.currency
  pub same_key : q.idempotency_key ≡ r.idempotency_key
  pub same_time : q.created_at ≡ r.created_at

-- Each request is still there, under its identifier and with its terms.
pub record KeepsRows (t u : List ExecutionRequest) : Type 0 where
  pub at :
      (id : String) (r : ExecutionRequest)
      → fetch_one (has_id id) t ≡ some r
      → (q : ExecutionRequest) × (fetch_one (has_id id) u ≡ some q) × SameTerms r q

abbrev pub KeepsRequests : Database → Database → Type 0
KeepsRequests a b = KeepsRows a.execution_requests b.execution_requests

SameTerms-refl : (r : ExecutionRequest) → SameTerms r r
SameTerms-refl r = ground arith

SameTerms-trans : (r q s : ExecutionRequest) → SameTerms r q → SameTerms q s → SameTerms r s
SameTerms-trans r q s h k = ground arith

same_requests : (db : Database) → KeepsRequests db db
same_requests db = record { at = λ i r h. (r, h, SameTerms-refl r) }

KeepsRequests-trans : (a b c : Database) → KeepsRequests a b → KeepsRequests b c → KeepsRequests a c
KeepsRequests-trans a b c h k = record {
  at = λ i r e.
      let (q, f, s) = h.at i r e in let (p, g, t) = k.at i q f in (p, g, SameTerms-trans r q p s t);
}

abbrev pub KeepsTerms : (ExecutionRequest → ExecutionRequest) → Type 0
KeepsTerms f = (r : ExecutionRequest) → SameTerms r (f r)

pub with_status-KeepsTerms :
    (s : String) (o : Option String) (at : ℕ) → KeepsTerms (with_status s o at)
with_status-KeepsTerms s o at r = ground arith

if-SameTerms :
    (b : Bool) (f : ExecutionRequest → ExecutionRequest) (r : ExecutionRequest)
    → SameTerms r (f r)
    → SameTerms r (if b then f r else r)
if-SameTerms b f r h = ground arith

update_requests-KeepsRequests :
    (id : String) (f : ExecutionRequest → ExecutionRequest) (db : Database)
    → KeepsTerms f
    → KeepsRequests db (update_requests id f db)
update_requests-KeepsRequests id f db h = record {
  at = λ i r e. (
    if has_id id r then f r else r,
    fetch_one-update (has_id i) (has_id id) f db.execution_requests
          (λ q. ap (λ j. j == i) (h q).same_id)
        ∙ ap (touched (has_id id) f) e,
    if-SameTerms (has_id id r) f r (h r),
  );
}

add_request-KeepsRequests :
    (q : ExecutionRequest) (db : Database) → KeepsRequests db (add_request q db)
add_request-KeepsRequests q db = record {
  at = λ i r e. (
    r,
    fetch_one-append (has_id i) db.execution_requests q
        ∙ ap (λ o. first o (if has_id i q then some q else none)) e,
    SameTerms-refl r,
  );
}

KeepsRequests-Frame : Frame KeepsRequests
KeepsRequests-Frame = record {
  stable = record { same = same_requests; both = KeepsRequests-trans; ticks = same_requests };
  cases = λ i s t db. same_requests db;
  evaluations = λ e db h. same_requests db;
  payments = λ p db h. same_requests db;
  runs = λ r db h. same_requests db;
  actions = λ a db h. same_requests db;
  briefs = λ b db h. same_requests db;
  events = λ e db h. same_requests db;
}

KeepsRequests-AllUpdates : AllUpdates KeepsRequests
KeepsRequests-AllUpdates = record {
  updates = record {
    statuses = λ i s o t db h. update_requests-KeepsRequests i _ db (with_status-KeepsTerms s o t);
    references = λ i r t db. update_requests-KeepsRequests i _ db (λ q. ground arith);
  };
  providers = λ i p s t db. update_requests-KeepsRequests i _ db (λ q. ground arith);
}

-- After any service calls, in any order and whether they return or raise, each execution request
-- that was in the database is there under its identifier, and its case, approval, operation,
-- amount, currency, idempotency key and creation time have not changed.
pub run-KeepsRequests :
    (env : Env) (cs : List Command) (db : Database) → KeepsRequests db (run env cs db)
run-KeepsRequests env cs db =
    run_respects env
      (Calls-of_writes env KeepsRequests-Frame
        (create_approval_decision-Respects env KeepsRequests-Frame (λ a db h. same_requests db))
        KeepsRequests-AllUpdates (λ a d h. same_requests d)
        (create_execution_request-Respects env KeepsRequests-Frame
          (λ r d h p. add_request-KeepsRequests r d)))
      cs db
