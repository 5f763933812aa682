-- ===== src/Workflow/Audit.antt =====
-- The audit trail of src/audit/audit_service.py over runs of the console.
use mathlib.Core.List.{append-nil, append_assoc}
use billing_recovery_executi.Common.{List, [], ◌∷◌, ◌++◌, ◌≡◌, refl, sym, ◌∙◌, ap}
use billing_recovery_executi.Database.{Database, AuditEvent, Env}
use billing_recovery_executi.Effects.Respects.{IsStable}
use billing_recovery_executi.Effects.Frame.{create_approval_decision-Respects, Frame}
use billing_recovery_executi.Effects.Attempts.{AllUpdates}
use billing_recovery_executi.Effects.Creation.{create_execution_request-Respects}
use billing_recovery_executi.Workflow.Commands.{Command, run, run_respects, Calls-of_writes}

-- The events of the first database are the first events of the second, unchanged.
abbrev pub ExtendsAudit : Database → Database → Type 0
ExtendsAudit a b = (new : List AuditEvent) × (b.audit_events ≡ a.audit_events ++ new)

same_events : (db : Database) → ExtendsAudit db db
same_events db = ([], sym (append-nil db.audit_events))

ExtendsAudit-trans : (a b c : Database) → ExtendsAudit a b → ExtendsAudit b c → ExtendsAudit a c
ExtendsAudit-trans a b c (m, p) (n, q) =
    (m ++ n, q ∙ ap (λ t. t ++ n) p ∙ append_assoc a.audit_events m n)

ExtendsAudit-IsStable : IsStable ExtendsAudit
ExtendsAudit-IsStable = record {
  same = same_events;
  both = ExtendsAudit-trans;
  ticks = same_events;
}

ExtendsAudit-Frame : Frame ExtendsAudit
ExtendsAudit-Frame = record {
  stable = ExtendsAudit-IsStable;
  cases = λ i s t db. same_events db;
  evaluations = λ e db h. same_events db;
  payments = λ p db h. same_events db;
  runs = λ r db h. same_events db;
  actions = λ a db h. same_events db;
  briefs = λ b db h. same_events db;
  events = λ e db h. (e ∷ [], refl);
}

ExtendsAudit-AllUpdates : AllUpdates ExtendsAudit
ExtendsAudit-AllUpdates = record {
  updates = record {
    statuses = λ i s o t db h. same_events db;
    references = λ i r t db. same_events db;
  };
  providers = λ i p s t db. same_events db;
}

-- The audit trail is append-only: after any service calls, in any order and whether they return or
-- raise, the events recorded before stand at the front of the trail, unchanged and in their order.
pub run-ExtendsAudit :
    (env : Env) (cs : List Command) (db : Database) → ExtendsAudit db (run env cs db)
run-ExtendsAudit env cs db =
    run_respects env
      (Calls-of_writes env ExtendsAudit-Frame
        (create_approval_decision-Respects env ExtendsAudit-Frame (λ a db h. same_events db))
        ExtendsAudit-AllUpdates (λ a db h. same_events db)
        (create_execution_request-Respects env ExtendsAudit-Frame (λ r db h p. same_events db)))
      cs db
