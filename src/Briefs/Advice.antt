-- ===== src/Briefs/Advice.antt =====
-- src/ai/billing_summary.py: which tables the making of a brief writes to.
use mathlib.Core.List.{append-nil, append_assoc}
use billing_recovery_executi.Common.{ℕ, String, false, List, [], ◌∷◌, ◌++◌, ◌≡◌, refl, sym, ◌∙◌, ap}
use billing_recovery_executi.Database.{AuditEvent, Database, BillingCase, AiCaseBrief, Env}
use billing_recovery_executi.Audit.{has_event, add_event, record_audit_event}
use billing_recovery_executi.Briefs.Service.{
  has_brief, add_brief, call_openai_for_case_brief, set_up_brief, store_case_brief,
  generate_and_store_case_brief,
}
use billing_recovery_executi.Effects.Respects.{Respects, IsStable, respects_rules}

-- The rows of the first table are the first rows of the second, unchanged.
abbrev pub Extends : {A : Type 0} → List A → List A → Type 0
Extends t u = (new : List _) × (u ≡ t ++ new)

Extends-refl : {A : Type 0} (t : List A) → Extends t t
Extends-refl t = ([], sym (append-nil t))

Extends-trans : {A : Type 0} (t u v : List A) → Extends t u → Extends u v → Extends t v
Extends-trans t u v (m, p) (n, q) = (m ++ n, q ∙ ap (λ l. l ++ n) p ∙ append_assoc t m n)

-- Only briefs and audit events were added, after those that were there.
pub record IsAdvice (a b : Database) : Type 0 where
  pub same_cases : b.billing_cases ≡ a.billing_cases
  pub same_evaluations : b.policy_evaluations ≡ a.policy_evaluations
  pub same_approvals : b.approvals ≡ a.approvals
  pub same_requests : b.execution_requests ≡ a.execution_requests
  pub same_attempts : b.execution_attempts ≡ a.execution_attempts
  pub same_runs : b.reconciliation_runs ≡ a.reconciliation_runs
  pub same_actions : b.manual_recovery_actions ≡ a.manual_recovery_actions
  pub same_payments : b.stripe_test_payments ≡ a.stripe_test_payments
  pub kept_briefs : Extends a.ai_case_briefs b.ai_case_briefs
  pub kept_events : Extends a.audit_events b.audit_events

-- A database that differs in the two tables at most.
IsAdvice-of :
    (db : Database) (briefs : List AiCaseBrief) (events : List AuditEvent) (tick : ℕ)
    → Extends db.ai_case_briefs briefs
    → Extends db.audit_events events
    → IsAdvice db (record db { ai_case_briefs = briefs; audit_events = events; tick = tick })
IsAdvice-of db briefs events tick h k = record {
  same_cases = refl;
  same_evaluations = refl;
  same_approvals = refl;
  same_requests = refl;
  same_attempts = refl;
  same_runs = refl;
  same_actions = refl;
  same_payments = refl;
  kept_briefs = h;
  kept_events = k;
}

IsAdvice-trans : (a b c : Database) → IsAdvice a b → IsAdvice b c → IsAdvice a c
IsAdvice-trans a b c h k = record {
  same_cases = k.same_cases ∙ h.same_cases;
  same_evaluations = k.same_evaluations ∙ h.same_evaluations;
  same_approvals = k.same_approvals ∙ h.same_approvals;
  same_requests = k.same_requests ∙ h.same_requests;
  same_attempts = k.same_attempts ∙ h.same_attempts;
  same_runs = k.same_runs ∙ h.same_runs;
  same_actions = k.same_actions ∙ h.same_actions;
  same_payments = k.same_payments ∙ h.same_payments;
  kept_briefs = Extends-trans _ _ _ h.kept_briefs k.kept_briefs;
  kept_events = Extends-trans _ _ _ h.kept_events k.kept_events;
}

IsAdvice-IsStable : IsStable IsAdvice
IsAdvice-IsStable = record {
  same = λ db. IsAdvice-of db _ _ _ (Extends-refl _) (Extends-refl _);
  both = IsAdvice-trans;
  ticks = λ db. IsAdvice-of db _ _ _ (Extends-refl _) (Extends-refl _);
}

added_event-IsAdvice :
    (e : AuditEvent) (db : Database)
    → has_event e.event_id db ≡ false
    → IsAdvice db (add_event e db)
added_event-IsAdvice e db h = IsAdvice-of db _ _ _ (Extends-refl _) (e ∷ [], refl)

added_brief-IsAdvice :
    (b : AiCaseBrief) (db : Database)
    → has_brief b.brief_id db ≡ false
    → IsAdvice db (add_brief b db)
added_brief-IsAdvice b db h = IsAdvice-of db _ _ _ (b ∷ [], refl) (Extends-refl _)

-- Making a brief decides nothing: whether the call returns or raises, it has added rows to the briefs
-- and to the audit trail at most, after those that were there, which are unchanged; cases, evaluations, approvals, requests, attempts, reconciliations,
-- recoveries and test payments are as they were.
pub generate_and_store_case_brief-IsAdvice :
    (env : Env) (c : BillingCase) (mode : String) (db : Database)
    → IsAdvice db (generate_and_store_case_brief env c mode db).1
unfolding generate_and_store_case_brief set_up_brief call_openai_for_case_brief store_case_brief
    record_audit_event
generate_and_store_case_brief-IsAdvice env c mode =
    let respects : Respects IsAdvice (generate_and_store_case_brief env c mode) =
      search (respects_rules, IsAdvice-IsStable, added_event-IsAdvice, added_brief-IsAdvice) depth
        60 in
    respects.at
