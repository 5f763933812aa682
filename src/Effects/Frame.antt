-- ===== src/Effects/Frame.antt =====
-- The writes to the tables, as conditions on a relation, and the service calls that touch neither
-- execution requests nor attempts: they respect whatever the writes respect.
use billing_recovery_executi.Common.{ℕ, String, Option, false, ◌≡◌}
use billing_recovery_executi.Database.{
  Json, Database, BillingCase, PolicyEvaluation, Approval, ReconciliationRun, ManualRecoveryAction,
  AuditEvent, AiCaseBrief, StripeTestPayment, Env,
}
use billing_recovery_executi.Audit.{has_event, add_event, record_audit_event}
use billing_recovery_executi.Cases.{set_case_status, update_case_status}
use billing_recovery_executi.Policy.Service.{
  has_evaluation, add_evaluation, evaluate_and_store_policy, get_latest_policy_evaluation,
}
use billing_recovery_executi.Approvals.{
  Decision, has_approval, add_approval, validate_required_fields, can_case_be_approved,
  update_case_after_decision, create_approval_decision,
}
use billing_recovery_executi.Providers.StripePayments.{
  create_test_payment_intent, build_fallback_test_payment,
}
use billing_recovery_executi.Providers.TestPayments.{
  has_payment, add_payment, get_latest_stripe_test_payment, fallback_setup, live_setup,
  set_up_payment, store_stripe_test_payment, create_payment, keep_or_create_payment,
  create_and_store_stripe_test_payment, PaymentSetup,
}
use billing_recovery_executi.Database.{ApiResult, returned, raised}
use billing_recovery_executi.Providers.StripePayments.{PaymentPayload}
use billing_recovery_executi.Common.{some, none}
use billing_recovery_executi.Execution.Requests.{update_requests, with_status}
use billing_recovery_executi.Reconciliation.{has_run, add_run}
use billing_recovery_executi.Briefs.Service.{
  has_brief, add_brief, set_up_brief, store_case_brief, generate_and_store_case_brief, BriefSetup,
  call_openai_for_case_brief,
}
use billing_recovery_executi.Recovery.{has_action, add_action}
use billing_recovery_executi.Effects.Respects.{
  Relation, Respects, IsStable, respects_rules, Respects-pure,
}

-- The tables other than those of approvals, execution requests and attempts. A row is only added where its
-- key is free.
pub record Frame (R : Relation) : Type 0 where
  pub stable : IsStable R
  pub cases :
      (case_id status : String) (at : ℕ) (db : Database)
      → R db (set_case_status case_id status at db)
  pub evaluations :
      (e : PolicyEvaluation) (db : Database)
      → has_evaluation e.evaluation_id db ≡ false
      → R db (add_evaluation e db)
  pub payments :
      (p : StripeTestPayment) (db : Database)
      → has_payment p.stripe_test_payment_id db ≡ false
      → R db (add_payment p db)
  pub runs :
      (r : ReconciliationRun) (db : Database)
      → has_run r.reconciliation_id db ≡ false
      → R db (add_run r db)
  pub actions :
      (a : ManualRecoveryAction) (db : Database)
      → has_action a.manual_recovery_id db ≡ false
      → R db (add_action a db)
  pub briefs :
      (b : AiCaseBrief) (db : Database) → has_brief b.brief_id db ≡ false → R db (add_brief b db)
  pub events :
      (e : AuditEvent) (db : Database) → has_event e.event_id db ≡ false → R db (add_event e db)

-- A new approval, whose key is free.
abbrev pub AddsApprovals : Relation → Type 0
AddsApprovals R =
    (a : Approval) (db : Database)
    → has_approval a.approval_id db ≡ false
    → R db (add_approval a db)

-- The updates of execution requests, to the statuses that are allowed.
pub record Updates (Allowed : String → Type 0) (R : Relation) : Type 0 where
  pub statuses :
      (request_id status : String) (object_id : Option String) (at : ℕ) (db : Database)
      → Allowed status
      → R db (update_requests request_id (with_status status object_id at) db)
  pub references :
      (request_id reference : String) (at : ℕ) (db : Database)
      → R db (
          update_requests request_id
            (λ r. record r { provider_object_id = some reference; updated_at = at })
            db)

module _ {R : Relation} (env : Env) (frame : Frame R) where
  pub record_audit_event-Respects :
      (case_id : Option String) (entity_type entity_id event_type actor_type actor_name : String)
      (details : Json)
      → Respects R (
          record_audit_event env case_id entity_type entity_id event_type actor_type actor_name
            details)
  unfolding record_audit_event
  record_audit_event-Respects c et ei ev at an d =
      search (respects_rules, frame.stable, frame.events) depth 40

  pub update_case_status-Respects :
      (case_id status : String) → Respects R (update_case_status env case_id status)
  unfolding update_case_status
  update_case_status-Respects c s = search (respects_rules, frame.stable, frame.cases) depth 40

module _ {R : Relation} (env : Env) (frame : Frame R) where
  pub evaluate_and_store_policy-Respects :
      (c : BillingCase) → Respects R (evaluate_and_store_policy env c)
  unfolding evaluate_and_store_policy
  evaluate_and_store_policy-Respects c =
      search
        (
          respects_rules,
          frame.stable,
          frame.evaluations,
          record_audit_event-Respects env frame,
          update_case_status-Respects env frame,
        )
        depth 40

  can_case_be_approved-Respects :
      (case_id : String) (role : Option String) → Respects R (can_case_be_approved env case_id role)
  unfolding can_case_be_approved get_latest_policy_evaluation
  can_case_be_approved-Respects c r = search (respects_rules, frame.stable) depth 40

  validate_required_fields-Respects : (d : Decision) → Respects R (validate_required_fields d)
  unfolding validate_required_fields
  validate_required_fields-Respects d = search (respects_rules, frame.stable) depth 40

  pub update_case_after_decision-Respects :
      (case_id decision : String) → Respects R (update_case_after_decision env case_id decision)
  unfolding update_case_after_decision
  update_case_after_decision-Respects c d =
      search (respects_rules, frame.stable, update_case_status-Respects env frame) depth 40

  pub create_approval_decision-Respects :
      AddsApprovals R
      → (case_id : String) (d : Decision) → Respects R (create_approval_decision env case_id d)
  unfolding create_approval_decision
  create_approval_decision-Respects adds c d =
      search
        (
          respects_rules,
          frame.stable,
          adds,
          can_case_be_approved-Respects,
          validate_required_fields-Respects,
          update_case_after_decision-Respects,
          record_audit_event-Respects env frame,
        )
        depth 40

  fallback_setup-Respects :
      (c : BillingCase) (message : String) → Respects R (fallback_setup env c message)
  unfolding fallback_setup build_fallback_test_payment
  fallback_setup-Respects c m = search (respects_rules, frame.stable) depth 40

  live_setup-Respects :
      (c : BillingCase) (r : ApiResult PaymentPayload) → Respects R (live_setup env c r)
  unfolding live_setup
  live_setup-Respects c (returned p) = Respects-pure frame.stable _
  live_setup-Respects c (raised e) = fallback_setup-Respects c e.message

  set_up_payment-Respects :
      (c : BillingCase) (key mode : String) → Respects R (set_up_payment env c key mode)
  unfolding set_up_payment create_test_payment_intent
  set_up_payment-Respects c k m =
      search (respects_rules, frame.stable, fallback_setup-Respects, live_setup-Respects) depth 40

  store_stripe_test_payment-Respects :
      (id : String) (c : BillingCase) (mode : String) (s : PaymentSetup)
      → Respects R (store_stripe_test_payment env id c mode s)
  unfolding store_stripe_test_payment
  store_stripe_test_payment-Respects i c m s =
      search (respects_rules, frame.stable, frame.payments) depth 40

  create_payment-Respects :
      (c : BillingCase) (mode : String) → Respects R (create_payment env c mode)
  unfolding create_payment
  create_payment-Respects c m =
      search
        (
          respects_rules,
          frame.stable,
          set_up_payment-Respects,
          store_stripe_test_payment-Respects,
          record_audit_event-Respects env frame,
        )
        depth 40

  keep_or_create_payment-Respects :
      (c : BillingCase) (mode : String) (o : Option StripeTestPayment)
      → Respects R (keep_or_create_payment env c mode o)
  unfolding keep_or_create_payment
  keep_or_create_payment-Respects c m none = create_payment-Respects c m
  keep_or_create_payment-Respects c m (some p) = Respects-pure frame.stable _

  pub create_and_store_stripe_test_payment-Respects :
      (c : BillingCase) (mode : String)
      → Respects R (create_and_store_stripe_test_payment env c mode)
  unfolding create_and_store_stripe_test_payment get_latest_stripe_test_payment
  create_and_store_stripe_test_payment-Respects c m =
      search (respects_rules, frame.stable, keep_or_create_payment-Respects) depth 40

  set_up_brief-Respects : (c : BillingCase) (mode : String) → Respects R (set_up_brief env c mode)
  unfolding set_up_brief call_openai_for_case_brief
  set_up_brief-Respects c m = search (respects_rules, frame.stable) depth 40

  store_case_brief-Respects :
      (c : BillingCase) (mode : String) (s : BriefSetup)
      → Respects R (store_case_brief env c mode s)
  unfolding store_case_brief
  store_case_brief-Respects c m s = search (respects_rules, frame.stable, frame.briefs) depth 40

  pub generate_and_store_case_brief-Respects :
      (c : BillingCase) (mode : String) → Respects R (generate_and_store_case_brief env c mode)
  unfolding generate_and_store_case_brief
  generate_and_store_case_brief-Respects c m =
      search
        (
          respects_rules,
          frame.stable,
          set_up_brief-Respects,
          store_case_brief-Respects,
          record_audit_event-Respects env frame,
        )
        depth 40
