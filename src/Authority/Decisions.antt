-- ===== src/Authority/Decisions.antt =====
-- src/approvals/approval_service.py: what `create_approval_decision` has checked where it adds a row.
use mathlib.Core.Path.{subst}
use mathlib.Core.Option.{some-injective}
use billing_recovery_executi.Common.{
  ℤ, pos, ltb_ℤ, Bool, true, false, not, String, Option, none, some, List, ◌≡◌, refl, sym, ◌∙◌, ap,
  arith, eq_iff, is_in, ◌==◌, strip, ◌⊎◌,
}
use billing_recovery_executi.Database.{Json, pure, ◌>>◌, Database, PolicyEvaluation, Approval, Env}
use billing_recovery_executi.Audit.{record_audit_event}
use billing_recovery_executi.Policy.Service.{
  StoredPolicy, decoded, latest_evaluation, get_latest_policy_evaluation,
}
use billing_recovery_executi.Approvals.{
  Decision, outcome_allows, policy_allows, is_bad_amount, amount_of, has_approval, add_approval,
  update_case_after_decision, validate_required_fields, can_case_be_approved,
  create_approval_decision,
}
use billing_recovery_executi.Rules.ApprovalRules.{
  approval_decisions, billing_ops_agent, finance_manager,
}
use billing_recovery_executi.Rules.PolicyRules.{eligible_for_approval, requires_manager_approval}
use billing_recovery_executi.Effects.Respects.{Relation, Respects, IsStable, respects_rules}
use billing_recovery_executi.Effects.Frame.{
  Frame, record_audit_event-Respects, update_case_after_decision-Respects,
}
use billing_recovery_executi.Effects.Spec.{
  Condition, Spec, Spec-bind, Spec-keeps, Spec-gets, Spec-row, Spec-raise_if, Spec-insert,
  Spec-pure, Spec-pre, Spec-check, Spec-draw_uuid8, Spec-now, Respects-of_Spec, Respects-from,
}
use billing_recovery_executi.Table.{IsRow, IsRow-select}

-- Which roles may decide on a case with a policy outcome; the other outcomes permit none.
abbrev pub Permits : String → String → Type 0
Permits outcome role =
    (outcome ≡ eligible_for_approval) × ((role ≡ billing_ops_agent) ⊎ (role ≡ finance_manager))
    ⊎ (outcome ≡ requires_manager_approval) × (role ≡ finance_manager)

allowed-Permits :
    (outcome role : String) → (outcome_allows outcome (some role)).0 ≡ true → Permits outcome role
unfolding outcome_allows
allowed-Permits outcome role h = ground (
  arith,
  eq_iff outcome eligible_for_approval,
  eq_iff outcome requires_manager_approval,
  eq_iff role billing_ops_agent,
  eq_iff role finance_manager,
)

-- The policy evaluation that an approval names is one of its case, and its outcome permits the role
-- of the approver; the decision is one of the two, and the amount is not negative.
pub record IsPermitted (evaluations : List PolicyEvaluation) (a : Approval) : Type 0 where
  pub evaluation : PolicyEvaluation
  pub is_row : IsRow evaluation evaluations
  pub same_evaluation : a.policy_evaluation_id ≡ evaluation.evaluation_id
  pub same_case : evaluation.case_id ≡ a.case_id
  pub permits : Permits evaluation.outcome a.approver_role
  pub decided : is_in a.decision approval_decisions ≡ true
  pub amount : ltb_ℤ a.approved_amount_cents (pos 0) ≡ false

not-false : (b : Bool) → not b ≡ false → b ≡ true
not-false true h = refl
not-false false h = sym h

good_amount : (o : Option ℤ) → is_bad_amount o ≡ false → ltb_ℤ (amount_of o) (pos 0) ≡ false
good_amount none h = refl
good_amount (some n) h = h

-- What the check of the latest evaluation tells where it allows the approval.
permitted_by :
    (env : Env) (o : Option PolicyEvaluation) (role : String) (policy : StoredPolicy)
    → not (policy_allows (decoded env o) (some role)).0 ≡ false
    → (policy_allows (decoded env o) (some role)).2 ≡ some policy
    → (e : PolicyEvaluation) × (o ≡ some e)
      × (policy.evaluation_id ≡ e.evaluation_id)
      × Permits e.outcome role
unfolding policy_allows
permitted_by env none role policy h k = absurd cc
permitted_by env (some e) role policy h k = (
  e,
  refl,
  sym (ap (λ p. p.evaluation_id) (some-injective _ policy k)),
  allowed-Permits e.outcome role (not-false _ h),
)

module _ (env : Env) (R : Relation) (stable : IsStable R) (start : Database) where
  abbrev From : Condition
  From db = R start db

  abbrev Valid : Decision → Condition
  Valid d db =
      (From db × (not (is_in d.decision approval_decisions) ≡ false))
      × (is_bad_amount d.approved_amount_cents ≡ false)

  validate-Spec : (d : Decision) → Spec From (validate_required_fields d) (λ _. Valid d) From
  unfolding validate_required_fields
  validate-Spec d = Spec-bind _ _ (Spec-raise_if (λ db h. h) _ _) λ _.
      Spec-bind _ _ (Spec-raise_if (λ db h. h.0) _ _) λ _.
        Spec-bind _ _ (Spec-raise_if (λ db h. h.0.0) _ _) λ _.
          Spec-bind _ _ (Spec-raise_if (λ db h. h.0.0.0) _ _) λ _.
            Spec-bind _ _ (Spec-raise_if (λ db h. h.0.0.0.0) _ _) λ _.
              Spec-pre {p' = Valid d} (λ db h. ((h.0.0.0.0.0, h.0.0.1), h.1))
                (Spec-check (λ db h. h.0.0) _ _)

  -- What is known when the row is added.
  abbrev Checked : Decision → String → Bool × String × Option StoredPolicy → Condition
  Checked d case_id answer db =
      Valid d db
      × (answer
          ≡ policy_allows (decoded env (latest_evaluation env case_id db.policy_evaluations))
              (some d.approver_role))

  can-Spec :
      (d : Decision) (case_id : String)
      → Spec
          (Valid d)
          (can_case_be_approved env case_id (some d.approver_role))
          (Checked d case_id)
          From
  unfolding can_case_be_approved get_latest_policy_evaluation
  can-Spec d case_id =
      Spec-bind _ _
        (Spec-gets (λ db h. h.0.0)
          (λ db. decoded env (latest_evaluation env case_id db.policy_evaluations)))
        λ latest. Spec-pure _ λ db h. (h.0, ap (λ o. policy_allows o (some d.approver_role)) h.1)

  permitted :
      (d : Decision) (case_id : String) (answer : Bool × String × Option StoredPolicy)
      (policy : StoredPolicy) (a : Approval) (db : Database)
      → Checked d case_id answer db
      → not answer.0 ≡ false
      → answer.2 ≡ some policy
      → a.policy_evaluation_id ≡ policy.evaluation_id
      → a.case_id ≡ case_id
      → a.approver_role ≡ d.approver_role
      → a.decision ≡ d.decision
      → a.approved_amount_cents ≡ amount_of d.approved_amount_cents
      → IsPermitted db.policy_evaluations a
  permitted d case_id answer policy a db (valid, known) allowed there i c r dec am =
      let (e, at, same, permits) =
        permitted_by env (latest_evaluation env case_id db.policy_evaluations) d.approver_role
          policy (subst (λ x. not x.0 ≡ false) known allowed)
          (subst (λ x. x.2 ≡ some policy) known there) in
      let (is_row, of_case) =
        IsRow-select (λ x. x.case_id == case_id) db.policy_evaluations _ e at in
      record {
        evaluation = e;
        is_row = is_row;
        same_evaluation = i ∙ same;
        same_case = (eq_iff e.case_id case_id).0 of_case ∙ sym c;
        permits = rw r permits;
        decided = rw dec (not-false _ valid.0.1);
        amount = rw am (good_amount d.approved_amount_cents valid.1);
      }

-- An approval whose key is free and that is permitted.
abbrev pub AddsPermitted : Relation → Type 0
AddsPermitted R =
    (a : Approval) (db : Database)
    → has_approval a.approval_id db ≡ false
    → IsPermitted db.policy_evaluations a
    → R db (add_approval a db)

module _ (env : Env) {R : Relation} (frame : Frame R) (adds : AddsPermitted R) where
  ending :
      (case_id : String) (d : Decision) (approval_id : String) (details : Json) (a : Approval)
      → Respects R (do
        update_case_after_decision env case_id d.decision
        record_audit_event env
            (some case_id)
            "approval"
            approval_id
            "approval_decision_recorded"
            "human"
            (strip d.approver_name)
            details
        pure a)
  ending case_id d i details a =
      search
        (
          respects_rules,
          frame.stable,
          update_case_after_decision-Respects env frame,
          record_audit_event-Respects env frame,
        )
        depth 40

  pub create_approval_decision-Permits :
      (case_id : String) (d : Decision) → Respects R (create_approval_decision env case_id d)
  unfolding create_approval_decision
  create_approval_decision-Permits case_id d = Respects-of_Spec frame.stable λ start.
      Spec-bind _ _ (validate-Spec env R frame.stable start d) λ _.
        Spec-bind _ _ (can-Spec env R frame.stable start d case_id) λ answer.
          Spec-bind _ _ (Spec-raise_if (λ db h. h.0.0.0) _ _) λ _.
            Spec-bind _ _
              (Spec-draw_uuid8 env λ db h. (
                (
                  (
                    (frame.stable.both start db _ h.0.0.0.0 (frame.stable.ticks db), h.0.0.0.1),
                    h.0.0.1,
                  ),
                  h.0.1,
                ),
                h.1,
              ))
              λ uuid. Spec-bind _ _ (Spec-row (λ db h. h.0.0.0.0) answer.2) λ policy.
                Spec-bind _ _
                  (Spec-now env λ db h. (
                    (
                      (
                        (
                          (
                            frame.stable.both start db _ h.0.0.0.0.0 (frame.stable.ticks db),
                            h.0.0.0.0.1,
                          ),
                          h.0.0.0.1,
                        ),
                        h.0.0.1,
                      ),
                      h.0.1,
                    ),
                    h.1,
                  ))
                  λ at.
                    Spec-bind _ _
                      (Spec-insert (λ db h. h.0.0.0.0.0) _ _ _
                        λ db h free. frame.stable.both start db _ h.0.0.0.0.0 (
                          adds _ db free (
                            permitted env R frame.stable start d case_id answer policy _ db h.0.0
                              h.0.1 h.1 refl refl refl refl refl)))
                      λ _.
                        Spec-keeps (λ db h. h)
                          (Respects-from start frame.stable (ending case_id d _ _ _))
