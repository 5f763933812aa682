-- ===== src/Approvals.antt =====
-- src/approvals/approval_service.py: human approval decisions.
use billing_recovery_executi.Common.{
  ℤ, pos, ltb_ℤ, String, Bool, true, false, not, Option, none, some, List, [], ◌∷◌, ◌++◌, ◌==◌,
  is_in, is_empty, is_blank, strip, if◌then◌else◌, fstring,
}
use billing_recovery_executi.Table.{select, exists, get_elem?, column}
use billing_recovery_executi.Database.{
  text, int, Database, Approval, Env, Action, value_error, pure, row, raise_if, gets, insert,
  draw_uuid8, now, ◌>>=◌, ◌>>◌,
}
use billing_recovery_executi.Audit.{record_audit_event}
use billing_recovery_executi.Cases.{update_case_status}
use billing_recovery_executi.Policy.Service.{StoredPolicy, get_latest_policy_evaluation}
use billing_recovery_executi.Rules.ApprovalRules.{
  approved, rejected, approval_decisions, billing_ops_agent, finance_manager, status_approved,
  status_rejected,
}
use billing_recovery_executi.Rules.PolicyRules.{
  blocked, eligible_for_approval, needs_more_review, requires_manager_approval,
}

-- `approver_role in [None, BILLING_OPS_AGENT, FINANCE_MANAGER]`
abbrev may_approve_eligible : Option String → Bool
may_approve_eligible none = true
may_approve_eligible (some role) = is_in role (billing_ops_agent ∷ finance_manager ∷ [])

-- `approver_role is None`, and `approver_role != FINANCE_MANAGER`.
abbrev manager_check : Option String → Bool × String
manager_check none = (true, "This case requires finance manager approval.")
manager_check (some role) =
    if not (role == finance_manager)
    then (
      false,
      "This case requires finance manager approval because the amount exceeds the agent approval threshold.",
    )
    else (true, "Finance manager approval is allowed for this policy outcome.")

abbrev not_eligible : Bool × String
not_eligible = (false, "This case is not eligible for approval under the current policy outcome.")

-- The tests of `can_case_be_approved` on the outcome of the latest policy evaluation.
unfoldable pub outcome_allows : String → Option String → Bool × String
outcome_allows outcome approver_role =
    if outcome == blocked
    then (false, "Approval is blocked because deterministic policy marked this case as blocked.")
    else if outcome == needs_more_review
    then (false, "Approval is blocked until additional review is completed.")
    else if outcome == requires_manager_approval
    then manager_check approver_role
    else if outcome == eligible_for_approval
    then (if may_approve_eligible approver_role
        then (true, "This case is eligible for human approval.")
        else not_eligible)
    else not_eligible

-- The tests of `can_case_be_approved`: allowed, the reason and the latest evaluation.
unfoldable pub policy_allows :
    Option StoredPolicy → Option String → Bool × String × Option StoredPolicy
unfolding outcome_allows
policy_allows none approver_role =
    (false, "Policy evaluation must be completed before approval.", none)
policy_allows (some p) approver_role =
    let (allowed, reason) = outcome_allows p.result.outcome approver_role in
    (allowed, reason, some p)

-- The fields that an operator fills in; a text that is missing is empty, which the code treats alike.
pub record Decision : Type 0 where
  pub approver_name : String
  pub approver_role : String
  pub decision : String
  pub approved_action : String
  pub approved_amount_cents : Option ℤ
  pub rationale : String

-- `approved_amount_cents is None or approved_amount_cents < 0`
abbrev pub is_bad_amount : Option ℤ → Bool
is_bad_amount none = true
is_bad_amount (some n) = ltb_ℤ n (pos 0)

abbrev pub amount_of : Option ℤ → ℤ
amount_of none = pos 0
amount_of (some n) = n

unfoldable pub validate_required_fields : Decision → Action (Unit {0})
validate_required_fields d = do
  raise_if (is_blank d.approver_name) (value_error "Approver name is required.")
  raise_if (is_empty d.approver_role) (value_error "Approver role is required.")
  raise_if (not (is_in d.decision approval_decisions))
      (value_error "Decision must be approved or rejected.")
  raise_if (is_empty d.approved_action) (value_error "Approved action is required.")
  raise_if (is_bad_amount d.approved_amount_cents)
      (value_error "Approved amount must be zero or greater.")
  raise_if (is_blank d.rationale) (value_error "Approval rationale is required.")

abbrev pub has_approval : String → Database → Bool
has_approval approval_id db = exists (λ a. a.approval_id == approval_id) db.approvals

abbrev pub add_approval : Approval → Database → Database
add_approval a db = record db { approvals = db.approvals ++ a ∷ [] }

module _ (env : Env) where
  unfoldable pub can_case_be_approved :
      String → Option String → Action (Bool × String × Option StoredPolicy)
  can_case_be_approved case_id approver_role = do
    latest_policy ← get_latest_policy_evaluation env case_id
    pure (policy_allows latest_policy approver_role)

  -- The case's status after a decision.
  unfoldable pub update_case_after_decision : String → String → Action (Unit {0})
  update_case_after_decision case_id decision =
      if decision == approved
      then update_case_status env case_id status_approved
      else if decision == rejected
      then update_case_status env case_id status_rejected
      else pure tt

  -- The dictionary that is returned is the row without its time.
  unfoldable pub create_approval_decision : String → Decision → Action Approval
  create_approval_decision case_id d = do
    validate_required_fields d
    (allowed, reason, latest_policy) ← can_case_be_approved case_id (some d.approver_role)
    raise_if (not allowed) (value_error reason)
    uuid ← draw_uuid8 env
    let approval_id = fstring ("APP-" ∷ uuid ∷ [])
    policy ← row latest_policy
    created_at ← now env
    let approval : Approval = record {
      approval_id = approval_id;
      case_id = case_id;
      policy_evaluation_id = policy.evaluation_id;
      approver_name = strip d.approver_name;
      approver_role = d.approver_role;
      decision = d.decision;
      approved_action = d.approved_action;
      approved_amount_cents = amount_of d.approved_amount_cents;
      rationale = strip d.rationale;
      created_at = created_at;
    }
    insert "approvals.approval_id" (has_approval approval_id) (add_approval approval)
    update_case_after_decision case_id d.decision
    record_audit_event env (some case_id) "approval" approval_id "approval_decision_recorded"
        "human" (strip d.approver_name)
        (("approver_role", text d.approver_role)
          ∷ ("decision", text d.decision)
          ∷ ("approved_action", text d.approved_action)
          ∷ ("approved_amount_cents", int (amount_of d.approved_amount_cents))
          ∷ ("policy_evaluation_id", text policy.evaluation_id)
          ∷ ("rationale", text (strip d.rationale))
          ∷ [])
    pure approval

  abbrev pub latest_approval : String → List Approval → Option Approval
  latest_approval case_id t =
      let rows = select (λ a. a.case_id == case_id) t in
      get_elem? rows (env.latest (column (λ a. a.created_at) rows))

  unfoldable pub get_latest_approval : String → Action (Option Approval)
  get_latest_approval case_id = gets (λ db. latest_approval case_id db.approvals)
