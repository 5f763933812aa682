-- ===== src/Policy/Engine.antt =====
-- src/policy/policy_engine.py: `evaluate_policy`, branch by branch.
use billing_recovery_executi.Common.{
  ltb_ℤ, String, Bool, true, false, not, List, [], ◌∷◌, ◌==◌, is_in, if◌then◌else◌, fstring,
}
use billing_recovery_executi.Database.{BillingCase}
use billing_recovery_executi.Rules.PolicyRules.{
  supported_currency, manager_approval_threshold_cents, blocked_issue_types,
  duplicate_review_issue_types, standard_eligible_issue_types, eligible_for_approval,
  requires_manager_approval, needs_more_review, blocked, low_risk, medium_risk, high_risk,
  rule_unsupported_currency, rule_blocked_issue_type, rule_duplicate_review_required,
  rule_manager_approval_required, rule_standard_eligible, rule_unknown_issue_type,
}

pub record PolicyResult : Type 0 where
  pub outcome : String
  pub risk_level : String
  pub needs_manager : Bool
  pub is_blocked : Bool
  pub primary_reason : String
  pub rules_triggered : List String

unfoldable pub build_result : String → String → Bool → Bool → String → List String → PolicyResult
build_result outcome risk_level needs_manager is_blocked primary_reason rules_triggered = record {
  outcome = outcome;
  risk_level = risk_level;
  needs_manager = needs_manager;
  is_blocked = is_blocked;
  primary_reason = primary_reason;
  rules_triggered = rules_triggered;
}

unfoldable pub evaluate_policy : BillingCase → PolicyResult
unfolding build_result
evaluate_policy c =
    if not (c.currency == supported_currency)
    then build_result blocked high_risk false true
        (fstring (
          "Automated correction is blocked because the billing currency is " ∷ c.currency
          ∷ ", while the MVP supports only " ∷ supported_currency ∷ "." ∷ []))
        (rule_unsupported_currency ∷ [])
    else if is_in c.issue_type blocked_issue_types
    then build_result blocked high_risk false true
        "This issue type is blocked from automated approval because it may require billing configuration or contract review before correction."
        (rule_blocked_issue_type ∷ [])
    else if is_in c.issue_type duplicate_review_issue_types
    then build_result needs_more_review medium_risk false false
        "This case may already have received a previous correction. More review is required before approval to avoid duplicate credit or refund execution."
        (rule_duplicate_review_required ∷ [])
    else if not (is_in c.issue_type standard_eligible_issue_types)
    then build_result needs_more_review medium_risk false false
        "This issue type is not recognized by the current policy rules. Manual review is required before approval."
        (rule_unknown_issue_type ∷ [])
    else if ltb_ℤ manager_approval_threshold_cents c.amount_cents
    then build_result requires_manager_approval medium_risk true false
        "Correction is eligible to move forward, but the amount exceeds the agent approval threshold and requires finance manager approval."
        (rule_standard_eligible ∷ rule_manager_approval_required ∷ [])
    else build_result eligible_for_approval low_risk false false
        "Correction is eligible to move forward for human approval under the current policy rules."
        (rule_standard_eligible ∷ [])
