-- ===== src/Policy/Outcomes.antt =====
-- src/policy/policy_engine.py: when each outcome is given, in terms of the case alone.
use billing_recovery_executi.Common.{
  String, Bool, not, some, true, false, List, [], ◌∷◌, ◌≡◌, ◌≢◌, ◌↔◌, ◌⊎◌, refl, arith, eq_iff,
  ne_of_test, is_in, ltb_ℤ, ◌==◌, ap, sym, if◌then◌else◌, ◌∙◌, inl, inr, Bool-cases,
}
use billing_recovery_executi.Table.{All}
use billing_recovery_executi.Database.{BillingCase}
use billing_recovery_executi.Policy.Engine.{PolicyResult, build_result, evaluate_policy}
use billing_recovery_executi.Policy.Service.{get_case_status_for_policy_outcome}
use billing_recovery_executi.Approvals.{outcome_allows}
use billing_recovery_executi.Rules.ApprovalRules.{finance_manager}
use billing_recovery_executi.Rules.PolicyRules.{
  supported_currency, manager_approval_threshold_cents, blocked_issue_types,
  duplicate_review_issue_types, standard_eligible_issue_types, eligible_for_approval,
  requires_manager_approval, needs_more_review, blocked, low_risk, medium_risk, high_risk,
}

not-true : {b : Bool} → not b ≡ true → b ≡ false
not-true {b = true} h = sym h
not-true {b = false} h = refl

-- A test that accepts each text of a list accepts what is in it.
is_in-accepted :
    (p : String → Bool) (t : String) (ts : List String)
    → All (λ s. p s ≡ true) ts
    → is_in t ts ≡ true
    → p t ≡ true
is_in-accepted p t [] h e = cc
is_in-accepted p t (s ∷ ts) h e = elim (Bool-cases (t == s)) [
  | inl x ↦ ap p ((eq_iff t s).0 x) ∙ h.0
  | inr x ↦ is_in-accepted p t ts h.1 (ground (arith, x, e))
]

-- A standard issue in the supported currency.
abbrev pub IsStandard : BillingCase → Type 0
IsStandard c =
    (c.currency ≡ supported_currency) × (is_in c.issue_type standard_eligible_issue_types ≡ true)

abbrev pub IsBlocked : BillingCase → Type 0
IsBlocked c = (c.currency ≢ supported_currency) ⊎ (is_in c.issue_type blocked_issue_types ≡ true)

-- The lists of issue types are disjoint.
standard-not-blocked :
    (t : String)
    → is_in t standard_eligible_issue_types ≡ true
    → (is_in t blocked_issue_types ≡ false) × (is_in t duplicate_review_issue_types ≡ false)
standard-not-blocked t h = (
  not-true (
      is_in-accepted (λ s. not (is_in s blocked_issue_types)) t standard_eligible_issue_types
        (refl, (refl, (refl, (refl, tt)))) h),
  not-true (
      is_in-accepted (λ s. not (is_in s duplicate_review_issue_types)) t
        standard_eligible_issue_types (refl, (refl, (refl, (refl, tt)))) h),
)

outcomes_differ :
    (eligible_for_approval ≢ requires_manager_approval)
    × (eligible_for_approval ≢ blocked)
    × (eligible_for_approval ≢ needs_more_review)
    × (requires_manager_approval ≢ blocked)
    × (requires_manager_approval ≢ needs_more_review)
    × (blocked ≢ needs_more_review)
outcomes_differ = (
  ne_of_test _ _ refl,
  ne_of_test _ _ refl,
  ne_of_test _ _ refl,
  ne_of_test _ _ refl,
  ne_of_test _ _ refl,
  ne_of_test _ _ refl,
)

-- Each outcome of `evaluate_policy` is given exactly in its cases: blocked for another currency than
-- EUR or a blocked issue type; for a standard issue in EUR, a manager is required where the amount
-- is above the threshold of 10000 cents, and the case is eligible where it is not; all others need
-- more review.
pub evaluate_policy-outcome :
    (c : BillingCase)
    → ((evaluate_policy c).outcome ≡ blocked ↔ IsBlocked c)
      × ((evaluate_policy c).outcome ≡ requires_manager_approval
          ↔ IsStandard c × (ltb_ℤ manager_approval_threshold_cents c.amount_cents ≡ true))
      × ((evaluate_policy c).outcome ≡ eligible_for_approval
          ↔ IsStandard c × (ltb_ℤ manager_approval_threshold_cents c.amount_cents ≡ false))
      × ((evaluate_policy c).outcome ≡ needs_more_review ↔ (¬ IsBlocked c) × (¬ IsStandard c))
unfolding evaluate_policy
evaluate_policy-outcome c = ground (
  arith,
  eq_iff c.currency supported_currency,
  standard-not-blocked c.issue_type,
  outcomes_differ,
)

-- The flags, the risk and the status of the case that follow from the outcome.
pub record Agrees (r : PolicyResult) : Type 0 where
  pub flag_blocked : r.is_blocked ≡ true ↔ r.outcome ≡ blocked
  pub flag_manager : r.needs_manager ≡ true ↔ r.outcome ≡ requires_manager_approval
  pub low_risk_only : r.risk_level ≡ low_risk ↔ r.outcome ≡ eligible_for_approval
  pub pending_only :
      get_case_status_for_policy_outcome r.outcome ≡ "pending_approval"
      ↔ (outcome_allows r.outcome (some finance_manager)).0 ≡ true

if-Agrees : (b : Bool) {r q : PolicyResult} → Agrees r → Agrees q → Agrees (if b then r else q)
if-Agrees true h k = h
if-Agrees false h k = k

risks_differ : (high_risk ≢ low_risk) × (medium_risk ≢ low_risk)
risks_differ = (ne_of_test _ _ refl, ne_of_test _ _ refl)

abbrev pending_approval : String
pending_approval = "pending_approval"

abbrev under_review : String
under_review = "under_review"

statuses_differ : (blocked ≢ pending_approval) × (under_review ≢ pending_approval)
statuses_differ = (ne_of_test _ _ refl, ne_of_test _ _ refl)

module _ (reason : String) (rules : List String) where
  blocked-Agrees : Agrees (build_result blocked high_risk false true reason rules)
  unfolding build_result get_case_status_for_policy_outcome outcome_allows
  blocked-Agrees = record {
    flag_blocked = ground (arith, outcomes_differ);
    flag_manager = ground (arith, outcomes_differ);
    low_risk_only = ground (arith, outcomes_differ, risks_differ);
    pending_only = ground (arith, statuses_differ);
  }

  review-Agrees : Agrees (build_result needs_more_review medium_risk false false reason rules)
  unfolding build_result get_case_status_for_policy_outcome outcome_allows
  review-Agrees = record {
    flag_blocked = ground (arith, outcomes_differ);
    flag_manager = ground (arith, outcomes_differ);
    low_risk_only = ground (arith, outcomes_differ, risks_differ);
    pending_only = ground (arith, statuses_differ);
  }

  manager-Agrees :
      Agrees (build_result requires_manager_approval medium_risk true false reason rules)
  unfolding build_result get_case_status_for_policy_outcome outcome_allows
  manager-Agrees = record {
    flag_blocked = ground (arith, outcomes_differ);
    flag_manager = ground (arith, outcomes_differ);
    low_risk_only = ground (arith, outcomes_differ, risks_differ);
    pending_only = ground (arith, statuses_differ);
  }

  eligible-Agrees : Agrees (build_result eligible_for_approval low_risk false false reason rules)
  unfolding build_result get_case_status_for_policy_outcome outcome_allows
  eligible-Agrees = record {
    flag_blocked = ground (arith, outcomes_differ);
    flag_manager = ground (arith, outcomes_differ);
    low_risk_only = ground (arith, outcomes_differ, risks_differ);
    pending_only = ground (arith, statuses_differ);
  }

-- The flags of a policy result agree with its outcome: it is blocked or needs a manager exactly
-- where the outcome says so, its risk is low exactly where the case is eligible, and the case waits
-- for approval exactly where a finance manager may decide on it.
pub evaluate_policy-Agrees : (c : BillingCase) → Agrees (evaluate_policy c)
unfolding evaluate_policy build_result
evaluate_policy-Agrees c =
    search (if-Agrees, blocked-Agrees, review-Agrees, manager-Agrees, eligible-Agrees) depth 20
