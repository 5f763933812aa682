-- ===== src/Rules/PolicyRules.antt =====
-- src/policy/rules.py: the constants of the policy engine.
use billing_recovery_executi.Common.{String, List, [], ◌∷◌, ℤ, pos}

abbrev pub supported_currency : String
supported_currency = "EUR"

abbrev pub manager_approval_threshold_cents : ℤ
manager_approval_threshold_cents = pos 10000

abbrev pub blocked_issue_types : List String
blocked_issue_types = "currency_mismatch" ∷ []

abbrev pub duplicate_review_issue_types : List String
duplicate_review_issue_types = "possible_duplicate_correction" ∷ []

abbrev pub standard_eligible_issue_types : List String
standard_eligible_issue_types =
    "duplicate_charge" ∷ "wrong_plan_price" ∷ "discount_not_applied" ∷ "goodwill_credit" ∷ []

abbrev pub eligible_for_approval : String
eligible_for_approval = "eligible_for_approval"

abbrev pub requires_manager_approval : String
requires_manager_approval = "requires_manager_approval"

abbrev pub needs_more_review : String
needs_more_review = "needs_more_review"

abbrev pub blocked : String
blocked = "blocked"

abbrev pub low_risk : String
low_risk = "low"

abbrev pub medium_risk : String
medium_risk = "medium"

abbrev pub high_risk : String
high_risk = "high"

abbrev pub rule_unsupported_currency : String
rule_unsupported_currency = "unsupported_currency"

abbrev pub rule_blocked_issue_type : String
rule_blocked_issue_type = "blocked_issue_type"

abbrev pub rule_duplicate_review_required : String
rule_duplicate_review_required = "duplicate_review_required"

abbrev pub rule_manager_approval_required : String
rule_manager_approval_required = "manager_approval_required"

abbrev pub rule_standard_eligible : String
rule_standard_eligible = "standard_eligible_issue_type"

abbrev pub rule_unknown_issue_type : String
rule_unknown_issue_type = "unknown_issue_type"
