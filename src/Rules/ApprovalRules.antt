-- ===== src/Rules/ApprovalRules.antt =====
-- src/approvals/approval_rules.py: the constants of approvals.
use billing_recovery_executi.Common.{String, List, [], ◌∷◌}

abbrev pub approved : String
approved = "approved"

abbrev pub rejected : String
rejected = "rejected"

abbrev pub approval_decisions : List String
approval_decisions = approved ∷ rejected ∷ []

abbrev pub billing_ops_agent : String
billing_ops_agent = "billing_ops_agent"

abbrev pub finance_manager : String
finance_manager = "finance_manager"

abbrev pub approver_roles : List String
approver_roles = billing_ops_agent ∷ finance_manager ∷ []

abbrev pub refund : String
refund = "refund"

abbrev pub credit_note : String
credit_note = "credit_note"

abbrev pub hold_for_manual_review : String
hold_for_manual_review = "hold_for_manual_review"

abbrev pub approved_actions : List String
approved_actions = refund ∷ credit_note ∷ hold_for_manual_review ∷ []

abbrev pub status_approved : String
status_approved = "approved"

abbrev pub status_rejected : String
status_rejected = "rejected"
