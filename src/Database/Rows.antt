-- ===== src/Database/Rows.antt =====
-- One record for each CREATE TABLE of src/database.py, and the database.
use billing_recovery_executi.Common.{ℕ, ℤ, Bool, String, Option, none, some, List}

-- What the values of a JSON object are in this program.
pub data Value : Type 0 where
  null : Value
  text : String → Value
  int : ℤ → Value
  bool : Bool → Value
  texts : List String → Value

abbrev pub Json : Type 0
Json = List (String × Value)

-- The JSON value of a text that may be None.
abbrev pub optional : Option String → Value
optional none = null
optional (some s) = text s

pub record BillingCase : Type 0 where
  pub case_id : String
  pub customer_name : String
  pub customer_id : String
  pub invoice_id : String
  pub issue_type : String
  pub amount_cents : ℤ
  pub currency : String
  pub priority : String
  pub status : String
  pub evidence_summary : String
  pub proposed_correction : String
  pub created_at : ℕ
  pub updated_at : ℕ

pub record PolicyEvaluation : Type 0 where
  pub evaluation_id : String
  pub case_id : String
  pub outcome : String
  pub risk_level : String
  pub requires_manager_approval : ℤ
  pub is_blocked : ℤ
  pub primary_reason : String
  pub rules_triggered : List String
  pub created_at : ℕ

pub record Approval : Type 0 where
  pub approval_id : String
  pub case_id : String
  pub policy_evaluation_id : String
  pub approver_name : String
  pub approver_role : String
  pub decision : String
  pub approved_action : String
  pub approved_amount_cents : ℤ
  pub rationale : String
  pub created_at : ℕ

pub record ExecutionRequest : Type 0 where
  pub execution_request_id : String
  pub case_id : String
  pub approval_id : String
  pub operation_type : String
  pub provider : String
  pub approved_amount_cents : ℤ
  pub currency : String
  pub idempotency_key : String
  pub status : String
  pub provider_object_id : Option String
  pub created_at : ℕ
  pub updated_at : ℕ

pub record ExecutionAttempt : Type 0 where
  pub attempt_id : String
  pub execution_request_id : String
  pub attempt_number : ℕ
  pub provider : String
  pub request_payload : Json
  pub response_payload : Json
  pub provider_status : String
  pub error_type : Option String
  pub error_code : Option String
  pub error_message : Option String
  pub started_at : ℕ
  pub finished_at : Option ℕ

pub record ReconciliationRun : Type 0 where
  pub reconciliation_id : String
  pub execution_request_id : String
  pub internal_status : String
  pub provider_status : String
  pub provider_object_id : Option String
  pub result : String
  pub mismatch_reason : Option String
  pub action_taken : String
  pub created_at : ℕ

pub record ManualRecoveryAction : Type 0 where
  pub manual_recovery_id : String
  pub execution_request_id : String
  pub action_type : String
  pub operator_name : String
  pub rationale : String
  pub provider_reference_id : Option String
  pub previous_execution_status : String
  pub new_execution_status : String
  pub created_at : ℕ

pub record AuditEvent : Type 0 where
  pub event_id : String
  pub case_id : Option String
  pub entity_type : String
  pub entity_id : String
  pub event_type : String
  pub actor_type : String
  pub actor_name : String
  pub details : Json
  pub created_at : ℕ

pub record StripeTestPayment : Type 0 where
  pub stripe_test_payment_id : String
  pub case_id : String
  pub dependency_mode : String
  pub runtime_result : String
  pub source : String
  pub payment_intent_id : String
  pub charge_id : Option String
  pub amount_cents : ℤ
  pub currency : String
  pub payment_status : String
  pub error_message : Option String
  pub created_at : ℕ

pub record AiCaseBrief : Type 0 where
  pub brief_id : String
  pub case_id : String
  pub dependency_mode : String
  pub runtime_result : String
  pub source : String
  pub summary : String
  pub customer_impact : String
  pub missing_evidence : List String
  pub risk_notes : List String
  pub suggested_reviewer_questions : List String
  pub customer_message_draft : String
  pub error_message : Option String
  pub created_at : ℕ

pub record Database : Type 0 where
  pub billing_cases : List BillingCase
  pub policy_evaluations : List PolicyEvaluation
  pub approvals : List Approval
  pub execution_requests : List ExecutionRequest
  pub execution_attempts : List ExecutionAttempt
  pub reconciliation_runs : List ReconciliationRun
  pub manual_recovery_actions : List ManualRecoveryAction
  pub audit_events : List AuditEvent
  pub stripe_test_payments : List StripeTestPayment
  pub ai_case_briefs : List AiCaseBrief
  pub tick : ℕ
