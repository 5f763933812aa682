-- ===== src/Tests/Inputs.antt =====
-- An environment, cases and a session to run.
use billing_recovery_executi.Recovery.{RecoveryForm}
use billing_recovery_executi.Common.{
  String, ℕ, suc, true, ◌≤◌, pos, none, some, List, [], ◌∷◌, ◌≡◌, ◌≢◌, refl, arith, show_ℕ, ltb,
  if◌then◌else◌,
}
use billing_recovery_executi.Table.{get_elem?, All}
use billing_recovery_executi.Database.{
  Database, BillingCase, ExecutionRequest, Env, PicksLatest, ErrorClass, ApiResult,
}
use billing_recovery_executi.Approvals.{Decision}
use billing_recovery_executi.Workflow.{Command}

-- The place of the first of the latest times, and that time.
unfoldable pub latest_of : List ℕ → ℕ × ℕ
latest_of [] = (0, 0)
latest_of (t ∷ ts) =
    let (place, best) = latest_of ts in if ltb t best then (suc place, best) else (0, t)

latest_of-All : (t : ℕ) (ts : List ℕ) → (latest_of ts).1 ≤ t → All (λ u. u ≤ t) ts
unfolding latest_of
latest_of-All t [] h = tt
latest_of-All t (u ∷ ts) h = (ground arith, latest_of-All t ts (ground arith))

latest_of_get : (ts : List ℕ) → ts ≢ [] → get_elem? ts (latest_of ts).0 ≡ some (latest_of ts).1
unfolding latest_of
latest_of_get [] h = absurd (h refl)
latest_of_get (t ∷ []) h = ground arith
latest_of_get (t ∷ u ∷ ts) h = ground (arith, latest_of_get (u ∷ ts))

abbrev no_call : {A : Type 0} → ApiResult A
no_call = ApiResult.raised (record {
  class = ErrorClass.api_connection;
  class_name = "APIConnectionError";
  message = "no network";
  code = none;
  http_status = none;
})

unfoldable pub demo : Env
unfolding latest_of
demo = record {
  uuid8 = show_ℕ;
  uuid10 = show_ℕ;
  timestamp = λ n. n;
  latest = λ ts. (latest_of ts).0;
  stripe_secret_key = none;
  refund_create = λ n p. no_call;
  refund_retrieve = λ n p. no_call;
  encodable = λ s. true;
  openai_model = none;
  openai_respond = λ n m p. no_call;
  payment_intent_create = λ n p. no_call;
}

pub demo-PicksLatest : PicksLatest demo
unfolding demo
demo-PicksLatest = record {
  picks = λ ts h.
      ((latest_of ts).1, latest_of_get ts h, latest_of-All (latest_of ts).1 ts (omega arith));
}

abbrev pub duplicate_charge : BillingCase
duplicate_charge = record {
  case_id = "CASE-1003";
  customer_name = "Northwind";
  customer_id = "CUST-3";
  invoice_id = "INV-3";
  issue_type = "duplicate_charge";
  amount_cents = pos 4900;
  currency = "EUR";
  priority = "high";
  status = "new";
  evidence_summary = "Two charges for one invoice.";
  proposed_correction = "Refund one charge.";
  created_at = 0;
  updated_at = 0;
}

abbrev pub decision : Decision
decision = record {
  approver_name = "Ada";
  approver_role = "billing_ops_agent";
  decision = "approved";
  approved_action = "refund";
  approved_amount_cents = some (pos 4900);
  rationale = "Charged twice.";
}

abbrev pub fresh : Database
fresh = record {
  billing_cases = duplicate_charge ∷ [];
  policy_evaluations = [];
  approvals = [];
  execution_requests = [];
  execution_attempts = [];
  reconciliation_runs = [];
  manual_recovery_actions = [];
  audit_events = [];
  stripe_test_payments = [];
  ai_case_briefs = [];
  tick = 0;
}

-- Evaluate, approve and create a request: its identifier is EXE-10.
abbrev pub preparation : List Command
preparation =
    Command.evaluate duplicate_charge
    ∷ Command.decide "CASE-1003" decision
    ∷ Command.create duplicate_charge
    ∷ []

-- A transient failure and two retries, then a retry too many.
abbrev pub attempts : List Command
attempts =
    Command.execute_mock "EXE-10" "transient_failure"
    ∷ Command.retry "EXE-10" "transient_failure"
    ∷ Command.retry "EXE-10" "transient_failure"
    ∷ Command.retry "EXE-10" "success"
    ∷ []

-- A request with a status, alone in the database with its case.
abbrev pub request_with : String → ExecutionRequest
request_with status = record {
  execution_request_id = "EXE-1";
  case_id = "CASE-1003";
  approval_id = "APP-1";
  operation_type = "refund";
  provider = "mock_billing_provider";
  approved_amount_cents = pos 4900;
  currency = "EUR";
  idempotency_key = "billing_adjustment:CASE-1003:APP-1:refund:4900";
  status = status;
  provider_object_id = none;
  created_at = 0;
  updated_at = 0;
}

abbrev pub with_request : String → Database
with_request status = record fresh { execution_requests = request_with status ∷ [] }

abbrev pub recovery : RecoveryForm
recovery = record {
  action_type = "cancel_execution";
  operator_name = "Ada";
  rationale = "Duplicate.";
  provider_reference_id = none;
}
