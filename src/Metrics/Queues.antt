-- ===== src/Metrics/Queues.antt =====
-- src/analytics/ops_metrics.py: the two queues, each a JOIN of execution requests with their cases.
use billing_recovery_executi.Common.{
  ℕ, ℤ, String, Bool, not, Option, List, [], ◌∷◌, ◌++◌, ◌==◌, ◌&&◌, is_in, if◌then◌else◌,
}
use billing_recovery_executi.Table.{select, exists, Sorter, ascending, ascending_then}
use billing_recovery_executi.Database.{
  BillingCase, ExecutionRequest, ReconciliationRun, Action, gets,
}
use billing_recovery_executi.History.{priority_rank}

pub record NeedsAttention : Type 0 where
  pub case_id : String
  pub customer_name : String
  pub invoice_id : String
  pub issue_type : String
  pub priority : String
  pub execution_request_id : String
  pub execution_status : String
  pub operation_type : String
  pub approved_amount_cents : ℤ
  pub currency : String
  pub updated_at : ℕ

-- FROM execution_requests er JOIN billing_cases bc ON er.case_id = bc.case_id WHERE p er, with the
-- columns that `row` takes.
abbrev pub join_case :
    {A : Type 0}
    → (BillingCase → ExecutionRequest → A)
    → ExecutionRequest
    → List BillingCase
    → List A
join_case row er [] = []
join_case row er (bc ∷ cases) =
    let rest = join_case row er cases in if er.case_id == bc.case_id then row bc er ∷ rest else rest

abbrev pub join :
    {A : Type 0}
    → (BillingCase → ExecutionRequest → A)
    → List ExecutionRequest
    → List BillingCase
    → List A
join row [] cases = []
join row (er ∷ requests) cases = join_case row er cases ++ join row requests cases

abbrev pub needs_attention_statuses : List String
needs_attention_statuses = "failed_transient" ∷ "failed_permanent" ∷ "needs_manual_review" ∷ []

abbrev pub attention_row : BillingCase → ExecutionRequest → NeedsAttention
attention_row bc er = record {
  case_id = bc.case_id;
  customer_name = bc.customer_name;
  invoice_id = bc.invoice_id;
  issue_type = bc.issue_type;
  priority = bc.priority;
  execution_request_id = er.execution_request_id;
  execution_status = er.status;
  operation_type = er.operation_type;
  approved_amount_cents = er.approved_amount_cents;
  currency = er.currency;
  updated_at = er.updated_at;
}

pub record Unreconciled : Type 0 where
  pub case_id : String
  pub customer_name : String
  pub execution_request_id : String
  pub execution_status : String
  pub provider_object_id : Option String
  pub updated_at : ℕ

abbrev pub unreconciled_row : BillingCase → ExecutionRequest → Unreconciled
unreconciled_row bc er = record {
  case_id = bc.case_id;
  customer_name = bc.customer_name;
  execution_request_id = er.execution_request_id;
  execution_status = er.status;
  provider_object_id = er.provider_object_id;
  updated_at = er.updated_at;
}

abbrev pub terminal_statuses : List String
terminal_statuses =
    "succeeded" ∷ "failed_transient" ∷ "failed_permanent" ∷ "needs_manual_review" ∷ []

abbrev pub reconciled_results : List String
reconciled_results =
    "matched_success" ∷ "matched_failure" ∷ "unknown_provider_state"
    ∷ "provider_succeeded_internal_not_recorded" ∷ "internal_succeeded_provider_missing" ∷ []

-- execution_request_id IN (SELECT ... FROM reconciliation_runs WHERE result IN (...))
abbrev pub has_verdict : List ReconciliationRun → ExecutionRequest → Bool
has_verdict runs er =
    exists
      (λ r. is_in r.result reconciled_results && r.execution_request_id == er.execution_request_id)
      runs

module _ (sorter : Sorter) where
  unfoldable pub get_needs_attention_queue : Action (List NeedsAttention)
  get_needs_attention_queue = gets (λ db.
      sorter.order_by (ascending_then (λ q. priority_rank q.priority) (λ q. q.updated_at)) (
        join attention_row
          (select (λ er. is_in er.status needs_attention_statuses) db.execution_requests)
          db.billing_cases))

  unfoldable pub get_unreconciled_execution_queue : Action (List Unreconciled)
  get_unreconciled_execution_queue = gets (λ db. sorter.order_by (ascending (λ q. q.updated_at)) (
      join unreconciled_row
        (select
          (λ er. is_in er.status terminal_statuses && not (has_verdict db.reconciliation_runs er))
          db.execution_requests)
        db.billing_cases))
