-- ===== src/Metrics/Joins.antt =====
-- src/analytics/ops_metrics.py: the JOIN of execution requests with their cases, counted.
use billing_recovery_executi.Common.{
  ◌+◌, String, Bool, List, [], ◌∷◌, ◌++◌, ◌==◌, ◌&&◌, ◌≡◌, refl, arith, if◌then◌else◌,
}
use billing_recovery_executi.Table.{All, select, count}
use billing_recovery_executi.Database.{BillingCase, ExecutionRequest}
use billing_recovery_executi.Metrics.Queues.{join_case, join}

module _ {A : Type 0} where
  count-append_list : (p : A → Bool) (t u : List A) → count p (t ++ u) ≡ count p t + count p u
  count-append_list p [] u = omega arith
  count-append_list p (a ∷ t) u = ground (arith, count-append_list p t u)

abbrev case_of : ExecutionRequest → BillingCase → Bool
case_of r c = r.case_id == c.case_id

-- Every request has one case.
abbrev pub HaveCases : List ExecutionRequest → List BillingCase → Type 0
HaveCases requests cases = All (λ r. count (case_of r) cases ≡ 1) requests

module _ {A : Type 0} (row : BillingCase → ExecutionRequest → A) (shows : A → Bool) (id : String)
    (shown : (c : BillingCase) (r : ExecutionRequest)
      → shows (row c r) ≡ (r.execution_request_id == id)) where
  count-join_case :
      (r : ExecutionRequest) (cases : List BillingCase)
      → count shows (join_case row r cases)
        ≡ (if r.execution_request_id == id then count (case_of r) cases else 0)
  count-join_case r [] = ground arith
  count-join_case r (c ∷ cases) = ground (arith, shown c r, count-join_case r cases)

  -- A request is in the join as often as it is selected.
  pub count-join :
      (p : ExecutionRequest → Bool) (requests : List ExecutionRequest) (cases : List BillingCase)
      → HaveCases requests cases
      → count shows (join row (select p requests) cases)
        ≡ count (λ r. r.execution_request_id == id && p r) requests
  count-join p [] cases h = refl
  count-join p (r ∷ requests) cases h = ground (
    arith,
    count-join p requests cases,
    count-join_case r cases,
    count-append_list shows (join_case row r cases) (join row (select p requests) cases),
  )
