-- ===== src/Execution/Requests.antt =====
-- src/execution/execution_service.py: the queries and updates of single execution requests.
use billing_recovery_executi.Common.{
  ℕ, String, Bool, false, Option, none, some, List, [], ◌∷◌, ◌==◌, truthy, if◌then◌else◌,
}
use billing_recovery_executi.Table.{select, fetch_one, count, update, get_elem?, column}
use billing_recovery_executi.Database.{
  text, Database, ExecutionRequest, ExecutionAttempt, Env, Action, value_error, pure, raise, gets,
  modify, now, ◌>>=◌, ◌>>◌,
}
use billing_recovery_executi.Audit.{record_audit_event}
use billing_recovery_executi.Cases.{update_case_status}
use billing_recovery_executi.Execution.RetryPolicy.{RetryEligibility, evaluate_retry_eligibility}
use billing_recovery_executi.Rules.ExecutionRules.{reconciled, case_status_reconciled}

-- WHERE execution_request_id = ?, of requests and of attempts.
abbrev pub has_id : String → ExecutionRequest → Bool
has_id request_id r = r.execution_request_id == request_id

abbrev pub is_of : String → ExecutionAttempt → Bool
is_of request_id a = a.execution_request_id == request_id

unfoldable pub get_execution_request_by_id : String → Action (Option ExecutionRequest)
get_execution_request_by_id request_id =
    gets (λ db. fetch_one (has_id request_id) db.execution_requests)

unfoldable pub get_execution_attempt_count : String → Action ℕ
get_execution_attempt_count request_id = gets (λ db. count (is_of request_id) db.execution_attempts)

-- `if execution_request is None: raise ValueError("Execution request not found.")`
unfoldable pub found : Option ExecutionRequest → Action ExecutionRequest
unfolding pure raise
found none = raise (value_error "Execution request not found.")
found (some r) = pure r

eligibility_of : Option ExecutionRequest → ℕ → RetryEligibility
eligibility_of none attempt_count = record {
  is_retryable = false;
  reason = "Execution request not found.";
  attempts_remaining = 0;
}
eligibility_of (some r) attempt_count = evaluate_retry_eligibility r attempt_count

unfoldable pub get_retry_eligibility : String → Action RetryEligibility
unfolding eligibility_of
get_retry_eligibility request_id = do
  request ← get_execution_request_by_id request_id
  attempt_count ← get_execution_attempt_count request_id
  pure (eligibility_of request attempt_count)

-- UPDATE execution_requests SET ... WHERE execution_request_id = ?
abbrev pub update_requests : String → (ExecutionRequest → ExecutionRequest) → Database → Database
update_requests request_id f db = record db {
  execution_requests = update (has_id request_id) f db.execution_requests;
}

-- SET status, and provider_object_id where there is one that is not empty.
abbrev pub with_status : String → Option String → ℕ → ExecutionRequest → ExecutionRequest
with_status status object_id at r =
    if truthy object_id
    then record r { status = status; provider_object_id = object_id; updated_at = at }
    else record r { status = status; updated_at = at }

module _ (env : Env) where
  abbrev pub latest_request :
      (ExecutionRequest → Bool) → List ExecutionRequest → Option ExecutionRequest
  latest_request p t =
      let rows = select p t in get_elem? rows (env.latest (column (λ r. r.created_at) rows))

  unfoldable pub get_latest_execution_request : String → Action (Option ExecutionRequest)
  get_latest_execution_request case_id =
      gets (λ db. latest_request (λ r. r.case_id == case_id) db.execution_requests)

  unfoldable pub get_execution_request_by_approval_id : String → Action (Option ExecutionRequest)
  get_execution_request_by_approval_id approval_id =
      gets (λ db. latest_request (λ r. r.approval_id == approval_id) db.execution_requests)

  -- `_update_execution_request_status`
  unfoldable pub set_execution_request_status : String → String → Option String → Action (Unit {0})
  set_execution_request_status request_id status provider_object_id = do
    at ← now env
    modify (update_requests request_id (with_status status provider_object_id at))

  -- `_update_execution_request_provider_and_status`
  unfoldable pub update_execution_request_provider_and_status :
      String → String → String → Action (Unit {0})
  update_execution_request_provider_and_status request_id provider status = do
    at ← now env
    modify (
        update_requests request_id
          (λ r. record r { provider = provider; status = status; updated_at = at }))

  unfoldable pub update_execution_request_status : String → String → Action (Unit {0})
  update_execution_request_status request_id status = do
    row ← get_execution_request_by_id request_id
    request ← found row
    set_execution_request_status request_id status none
    record_audit_event env (some request.case_id) "execution_request" request_id
        "execution_status_updated" "system" "execution_service"
        (("previous_status", text request.status) ∷ ("new_status", text status) ∷ [])
    pure tt

  unfoldable pub mark_execution_reconciled : String → Action (Unit {0})
  mark_execution_reconciled request_id = do
    row ← get_execution_request_by_id request_id
    request ← found row
    set_execution_request_status request_id reconciled none
    update_case_status env request.case_id case_status_reconciled
    record_audit_event env (some request.case_id) "execution_request" request_id
        "execution_marked_reconciled" "system" "reconciliation_service"
        (("previous_status", text request.status) ∷ ("new_status", text reconciled) ∷ [])
    pure tt

  unfoldable pub attach_provider_reference : String → String → Action (Unit {0})
  attach_provider_reference request_id provider_object_id = do
    row ← get_execution_request_by_id request_id
    request ← found row
    at ← now env
    modify (
        update_requests request_id
          (λ r. record r { provider_object_id = some provider_object_id; updated_at = at }))
