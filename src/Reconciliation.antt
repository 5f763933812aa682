-- ===== src/Reconciliation.antt =====
-- src/reconciliation/reconciliation_service.py: comparing a request with the provider's state.
pub mod Verdicts
mod Rows
pub mod Outcomes
use billing_recovery_executi.Common.{
  String, Bool, not, Option, none, some, [], ◌∷◌, ◌++◌, ◌==◌, ◌&&◌, ◌||◌, is_in, is_text, text_or,
  if◌then◌else◌, fstring,
}
use billing_recovery_executi.Table.{exists}
use billing_recovery_executi.Database.{
  text, optional, Database, ExecutionRequest, ReconciliationRun, Env, ApiResult, returned, raised,
  Action, pure, insert, draw_uuid8, now, ◌>>=◌, ◌>>◌,
}
use billing_recovery_executi.Audit.{record_audit_event}
use billing_recovery_executi.Cases.{update_case_status}
use billing_recovery_executi.Providers.Types.{ProviderLookup}
use billing_recovery_executi.Providers.Mock.{lookup_provider_state}
use billing_recovery_executi.Providers.Stripe.{python_error}
use billing_recovery_executi.Providers.StripeRefunds.{
  lookup_stripe_refund_state, build_mock_stripe_refund_lookup, build_stripe_refund_lookup_fallback,
}
use billing_recovery_executi.Execution.Requests.{
  get_execution_request_by_id, found, update_execution_request_status, mark_execution_reconciled,
}
use billing_recovery_executi.Rules.ExecutionRules.{
  stripe_test_mode, provider_succeeded, provider_not_found, provider_unknown, reconciled, succeeded,
  failed_transient, failed_permanent, needs_manual_review, recon_matched_success,
  recon_matched_failure, recon_provider_succeeded_internal_not_recorded,
  recon_internal_succeeded_provider_missing, recon_unknown_provider_state, recon_not_ready,
  recon_action_mark_reconciled, recon_action_route_manual_review, recon_action_no_change,
  case_status_needs_manual_review,
}
use billing_recovery_executi.Rules.DependencyModes.{
  dependency_mode_forced_mock, dependency_mode_live,
}

pub record ReconciliationResult : Type 0 where
  pub result : String
  pub mismatch_reason : Option String
  pub action_taken : String

abbrev verdict : String → Option String → String → ReconciliationResult
verdict result mismatch_reason action_taken = record {
  result = result;
  mismatch_reason = mismatch_reason;
  action_taken = action_taken;
}

-- The two statuses that `_evaluate_reconciliation` compares.
unfoldable pub compare_states : String → String → ReconciliationResult
compare_states internal_status provider_status =
    if internal_status == reconciled
    then verdict recon_matched_success (some "Execution request is already reconciled.")
        recon_action_no_change
    else if internal_status == succeeded && provider_status == provider_succeeded
    then verdict recon_matched_success none recon_action_mark_reconciled
    else if is_in internal_status (failed_transient ∷ failed_permanent ∷ [])
        && provider_status == provider_not_found
    then verdict recon_matched_failure none recon_action_no_change
    else if not (internal_status == succeeded) && provider_status == provider_succeeded
    then verdict recon_provider_succeeded_internal_not_recorded
        (some
          "Provider source of truth shows success, but internal execution status does not record a successful provider write.")
        recon_action_route_manual_review
    else if internal_status == succeeded && provider_status == provider_not_found
    then verdict recon_internal_succeeded_provider_missing
        (some
          "Internal state says execution succeeded, but provider source of truth does not show a matching object.")
        recon_action_route_manual_review
    else if provider_status == provider_unknown || internal_status == needs_manual_review
    then verdict recon_unknown_provider_state
        (some
          "Provider state is unknown. This execution should remain in manual review until an operator verifies the source of truth.")
        recon_action_route_manual_review
    else verdict recon_not_ready
        (some "Execution request is not in a terminal state suitable for reconciliation.")
        recon_action_no_change

unfoldable pub evaluate_reconciliation : ExecutionRequest → ProviderLookup → ReconciliationResult
unfolding compare_states
evaluate_reconciliation request lookup = compare_states request.status lookup.provider_status

abbrev pub has_run : String → Database → Bool
has_run reconciliation_id db =
    exists (λ r. r.reconciliation_id == reconciliation_id) db.reconciliation_runs

abbrev pub add_run : ReconciliationRun → Database → Database
add_run r db = record db { reconciliation_runs = db.reconciliation_runs ++ r ∷ [] }

-- The `try` of the live mode.
unfoldable pub caught_lookup : ApiResult ProviderLookup → ProviderLookup
caught_lookup (returned lookup) = lookup
caught_lookup (raised error) = build_stripe_refund_lookup_fallback error

module _ (env : Env) where
  -- `_lookup_provider_state_for_reconciliation`
  unfoldable pub lookup_for_reconciliation :
      ExecutionRequest → Option String → Option String → Action ProviderLookup
  unfolding caught_lookup
  lookup_for_reconciliation request simulated dependency_mode =
      if request.provider == stripe_test_mode
      then (if is_text dependency_mode dependency_mode_forced_mock
          then pure (build_mock_stripe_refund_lookup request)
          else if is_text dependency_mode dependency_mode_live
          then (do answer ← lookup_stripe_refund_state env request; pure (caught_lookup answer))
          else pure (
              build_stripe_refund_lookup_fallback (
                python_error "ValueError" (
                  fstring (
                    "Unsupported Stripe reconciliation mode: "
                    ∷ text_or dependency_mode "None"
                    ∷ [])))))
      else pure (lookup_provider_state request simulated)

  -- `_apply_reconciliation_action`
  unfoldable pub apply_reconciliation_action : ExecutionRequest → String → Action (Unit {0})
  apply_reconciliation_action request action_taken =
      if action_taken == recon_action_mark_reconciled
      then mark_execution_reconciled env request.execution_request_id
      else if action_taken == recon_action_route_manual_review
      then (do
        update_execution_request_status env request.execution_request_id needs_manual_review
        update_case_status env request.case_id case_status_needs_manual_review)
      else pure tt

  -- The dictionary that is returned is the row without its time.
  unfoldable pub run_reconciliation :
      (request_id : String) (simulated dependency_mode : Option String) → Action ReconciliationRun
  run_reconciliation request_id simulated dependency_mode = do
    read ← get_execution_request_by_id request_id
    request ← found read
    lookup ← lookup_for_reconciliation request simulated dependency_mode
    let outcome = evaluate_reconciliation request lookup
    uuid ← draw_uuid8 env
    let reconciliation_id = fstring ("REC-" ∷ uuid ∷ [])
    at ← now env
    let run : ReconciliationRun = record {
      reconciliation_id = reconciliation_id;
      execution_request_id = request_id;
      internal_status = request.status;
      provider_status = lookup.provider_status;
      provider_object_id = lookup.provider_object_id;
      result = outcome.result;
      mismatch_reason = outcome.mismatch_reason;
      action_taken = outcome.action_taken;
      created_at = at;
    }
    insert "reconciliation_runs.reconciliation_id" (has_run reconciliation_id) (add_run run)
    record_audit_event env (some request.case_id) "reconciliation_run" reconciliation_id
        "reconciliation_completed" "system" "reconciliation_service"
        (("execution_request_id", text request_id)
          ∷ ("internal_status", text request.status)
          ∷ ("provider_status", text lookup.provider_status)
          ∷ ("provider_object_id", optional lookup.provider_object_id)
          ∷ ("result", text outcome.result)
          ∷ ("mismatch_reason", optional outcome.mismatch_reason)
          ∷ ("action_taken", text outcome.action_taken)
          ∷ [])
    apply_reconciliation_action request outcome.action_taken
    pure run
