-- ===== src/Metrics/Counts.antt =====
-- src/analytics/ops_metrics.py: the counts. A data frame is the list of its rows.
use billing_recovery_executi.Common.{
  ℕ, ◌+◌, String, Bool, true, List, [], ◌∷◌, ◌==◌, ltb, is_in, is_text, if◌then◌else◌,
}
use billing_recovery_executi.Table.{count, column, Sorter, descending}
use billing_recovery_executi.Database.{ExecutionAttempt, Action, gets}

pub record StatusCount : Type 0 where
  pub status : String
  pub rows : ℕ

-- One more row of a status.
abbrev pub add_status : String → List StatusCount → List StatusCount
add_status s [] = record { status = s; rows = 1 } ∷ []
add_status s (g ∷ groups) =
    let rest = add_status s groups in
    if g.status == s then record g { rows = g.rows + 1 } ∷ groups else g ∷ rest

-- SELECT status, COUNT(*) ... GROUP BY status
abbrev pub group_by_status : List String → List StatusCount
group_by_status [] = []
group_by_status (s ∷ statuses) = add_status s (group_by_status statuses)

module _ (sorter : Sorter) where
  unfoldable pub get_execution_status_counts : Action (List StatusCount)
  get_execution_status_counts = gets (λ db.
      sorter.order_by (descending (λ g. g.rows))
        (group_by_status (column (λ r. r.status) db.execution_requests)))

  unfoldable pub get_case_status_counts : Action (List StatusCount)
  get_case_status_counts = gets (λ db.
      sorter.order_by (descending (λ g. g.rows))
        (group_by_status (column (λ c. c.status) db.billing_cases)))

-- The rate is kept as the fraction that the source divides, 0 of 1 where there is no attempt.
pub record AttemptMetrics : Type 0 where
  pub total_attempts : ℕ
  pub successful_attempts : ℕ
  pub transient_failures : ℕ
  pub permanent_failures : ℕ
  pub unknown_failures : ℕ
  pub attempt_success_rate : ℕ × ℕ

abbrev pub all_rows : {A : Type 0} → A → Bool
all_rows a = true

abbrev pub of_error : String → ExecutionAttempt → Bool
of_error error_type a = is_text a.error_type error_type

unfoldable pub attempt_metrics : List ExecutionAttempt → AttemptMetrics
attempt_metrics attempts =
    let total_attempts = count all_rows attempts in
    let successful_attempts = count (λ a. a.provider_status == "succeeded") attempts in
    record {
      total_attempts = total_attempts;
      successful_attempts = successful_attempts;
      transient_failures = count (of_error "transient") attempts;
      permanent_failures = count (of_error "permanent") attempts;
      unknown_failures = count (of_error "unknown") attempts;
      attempt_success_rate =
          if ltb 0 total_attempts then (successful_attempts, total_attempts) else (0, 1);
    }

unfoldable pub get_execution_attempt_metrics : Action AttemptMetrics
unfolding attempt_metrics
get_execution_attempt_metrics = gets (λ db. attempt_metrics db.execution_attempts)

pub record ReconciliationMetrics : Type 0 where
  pub total_reconciliation_runs : ℕ
  pub matched_success : ℕ
  pub matched_failure : ℕ
  pub mismatches_or_unknowns : ℕ

abbrev pub mismatch_results : List String
mismatch_results =
    "provider_succeeded_internal_not_recorded" ∷ "internal_succeeded_provider_missing"
    ∷ "unknown_provider_state" ∷ []

unfoldable pub get_reconciliation_metrics : Action ReconciliationMetrics
get_reconciliation_metrics = gets (λ db. record {
  total_reconciliation_runs = count all_rows db.reconciliation_runs;
  matched_success = count (λ r. r.result == "matched_success") db.reconciliation_runs;
  matched_failure = count (λ r. r.result == "matched_failure") db.reconciliation_runs;
  mismatches_or_unknowns = count (λ r. is_in r.result mismatch_results) db.reconciliation_runs;
})

pub record ManualRecoveryMetrics : Type 0 where
  pub total_manual_recovery_actions : ℕ
  pub manually_resolved : ℕ
  pub cancelled : ℕ

unfoldable pub get_manual_recovery_metrics : Action ManualRecoveryMetrics
get_manual_recovery_metrics = gets (λ db. record {
  total_manual_recovery_actions = count all_rows db.manual_recovery_actions;
  manually_resolved =
      count (λ a. a.new_execution_status == "manually_resolved") db.manual_recovery_actions;
  cancelled = count (λ a. a.new_execution_status == "cancelled") db.manual_recovery_actions;
})
