-- ===== src/Rules/ExecutionRules.antt =====
-- src/execution/execution_rules.py: the constants of execution requests, attempts, reconciliation and manual recovery.
use billing_recovery_executi.Common.{String, List, [], ◌∷◌, ℕ}

abbrev pub execution_pending : String
execution_pending = "execution_pending"

abbrev pub processing : String
processing = "processing"

abbrev pub retrying : String
retrying = "retrying"

abbrev pub succeeded : String
succeeded = "succeeded"

abbrev pub failed_transient : String
failed_transient = "failed_transient"

abbrev pub failed_permanent : String
failed_permanent = "failed_permanent"

abbrev pub needs_manual_review : String
needs_manual_review = "needs_manual_review"

abbrev pub reconciled : String
reconciled = "reconciled"

abbrev pub manually_resolved : String
manually_resolved = "manually_resolved"

abbrev pub cancelled : String
cancelled = "cancelled"

abbrev pub execution_request_statuses : List String
execution_request_statuses =
    execution_pending ∷ processing ∷ retrying ∷ succeeded ∷ failed_transient ∷ failed_permanent
    ∷ needs_manual_review ∷ reconciled ∷ manually_resolved ∷ cancelled ∷ []

abbrev pub mock_billing_provider : String
mock_billing_provider = "mock_billing_provider"

abbrev pub stripe_test_mode : String
stripe_test_mode = "stripe_test_mode"

abbrev pub supported_providers : List String
supported_providers = mock_billing_provider ∷ stripe_test_mode ∷ []

abbrev pub refund : String
refund = "refund"

abbrev pub credit_note : String
credit_note = "credit_note"

abbrev pub hold_for_manual_review : String
hold_for_manual_review = "hold_for_manual_review"

abbrev pub supported_operation_types : List String
supported_operation_types = refund ∷ credit_note ∷ hold_for_manual_review ∷ []

abbrev pub mock_success : String
mock_success = "success"

abbrev pub mock_transient_failure : String
mock_transient_failure = "transient_failure"

abbrev pub mock_permanent_failure : String
mock_permanent_failure = "permanent_failure"

abbrev pub mock_timeout : String
mock_timeout = "timeout"

abbrev pub mock_provider_outcomes : List String
mock_provider_outcomes =
    mock_success ∷ mock_transient_failure ∷ mock_permanent_failure ∷ mock_timeout ∷ []

abbrev pub provider_succeeded : String
provider_succeeded = "succeeded"

abbrev pub provider_failed : String
provider_failed = "failed"

abbrev pub provider_timeout : String
provider_timeout = "timeout"

abbrev pub provider_not_found : String
provider_not_found = "not_found"

abbrev pub provider_unknown : String
provider_unknown = "unknown"

abbrev pub error_transient : String
error_transient = "transient"

abbrev pub error_permanent : String
error_permanent = "permanent"

abbrev pub error_unknown : String
error_unknown = "unknown"

abbrev pub max_retry_attempts : ℕ
max_retry_attempts = 3

abbrev pub retry_eligible_statuses : List String
retry_eligible_statuses = failed_transient ∷ []

abbrev pub retry_blocked_statuses : List String
retry_blocked_statuses =
    succeeded ∷ failed_permanent ∷ needs_manual_review ∷ reconciled ∷ manually_resolved ∷ cancelled
    ∷ []

abbrev pub recon_matched_success : String
recon_matched_success = "matched_success"

abbrev pub recon_matched_failure : String
recon_matched_failure = "matched_failure"

abbrev pub recon_provider_succeeded_internal_not_recorded : String
recon_provider_succeeded_internal_not_recorded = "provider_succeeded_internal_not_recorded"

abbrev pub recon_internal_succeeded_provider_missing : String
recon_internal_succeeded_provider_missing = "internal_succeeded_provider_missing"

abbrev pub recon_unknown_provider_state : String
recon_unknown_provider_state = "unknown_provider_state"

abbrev pub recon_not_ready : String
recon_not_ready = "not_ready_for_reconciliation"

abbrev pub recon_action_mark_reconciled : String
recon_action_mark_reconciled = "mark_reconciled"

abbrev pub recon_action_route_manual_review : String
recon_action_route_manual_review = "route_manual_review"

abbrev pub recon_action_no_change : String
recon_action_no_change = "no_change"

abbrev pub manual_action_mark_resolved : String
manual_action_mark_resolved = "mark_manually_resolved"

abbrev pub manual_action_cancel_execution : String
manual_action_cancel_execution = "cancel_execution"

abbrev pub manual_action_attach_provider_reference : String
manual_action_attach_provider_reference = "attach_provider_reference"

abbrev pub manual_action_reopen_for_investigation : String
manual_action_reopen_for_investigation = "reopen_for_investigation"

abbrev pub manual_recovery_actions : List String
manual_recovery_actions =
    manual_action_mark_resolved ∷ manual_action_cancel_execution
    ∷ manual_action_attach_provider_reference ∷ manual_action_reopen_for_investigation ∷ []

abbrev pub manual_recovery_eligible_statuses : List String
manual_recovery_eligible_statuses = failed_transient ∷ failed_permanent ∷ needs_manual_review ∷ []

abbrev pub case_status_execution_pending : String
case_status_execution_pending = "execution_pending"

abbrev pub case_status_processing : String
case_status_processing = "processing"

abbrev pub case_status_retrying : String
case_status_retrying = "retrying"

abbrev pub case_status_succeeded : String
case_status_succeeded = "succeeded"

abbrev pub case_status_failed : String
case_status_failed = "failed"

abbrev pub case_status_needs_manual_review : String
case_status_needs_manual_review = "needs_manual_review"

abbrev pub case_status_reconciled : String
case_status_reconciled = "reconciled"

abbrev pub case_status_manually_resolved : String
case_status_manually_resolved = "manually_resolved"

abbrev pub case_status_cancelled : String
case_status_cancelled = "cancelled"

abbrev pub case_status_under_review : String
case_status_under_review = "under_review"
