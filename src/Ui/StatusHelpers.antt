-- ===== src/Ui/StatusHelpers.antt =====
-- src/ui/status_helpers.py: labels, messages, guidance and the stage of a case.
use billing_recovery_executi.Common.{
  String, Bool, false, Option, none, some, List, [], ◌∷◌, ◌==◌, is_in, is_text, replace_char, title,
  if◌then◌else◌,
}

unfoldable pub format_status_label : Option String → String
format_status_label none = "Unknown"
format_status_label (some status) = title (replace_char "_" " " status)

unfoldable pub get_dependency_result_message : String → String
get_dependency_result_message runtime_result =
    if runtime_result == "live_success"
    then "Live API response used"
    else if runtime_result == "forced_mock_used"
    then "Forced mock response used"
    else if runtime_result == "fallback_used"
    then "Fallback used after live call failed"
    else if runtime_result == "failed_safely"
    then "Failed safely"
    else "Unknown dependency result"

abbrev pub unknown_status_guidance : String
unknown_status_guidance = "Review execution history and determine next action."

-- The branches of `get_execution_status_guidance` on a status that is not None.
unfoldable pub guidance_of_status : String → String
guidance_of_status status =
    if status == "execution_pending"
    then "Execute the request with the mock provider or Stripe test mode."
    else if status == "processing"
    then "Execution is in progress. Refresh if needed."
    else if status == "retrying"
    then "Retry is in progress. Refresh if needed."
    else if status == "succeeded"
    then "Run reconciliation to verify provider source of truth."
    else if status == "failed_transient"
    then "Retry is allowed under deterministic retry policy."
    else if status == "failed_permanent"
    then "Do not retry automatically. Reconcile or route to manual recovery."
    else if status == "needs_manual_review"
    then "Run reconciliation if needed, then use manual recovery."
    else if status == "reconciled"
    then "Execution has been verified against provider source of truth."
    else if status == "manually_resolved"
    then "Execution was resolved through manual recovery."
    else if status == "cancelled"
    then "Execution was cancelled and should not continue."
    else if status == "under_review"
    then "Case has been reopened for investigation."
    else unknown_status_guidance

unfoldable pub get_execution_status_guidance : Option String → String
unfolding guidance_of_status
get_execution_status_guidance none = "Create an execution request after approval."
get_execution_status_guidance (some status) = guidance_of_status status

-- `execution_status in [...]`, of a status that may be None.
abbrev pub is_one_of : Option String → List String → Bool
is_one_of none statuses = false
is_one_of (some s) statuses = is_in s statuses

unfoldable pub get_case_workflow_stage : String → Option String → String
get_case_workflow_stage case_status execution_status =
    if is_text execution_status "reconciled"
    then "Reconciled"
    else if is_text execution_status "manually_resolved"
    then "Manually Resolved"
    else if is_text execution_status "cancelled"
    then "Cancelled"
    else if is_one_of execution_status
        ("succeeded" ∷ "failed_transient" ∷ "failed_permanent" ∷ "needs_manual_review" ∷ [])
    then "Post-Execution Review"
    else if is_text execution_status "execution_pending"
    then "Ready for Provider Execution"
    else if case_status == "approved"
    then "Approved"
    else if is_in case_status ("eligible_for_approval" ∷ "requires_manager_approval" ∷ [])
    then "Policy Evaluated"
    else if case_status == "blocked"
    then "Blocked by Policy"
    else if case_status == "needs_more_review"
    then "Needs Review"
    else "Case Review"
