-- ===== src/Execution/Statuses.antt =====
-- src/execution/execution_service.py: the maps from a provider's answer to the status of the
-- request, and from that to the status of the case.
use billing_recovery_executi.Common.{
  String, Option, [], ◌∷◌, ◌==◌, ◌&&◌, ◌||◌, is_in, is_text, if◌then◌else◌,
}
use billing_recovery_executi.Providers.Types.{ProviderResponse}
use billing_recovery_executi.Rules.ExecutionRules.{
  provider_succeeded, provider_failed, provider_timeout, error_transient, error_permanent,
  error_unknown, succeeded, failed_transient, failed_permanent, needs_manual_review, processing,
  retrying, case_status_succeeded, case_status_failed, case_status_needs_manual_review,
  case_status_processing, case_status_retrying,
}

-- The answer counts only by its status and the type of its error.
unfoldable pub status_of_answer : String → Option String → String
status_of_answer provider_status error_type =
    if provider_status == provider_succeeded
    then succeeded
    else if provider_status == provider_failed && is_text error_type error_transient
    then failed_transient
    else if provider_status == provider_failed && is_text error_type error_permanent
    then failed_permanent
    else if provider_status == provider_timeout || is_text error_type error_unknown
    then needs_manual_review
    else needs_manual_review

unfoldable pub map_provider_response_to_execution_status : ProviderResponse → String
unfolding status_of_answer
map_provider_response_to_execution_status response =
    status_of_answer response.provider_status response.error_type

unfoldable pub map_execution_status_to_case_status : String → String
map_execution_status_to_case_status status =
    if status == succeeded
    then case_status_succeeded
    else if is_in status (failed_transient ∷ failed_permanent ∷ [])
    then case_status_failed
    else if status == needs_manual_review
    then case_status_needs_manual_review
    else if status == processing
    then case_status_processing
    else if status == retrying
    then case_status_retrying
    else case_status_failed
