-- ===== src/Rules/DependencyModes.antt =====
-- src/dependencies/dependency_modes.py: the constants of dependency modes and runtime results, and
-- their labels.
use billing_recovery_executi.Common.{String, List, [], ◌∷◌, ◌==◌, if◌then◌else◌, fstring}

abbrev pub dependency_mode_live : String
dependency_mode_live = "live"

abbrev pub dependency_mode_forced_mock : String
dependency_mode_forced_mock = "forced_mock"

abbrev pub dependency_modes : List String
dependency_modes = dependency_mode_live ∷ dependency_mode_forced_mock ∷ []

abbrev pub runtime_result_live_success : String
runtime_result_live_success = "live_success"

abbrev pub runtime_result_forced_mock_used : String
runtime_result_forced_mock_used = "forced_mock_used"

abbrev pub runtime_result_fallback_used : String
runtime_result_fallback_used = "fallback_used"

abbrev pub runtime_result_failed_safely : String
runtime_result_failed_safely = "failed_safely"

abbrev pub openai_dependency : String
openai_dependency = "openai"

abbrev pub stripe_dependency : String
stripe_dependency = "stripe"

unfoldable pub get_mode_label : String → String
get_mode_label mode =
    if mode == dependency_mode_live
    then "Live external API"
    else if mode == dependency_mode_forced_mock
    then "Forced mock / demo mode"
    else "Unknown mode"

unfoldable pub get_mode_description : (dependency_name mode : String) → String
get_mode_description dependency_name mode =
    if mode == dependency_mode_live
    then fstring (
        dependency_name
        ∷ " is configured for live API behavior. If a future live call fails, the dependency-specific service should fall back safely."
        ∷ [])
    else if mode == dependency_mode_forced_mock
    then fstring (
        dependency_name
        ∷ " is configured for forced mock behavior. No external API call should be made for this dependency."
        ∷ [])
    else fstring (dependency_name ∷ " mode is unknown." ∷ [])
