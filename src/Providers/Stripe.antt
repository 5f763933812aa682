-- ===== src/Providers/Stripe.antt =====
-- src/providers/stripe_adapter.py: the configuration and the classification of errors.
use billing_recovery_executi.Common.{
  String, Bool, true, false, not, Option, none, some, [], ◌∷◌, ◌&&◌, ◌==◌, truthy, is_empty, strip,
  show_ℕ, text_or, if◌then◌else◌, fstring, ℕ, ltb,
}
use package.text.Mathlib.Text.{starts_with}
use billing_recovery_executi.Database.{
  text, Env, rate_limit, api_connection, api, invalid_request, authentication, permission, other,
  PyException, ApiResult, raised, Action, pure,
}
use billing_recovery_executi.Rules.DependencyModes.{
  dependency_mode_forced_mock, dependency_mode_live, runtime_result_failed_safely,
  runtime_result_forced_mock_used, runtime_result_live_success, stripe_dependency,
}
use billing_recovery_executi.Rules.ExecutionRules.{error_permanent, error_transient, error_unknown}

abbrev pub stripe_test_key_prefix : String
stripe_test_key_prefix = "sk_test_"

-- A Python exception of a class of its own, such as ValueError.
abbrev pub python_error : String → String → PyException
python_error class_name message = record {
  class = other;
  class_name = class_name;
  message = message;
  code = none;
  http_status = none;
}

-- Whether a key that is a text, not None, looks like a test key.
unfoldable pub is_stripe_configured : String → Bool
is_stripe_configured key = not (is_empty key) && starts_with key stripe_test_key_prefix

unfoldable pub get_stripe_secret_key : Env → String
unfolding strip
get_stripe_secret_key env = strip (text_or env.stripe_secret_key "")

-- `configure_stripe_client()`: the exception that it raises, if any.
unfoldable pub configure_stripe_client : Env → Option PyException
unfolding is_stripe_configured get_stripe_secret_key
configure_stripe_client env =
    if not (is_stripe_configured (get_stripe_secret_key env))
    then some (
        python_error "ValueError"
          "Stripe test-mode secret key is missing or invalid. Expected a key starting with sk_test_.")
    else none

-- A call of the API after `configure_stripe_client()`, which may raise instead.
unfoldable pub if_configured :
    {A : Type 0} → Option PyException → Action (ApiResult A) → Action (ApiResult A)
if_configured (some error) call = pure (raised error)
if_configured none call = call

abbrev pub provider_name : String
provider_name = "stripe_test_mode"

pub record ConfigurationStatus : Type 0 where
  pub provider : String
  pub is_configured : Bool
  pub message : String
  pub safe_for_live_calls : Bool

-- `StripeBillingAdapter().get_configuration_status()`, whose key is the environment's.
unfoldable pub get_configuration_status : Env → ConfigurationStatus
unfolding get_stripe_secret_key
get_configuration_status env =
    let key = get_stripe_secret_key env in
    if is_empty key
    then record {
      provider = provider_name;
      is_configured = false;
      message = "Stripe secret key is not configured.";
      safe_for_live_calls = false;
    }
    else if not (starts_with key stripe_test_key_prefix)
    then record {
      provider = provider_name;
      is_configured = false;
      message = "Configured Stripe key does not look like a test-mode secret key.";
      safe_for_live_calls = false;
    }
    else record {
      provider = provider_name;
      is_configured = true;
      message = "Stripe test-mode secret key is configured.";
      safe_for_live_calls = true;
    }

pub record ProviderRuntimeContext : Type 0 where
  pub dependency : String
  pub dependency_mode : String
  pub runtime_result : String
  pub source : String
  pub is_configured : Bool
  pub message : String
  pub error_message : Option String

unfoldable pub build_stripe_runtime_context : Env → String → ProviderRuntimeContext
unfolding get_configuration_status
build_stripe_runtime_context env mode =
    let status = get_configuration_status env in
    if mode == dependency_mode_forced_mock
    then record {
      dependency = stripe_dependency;
      dependency_mode = mode;
      runtime_result = runtime_result_forced_mock_used;
      source = "mock_provider";
      is_configured = status.is_configured;
      message = "Stripe is in forced mock mode. No Stripe API call will be made.";
      error_message = none;
    }
    else if mode == dependency_mode_live && status.is_configured
    then record {
      dependency = stripe_dependency;
      dependency_mode = mode;
      runtime_result = runtime_result_live_success;
      source = "stripe_test_mode";
      is_configured = true;
      message =
          "Stripe is configured for live test-mode behavior. Future Stripe operations can use the test-mode adapter.";
      error_message = none;
    }
    else if mode == dependency_mode_live && not status.is_configured
    then record {
      dependency = stripe_dependency;
      dependency_mode = mode;
      runtime_result = runtime_result_failed_safely;
      source = "configuration_check";
      is_configured = false;
      message =
          "Stripe live mode was selected, but Stripe is not configured. Future Stripe operations should fail safely or fall back according to operation-specific rules.";
      error_message = some status.message;
    }
    else record {
      dependency = stripe_dependency;
      dependency_mode = mode;
      runtime_result = runtime_result_failed_safely;
      source = "configuration_check";
      is_configured = status.is_configured;
      message = "Unsupported Stripe dependency mode.";
      error_message = some (fstring ("Unsupported dependency mode: " ∷ mode ∷ []));
    }

-- The chain of isinstance tests of `_classify_stripe_error`.
unfoldable pub classify_stripe_error : PyException → String
classify_stripe_error error = elim error.class [
  | rate_limit ↦ error_transient
  | api_connection ↦ error_transient
  | api ↦ error_transient
  | invalid_request ↦ error_permanent
  | authentication ↦ error_permanent
  | permission ↦ error_permanent
  | other ↦ error_unknown
]

-- `if http_status`, of a number that may be None.
abbrev code_of_status : Option ℕ → String → String
code_of_status none class_name = class_name
code_of_status (some n) class_name =
    if ltb 0 n then fstring ("stripe_http_" ∷ show_ℕ n ∷ []) else class_name

unfoldable pub extract_stripe_error_code : PyException → String
extract_stripe_error_code error =
    if truthy error.code
    then text_or error.code ""
    else code_of_status error.http_status error.class_name
