-- ===== src/Providers/TestPayments.antt =====
-- src/providers/stripe_test_payment_service.py: the refundable test payment of a case.
use billing_recovery_executi.Common.{
  String, Bool, true, false, Option, none, some, [], ◌∷◌, ◌++◌, List, ◌==◌, lower, show_ℤ,
  if◌then◌else◌, fstring,
}
use billing_recovery_executi.Table.{select, exists, get_elem?, column}
use billing_recovery_executi.Database.{
  text, int, optional, Database, BillingCase, StripeTestPayment, Env, ApiResult, returned, raised,
  Action, pure, gets, insert, draw_uuid8, now, ◌>>=◌, ◌>>◌,
}
use billing_recovery_executi.Audit.{record_audit_event}
use billing_recovery_executi.Providers.StripePayments.{
  PaymentPayload, create_test_payment_intent, build_mock_test_payment, build_fallback_test_payment,
}
use billing_recovery_executi.Rules.DependencyModes.{
  dependency_mode_forced_mock, dependency_mode_live, runtime_result_fallback_used,
  runtime_result_forced_mock_used, runtime_result_live_success,
}

unfoldable pub generate_test_payment_idempotency_key : BillingCase → String → String
generate_test_payment_idempotency_key c test_payment_id = fstring (
    "stripe_test_payment:"
    ∷ test_payment_id
    ∷ ":"
    ∷ c.case_id
    ∷ ":"
    ∷ c.invoice_id
    ∷ ":"
    ∷ show_ℤ c.amount_cents
    ∷ ":"
    ∷ lower c.currency
    ∷ [])

-- What the branches on the dependency mode set.
pub record PaymentSetup : Type 0 where
  pub payload : PaymentPayload
  pub runtime_result : String
  pub source : String
  pub error_message : Option String

abbrev pub has_payment : String → Database → Bool
has_payment payment_id db =
    exists (λ p. p.stripe_test_payment_id == payment_id) db.stripe_test_payments

abbrev pub add_payment : StripeTestPayment → Database → Database
add_payment p db = record db { stripe_test_payments = db.stripe_test_payments ++ p ∷ [] }

module _ (env : Env) where
  abbrev pub latest_payment : String → List StripeTestPayment → Option StripeTestPayment
  latest_payment case_id t =
      let rows = select (λ p. p.case_id == case_id) t in
      get_elem? rows (env.latest (column (λ p. p.created_at) rows))

  unfoldable pub get_latest_stripe_test_payment : String → Action (Option StripeTestPayment)
  get_latest_stripe_test_payment case_id =
      gets (λ db. latest_payment case_id db.stripe_test_payments)

  unfoldable pub fallback_setup : BillingCase → String → Action PaymentSetup
  fallback_setup c message = do
    payload ← build_fallback_test_payment env c
    pure (record {
      payload = payload;
      runtime_result = runtime_result_fallback_used;
      source = "stripe_test_payment_fallback";
      error_message = some message;
    })

  -- The `try` of the live branch.
  unfoldable pub live_setup : BillingCase → ApiResult PaymentPayload → Action PaymentSetup
  unfolding fallback_setup
  live_setup c (returned payload) = pure (record {
    payload = payload;
    runtime_result = runtime_result_live_success;
    source = "stripe_test_mode";
    error_message = none;
  })
  live_setup c (raised error) = fallback_setup c error.message

  unfoldable pub set_up_payment : BillingCase → String → String → Action PaymentSetup
  unfolding fallback_setup live_setup
  set_up_payment c idempotency_key dependency_mode =
      if dependency_mode == dependency_mode_forced_mock
      then pure (record {
        payload = build_mock_test_payment c;
        runtime_result = runtime_result_forced_mock_used;
        source = "mock_stripe_test_payment";
        error_message = none;
      })
      else if dependency_mode == dependency_mode_live
      then (do answer ← create_test_payment_intent env c idempotency_key; live_setup c answer)
      else fallback_setup c (fstring ("Unsupported dependency mode: " ∷ dependency_mode ∷ []))

  -- The dictionary that is returned is the row without its time.
  unfoldable pub store_stripe_test_payment :
      String → BillingCase → String → PaymentSetup → Action StripeTestPayment
  store_stripe_test_payment test_payment_id c dependency_mode setup = do
    created_at ← now env
    let payment : StripeTestPayment = record {
      stripe_test_payment_id = test_payment_id;
      case_id = c.case_id;
      dependency_mode = dependency_mode;
      runtime_result = setup.runtime_result;
      source = setup.source;
      payment_intent_id = setup.payload.payment_intent_id;
      charge_id = setup.payload.charge_id;
      amount_cents = setup.payload.amount_cents;
      currency = setup.payload.currency;
      payment_status = setup.payload.payment_status;
      error_message = setup.error_message;
      created_at = created_at;
    }
    insert "stripe_test_payments.stripe_test_payment_id" (has_payment test_payment_id)
        (add_payment payment)
    pure payment

  -- What follows where the case has no payment yet.
  unfoldable pub create_payment : BillingCase → String → Action (StripeTestPayment × Bool)
  create_payment c dependency_mode = do
    uuid ← draw_uuid8 env
    let test_payment_id = fstring ("STP-" ∷ uuid ∷ [])
    setup ←
        set_up_payment c (generate_test_payment_idempotency_key c test_payment_id) dependency_mode
    stored ← store_stripe_test_payment test_payment_id c dependency_mode setup
    record_audit_event env (some c.case_id) "stripe_test_payment" test_payment_id
        "stripe_test_payment_created" "system" "stripe_test_payment_service"
        (("dependency_mode", text dependency_mode)
          ∷ ("runtime_result", text setup.runtime_result)
          ∷ ("source", text setup.source)
          ∷ ("payment_intent_id", text setup.payload.payment_intent_id)
          ∷ ("charge_id", optional setup.payload.charge_id)
          ∷ ("amount_cents", int setup.payload.amount_cents)
          ∷ ("currency", text setup.payload.currency)
          ∷ ("payment_status", text setup.payload.payment_status)
          ∷ ("error_message", optional setup.error_message)
          ∷ [])
    pure (stored, true)

  unfoldable pub keep_or_create_payment :
      BillingCase → String → Option StripeTestPayment → Action (StripeTestPayment × Bool)
  keep_or_create_payment c dependency_mode (some existing) = pure (existing, false)
  keep_or_create_payment c dependency_mode none = create_payment c dependency_mode

  unfoldable pub create_and_store_stripe_test_payment :
      BillingCase → String → Action (StripeTestPayment × Bool)
  unfolding keep_or_create_payment
  create_and_store_stripe_test_payment c dependency_mode = do
    existing ← get_latest_stripe_test_payment c.case_id
    keep_or_create_payment c dependency_mode existing
