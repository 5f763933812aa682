-- ===== src/Providers/StripePayments.antt =====
-- src/providers/stripe_adapter.py: test payments, live, mock and fallback.
use billing_recovery_executi.Common.{
  ℤ, String, true, Option, none, some, [], ◌∷◌, truthy, lower, upper, if◌then◌else◌, fstring,
}
use billing_recovery_executi.Database.{
  text, bool, BillingCase, Env, ApiResult, returned, raised, PaymentIntent, PaymentIntentParams,
  Action, pure, call_tick, draw_uuid10, ◌>>=◌,
}
use billing_recovery_executi.Providers.Stripe.{configure_stripe_client, if_configured}

pub record PaymentPayload : Type 0 where
  pub payment_intent_id : String
  pub charge_id : Option String
  pub amount_cents : ℤ
  pub currency : String
  pub payment_status : String
  pub raw_status : String

-- `getattr(payment_intent, "latest_charge", None)`, if it is true.
abbrev charge_of : PaymentIntent → Option String
charge_of intent = if truthy intent.latest_charge then intent.latest_charge else none

abbrev payload_of_intent : PaymentIntent → PaymentPayload
payload_of_intent intent = record {
  payment_intent_id = intent.id;
  charge_id = charge_of intent;
  amount_cents = intent.amount;
  currency = upper intent.currency;
  payment_status = intent.status;
  raw_status = intent.status;
}

abbrev intent_params : BillingCase → String → PaymentIntentParams
intent_params c idempotency_key = record {
  amount = c.amount_cents;
  currency = lower c.currency;
  payment_method = "pm_card_visa";
  confirm = true;
  automatic_payment_methods = ("enabled", bool true) ∷ ("allow_redirects", text "never") ∷ [];
  metadata =
      ("case_id", text c.case_id)
      ∷ ("invoice_id", text c.invoice_id)
      ∷ ("purpose", text "billing_recovery_test_payment")
      ∷ [];
  idempotency_key = idempotency_key;
}

abbrev payload_of_result : ApiResult PaymentIntent → ApiResult PaymentPayload
payload_of_result (returned intent) = returned (payload_of_intent intent)
payload_of_result (raised error) = raised error

-- A raise is an answer here, since every caller catches it.
unfoldable pub create_test_payment_intent :
    Env → BillingCase → String → Action (ApiResult PaymentPayload)
create_test_payment_intent env c idempotency_key = if_configured (configure_stripe_client env) (do
  tick ← call_tick env
  pure (payload_of_result (env.payment_intent_create tick (intent_params c idempotency_key))))

unfoldable pub build_mock_test_payment : BillingCase → PaymentPayload
build_mock_test_payment c = record {
  payment_intent_id = fstring ("pi_mock_" ∷ lower c.case_id ∷ []);
  charge_id = some (fstring ("ch_mock_" ∷ lower c.case_id ∷ []));
  amount_cents = c.amount_cents;
  currency = c.currency;
  payment_status = "succeeded";
  raw_status = "mock_succeeded";
}

unfoldable pub build_fallback_test_payment : Env → BillingCase → Action PaymentPayload
build_fallback_test_payment env c = do
  fallback_id ← draw_uuid10 env
  pure (record {
    payment_intent_id = fstring ("pi_fallback_" ∷ fallback_id ∷ []);
    charge_id = some (fstring ("ch_fallback_" ∷ fallback_id ∷ []));
    amount_cents = c.amount_cents;
    currency = c.currency;
    payment_status = "fallback_created";
    raw_status = "fallback_created";
  })
