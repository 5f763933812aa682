-- ===== src/Providers/Types.antt =====
-- What an adapter answers: the dictionaries of src/providers/mock_billing_adapter.py and
-- src/providers/stripe_adapter.py, which the services read by the same keys.
use billing_recovery_executi.Common.{String, Option}
use billing_recovery_executi.Database.{Json}

-- The answer to a write.
pub record ProviderResponse : Type 0 where
  pub provider_status : String
  pub provider_object_id : Option String
  pub error_type : Option String
  pub error_code : Option String
  pub error_message : Option String
  pub response_payload : Json

-- The answer to a lookup of the source of truth.
pub record ProviderLookup : Type 0 where
  pub provider_status : String
  pub provider_object_id : Option String
  pub lookup_payload : Json
