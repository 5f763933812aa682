-- ===== src/Database/Environment.antt =====
-- What the program takes from outside: random identifiers, the time, the choice that SQLite makes
-- among rows of one time, the process environment, and the Stripe API. None of this is code of
-- the repository, so it is a parameter of the model.
use billing_recovery_executi.Common.{ℕ, ◌≤◌, ℤ, Bool, String, Option, some, List, [], ◌≢◌, ◌≡◌}
use billing_recovery_executi.Table.{get_elem?, All}
use billing_recovery_executi.Database.Rows.{Json}

-- The class of an exception, as far as the code asks for it by isinstance.
pub data ErrorClass : Type 0 where
  rate_limit api_connection api invalid_request authentication permission : ErrorClass
  other : ErrorClass

pub record PyException : Type 0 where
  pub class : ErrorClass
  pub class_name : String
  pub message : String
  pub code : Option String
  pub http_status : Option ℕ

-- A call of the Stripe API returns an object or raises.
pub data ApiResult (A : Type 0) : Type 0 where
  returned : A → ApiResult A
  raised : PyException → ApiResult A

pub record Refund : Type 0 where
  pub id : String
  pub status : String
  pub payment_intent : Option String
  pub charge : Option String
  pub amount : ℤ
  pub currency : String

pub record PaymentIntent : Type 0 where
  pub id : String
  pub latest_charge : Option String
  pub amount : ℤ
  pub currency : String
  pub status : String

pub record RefundParams : Type 0 where
  pub payment_intent : String
  pub amount : ℤ
  pub metadata : Json
  pub idempotency_key : String

pub record PaymentIntentParams : Type 0 where
  pub amount : ℤ
  pub currency : String
  pub payment_method : String
  pub confirm : Bool
  pub automatic_payment_methods : Json
  pub metadata : Json
  pub idempotency_key : String

-- A value of a JSON object, as far as the code looks at it: whether it is a text, whether it is a
-- list, whether it is true, and what `str` gives for it and, of a list, for its items.
pub data Answer : Type 0 where
  text : String → Answer
  array : (items : List String) (shown : String) → Answer
  scalar : (truth : Bool) (shown : String) → Answer

-- The first argument of a field that is a function of a ℕ is the tick at which it is read.
-- `uuid8` is the first 8 digits of uuid4().hex in upper case, `uuid10` the first 10.
-- `latest` is the index that ORDER BY created_at DESC LIMIT 1 picks from the times of the rows.
-- `stripe_secret_key` and `openai_model` are the variables STRIPE_SECRET_KEY and OPENAI_MODEL of
-- the process, where they are set. `openai_respond` is the answer of the OpenAI API to a prompt, read
-- by json.loads; it raises where the client, the call or the reading does, or where the text is not
-- that of an object.
pub record Env : Type 0 where
  pub uuid8 : ℕ → String
  pub uuid10 : ℕ → String
  pub timestamp : ℕ → ℕ
  pub latest : List ℕ → ℕ
  pub stripe_secret_key : Option String
  pub refund_create : ℕ → RefundParams → ApiResult Refund
  pub refund_retrieve : ℕ → String → ApiResult Refund
  pub encodable : String → Bool
  pub openai_model : Option String
  pub openai_respond : ℕ → (model prompt : String) → ApiResult (List (String × Answer))
  pub payment_intent_create : ℕ → PaymentIntentParams → ApiResult PaymentIntent

-- What SQL documents of ORDER BY created_at DESC LIMIT 1: of rows that are not none it picks one,
-- and none of a later time. Which of several with the latest time it picks is left open.
pub record PicksLatest (env : Env) : Type 0 where
  pub picks :
      (times : List ℕ)
      → times ≢ []
      → (t : ℕ) × (get_elem? times (env.latest times) ≡ some t) × All (λ u. u ≤ t) times
