-- ===== src/Execution/Idempotency.antt =====
-- src/execution/idempotency.py: the key of an execution request.
use billing_recovery_executi.Common.{ℤ, String, [], ◌∷◌, strip, lower, show_ℤ, fstring}

unfoldable pub generate_idempotency_key :
    (case_id approval_id operation_type : String) (approved_amount_cents : ℤ) → String
generate_idempotency_key case_id approval_id operation_type approved_amount_cents =
    let normalized_operation = lower (strip operation_type) in
    fstring (
      "billing_adjustment:"
      ∷ case_id
      ∷ ":"
      ∷ approval_id
      ∷ ":"
      ∷ normalized_operation
      ∷ ":"
      ∷ show_ℤ approved_amount_cents
      ∷ [])
