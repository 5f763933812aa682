-- ===== src/Lifecycle/Steps.antt =====
-- The abstract machine of an execution request: the steps that src/execution/execution_service.py,
-- src/reconciliation/reconciliation_service.py and src/recovery/manual_recovery_service.py take with
-- its status.
use billing_recovery_executi.Common.{String, ◌≡◌, ◌≢◌, ◌⊎◌}
use billing_recovery_executi.Rules.ExecutionRules.{
  execution_pending, processing, retrying, succeeded, failed_transient, failed_permanent,
  needs_manual_review, reconciled, manually_resolved, cancelled,
  manual_action_reopen_for_investigation,
}

-- The statuses that an attempt may end with.
abbrev pub IsAnswered : String → Type 0
IsAnswered t =
    (t ≡ succeeded) ⊎ (t ≡ failed_transient) ⊎ (t ≡ failed_permanent) ⊎ (t ≡ needs_manual_review)

-- The statuses that an operator may recover a request from, and to.
abbrev pub IsRecoverable : String → Type 0
IsRecoverable s = (s ≡ failed_transient) ⊎ (s ≡ failed_permanent) ⊎ (s ≡ needs_manual_review)

abbrev pub IsRecovered : String → Type 0
IsRecovered t =
    (t ≡ manually_resolved) ⊎ (t ≡ cancelled) ⊎ (t ≡ manual_action_reopen_for_investigation)

pub data Step : String → String → Type 0 where
  execute : {s t : String} → s ≡ execution_pending → t ≡ processing → Step s t
  retry : {s t : String} → s ≡ failed_transient → t ≡ retrying → Step s t
  answer : {s t : String} → (s ≡ processing) ⊎ (s ≡ retrying) → IsAnswered t → Step s t
  give_up : {s t : String} → s ≡ failed_transient → t ≡ needs_manual_review → Step s t
  reconcile : {s t : String} → s ≡ succeeded → t ≡ reconciled → Step s t
  review : {s t : String} → s ≢ reconciled → t ≡ needs_manual_review → Step s t
  recover : {s t : String} → IsRecoverable s → IsRecovered t → Step s t

pub data Reach (s : String) : String → Type 0 where
  here : Reach s s
  next : {t u : String} → Reach s t → Step t u → Reach s u

pub Reach-trans : {s t u : String} → Reach s t → Reach t u → Reach s u
Reach-trans r here = r
Reach-trans r (next q st) = next (Reach-trans r q) st
