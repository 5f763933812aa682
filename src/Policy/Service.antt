-- ===== src/Policy/Service.antt =====
-- src/policy/policy_service.py: evaluating a case, storing the result and reading the latest one.
use billing_recovery_executi.Common.{
  ℕ, ℤ, pos, negsuc, zero, suc, String, Bool, true, false, Option, none, some, List, [], ◌∷◌, ◌++◌,
  ◌==◌, if◌then◌else◌, fstring,
}
use billing_recovery_executi.Table.{select, exists, get_elem?, column}
use billing_recovery_executi.Database.{
  text, bool, texts, Database, BillingCase, PolicyEvaluation, Env, Action, pure, gets, insert,
  draw_uuid8, now, ◌>>=◌, ◌>>◌,
}
use billing_recovery_executi.Audit.{record_audit_event}
use billing_recovery_executi.Cases.{update_case_status}
use billing_recovery_executi.Policy.Engine.{PolicyResult, evaluate_policy}
use billing_recovery_executi.Rules.PolicyRules.{
  eligible_for_approval, requires_manager_approval, needs_more_review, blocked,
}

unfoldable pub get_case_status_for_policy_outcome : String → String
get_case_status_for_policy_outcome outcome =
    if outcome == eligible_for_approval
    then "pending_approval"
    else if outcome == requires_manager_approval
    then "pending_approval"
    else if outcome == needs_more_review
    then "under_review"
    else if outcome == blocked
    then "blocked"
    else "under_review"

-- int(b) and bool(n)
abbrev pub int_of_bool : Bool → ℤ
int_of_bool true = pos 1
int_of_bool false = pos 0

abbrev pub bool_of_int : ℤ → Bool
bool_of_int (pos zero) = false
bool_of_int (pos (suc n)) = true
bool_of_int (negsuc n) = true

-- What `evaluate_and_store_policy` returns, where `created_at` is none, and the row that
-- `get_latest_policy_evaluation` decodes.
pub record StoredPolicy : Type 0 where
  pub evaluation_id : String
  pub case_id : String
  pub result : PolicyResult
  pub created_at : Option ℕ

abbrev pub has_evaluation : String → Database → Bool
has_evaluation evaluation_id db =
    exists (λ e. e.evaluation_id == evaluation_id) db.policy_evaluations

abbrev pub add_evaluation : PolicyEvaluation → Database → Database
add_evaluation e db = record db { policy_evaluations = db.policy_evaluations ++ e ∷ [] }

abbrev pub decode : PolicyEvaluation → StoredPolicy
decode e = record {
  evaluation_id = e.evaluation_id;
  case_id = e.case_id;
  result = record {
    outcome = e.outcome;
    risk_level = e.risk_level;
    needs_manager = bool_of_int e.requires_manager_approval;
    is_blocked = bool_of_int e.is_blocked;
    primary_reason = e.primary_reason;
    rules_triggered = e.rules_triggered;
  };
  created_at = some e.created_at;
}

module _ (env : Env) where
  unfoldable pub evaluate_and_store_policy : BillingCase → Action StoredPolicy
  evaluate_and_store_policy c = do
    let policy_result = evaluate_policy c
    uuid ← draw_uuid8 env
    let evaluation_id = fstring ("POL-" ∷ uuid ∷ [])
    created_at ← now env
    let evaluation : PolicyEvaluation = record {
      evaluation_id = evaluation_id;
      case_id = c.case_id;
      outcome = policy_result.outcome;
      risk_level = policy_result.risk_level;
      requires_manager_approval = int_of_bool policy_result.needs_manager;
      is_blocked = int_of_bool policy_result.is_blocked;
      primary_reason = policy_result.primary_reason;
      rules_triggered = policy_result.rules_triggered;
      created_at = created_at;
    }
    insert "policy_evaluations.evaluation_id" (has_evaluation evaluation_id)
        (add_evaluation evaluation)
    let next_status = get_case_status_for_policy_outcome policy_result.outcome
    update_case_status env c.case_id next_status
    record_audit_event env (some c.case_id) "policy_evaluation" evaluation_id "policy_evaluated"
        "system" "policy_engine"
        (("outcome", text policy_result.outcome)
          ∷ ("risk_level", text policy_result.risk_level)
          ∷ ("requires_manager_approval", bool policy_result.needs_manager)
          ∷ ("is_blocked", bool policy_result.is_blocked)
          ∷ ("rules_triggered", texts policy_result.rules_triggered)
          ∷ ("case_status_after", text next_status)
          ∷ [])
    pure (record {
      evaluation_id = evaluation_id;
      case_id = c.case_id;
      result = policy_result;
      created_at = none;
    })

  abbrev pub latest_evaluation : String → List PolicyEvaluation → Option PolicyEvaluation
  latest_evaluation case_id t =
      let rows = select (λ e. e.case_id == case_id) t in
      get_elem? rows (env.latest (column (λ e. e.created_at) rows))

  abbrev pub decoded : Option PolicyEvaluation → Option StoredPolicy
  decoded none = none
  decoded (some e) = some (decode e)

  unfoldable pub get_latest_policy_evaluation : String → Action (Option StoredPolicy)
  get_latest_policy_evaluation case_id =
      gets (λ db. decoded (latest_evaluation case_id db.policy_evaluations))
