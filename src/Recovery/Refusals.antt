-- ===== src/Recovery/Refusals.antt =====
-- src/recovery/manual_recovery_service.py: when manual recovery is refused, and that it then writes
-- nothing.
use billing_recovery_executi.Common.{
  String, false, some, ◌≡◌, ◌≢◌, refl, arith, eq_iff, is_in, fstring, [], ◌∷◌,
}
use billing_recovery_executi.Table.{fetch_one}
use billing_recovery_executi.Database.{Database, ExecutionRequest, Env, gets, raise_if, ◌>>=◌}
use billing_recovery_executi.Execution.Requests.{has_id, get_execution_request_by_id}
use billing_recovery_executi.Execution.Refusals.{IsRefused}
use billing_recovery_executi.Recovery.{
  RecoveryForm, can_manually_recover, create_manual_recovery_action,
}
use billing_recovery_executi.Rules.ExecutionRules.{
  manual_recovery_eligible_statuses, failed_transient, failed_permanent, needs_manual_review,
}

not_eligible :
    (s : String)
    → s ≢ failed_transient
    → s ≢ failed_permanent
    → s ≢ needs_manual_review
    → is_in s manual_recovery_eligible_statuses ≡ false
not_eligible s h k l =
    ground
      (arith, eq_iff s failed_transient, eq_iff s failed_permanent, eq_iff s needs_manual_review)

-- Manual recovery of a request that is neither failed nor in manual review is refused, whatever the
-- operator fills in: it raises a ValueError and writes nothing.
pub create_manual_recovery_action-IsRefused :
    (env : Env) (id : String) (db : Database) (r : ExecutionRequest) (f : RecoveryForm)
    → fetch_one (has_id id) db.execution_requests ≡ some r
    → r.status ≢ failed_transient
    → r.status ≢ failed_permanent
    → r.status ≢ needs_manual_review
    → IsRefused (create_manual_recovery_action env id f) db
unfolding create_manual_recovery_action can_manually_recover get_execution_request_by_id gets
    raise_if ◌>>=◌
create_manual_recovery_action-IsRefused env id db r f there a b c = record {
  message = fstring ("Manual recovery is not available from status: " ∷ r.status ∷ "." ∷ []);
  refused = rw (there, not_eligible r.status a b c) refl;
}
