-- ===== src/Workflow/Commands.antt =====
-- The service calls of the panels of src/ui as commands, and runs of them.
use billing_recovery_executi.Common.{String, Option, List, [], ◌∷◌}
use billing_recovery_executi.Database.{Database, BillingCase, Env}
use billing_recovery_executi.Policy.Service.{evaluate_and_store_policy}
use billing_recovery_executi.Approvals.{Decision, create_approval_decision}
use billing_recovery_executi.Providers.TestPayments.{create_and_store_stripe_test_payment}
use billing_recovery_executi.Briefs.Service.{generate_and_store_case_brief}
use billing_recovery_executi.Execution.Creation.{create_execution_request}
use billing_recovery_executi.Execution.Runs.{
  execute_with_stripe_provider, execute_with_mock_provider, retry_with_mock_provider,
}
use billing_recovery_executi.Reconciliation.{run_reconciliation}
use billing_recovery_executi.Recovery.{RecoveryForm, create_manual_recovery_action}
use billing_recovery_executi.Effects.Respects.{Relation, Respects}
use billing_recovery_executi.Effects.Frame.{
  Frame, evaluate_and_store_policy-Respects, generate_and_store_case_brief-Respects,
  create_and_store_stripe_test_payment-Respects,
}
use billing_recovery_executi.Effects.Requests.{
  run_reconciliation-Respects, create_manual_recovery_action-Respects,
}
use billing_recovery_executi.Effects.Attempts.{
  AllUpdates, AddsAttempts, execute_with_mock_provider-Respects,
  execute_with_stripe_provider-Respects, retry_with_mock_provider-Respects,
}

-- A case is the row that a panel has read before; it may be out of date.
pub data Command : Type 0 where
  evaluate : BillingCase → Command
  decide : String → Decision → Command
  prepare_payment : BillingCase → String → Command
  brief : BillingCase → String → Command
  create : BillingCase → Command
  execute_mock : String → String → Command
  execute_stripe : String → String → Command
  retry : String → String → Command
  reconcile : String → Option String → Option String → Command
  recover : String → RecoveryForm → Command

module _ (env : Env) where
  -- The database after a call, whether it returns or raises.
  unfoldable pub perform : Command → Database → Database
  perform (evaluate c) db = (evaluate_and_store_policy env c db).1
  perform (decide case_id d) db = (create_approval_decision env case_id d db).1
  perform (prepare_payment c mode) db = (create_and_store_stripe_test_payment env c mode db).1
  perform (brief c mode) db = (generate_and_store_case_brief env c mode db).1
  perform (create c) db = (create_execution_request env c db).1
  perform (execute_mock id outcome) db = (execute_with_mock_provider env id outcome db).1
  perform (execute_stripe id mode) db = (execute_with_stripe_provider env id mode db).1
  perform (retry id outcome) db = (retry_with_mock_provider env id outcome db).1
  perform (reconcile id simulated mode) db = (run_reconciliation env id simulated mode db).1
  perform (recover id form) db = (create_manual_recovery_action env id form db).1

  unfoldable pub run : List Command → Database → Database
  run [] db = db
  run (c ∷ cs) db = run cs (perform c db)

-- A relation that each service call respects.
pub record Calls (env : Env) (R : Relation) : Type 0 where
  pub frame : Frame R
  pub decides :
      (case_id : String) (d : Decision) → Respects R (create_approval_decision env case_id d)
  pub creates : (c : BillingCase) → Respects R (create_execution_request env c)
  pub executes_mock : (id outcome : String) → Respects R (execute_with_mock_provider env id outcome)
  pub executes_stripe : (id mode : String) → Respects R (execute_with_stripe_provider env id mode)
  pub retries : (id outcome : String) → Respects R (retry_with_mock_provider env id outcome)
  pub reconciles :
      (id : String) (simulated mode : Option String)
      → Respects R (run_reconciliation env id simulated mode)
  pub recovers :
      (id : String) (f : RecoveryForm) → Respects R (create_manual_recovery_action env id f)

module _ {R : Relation} (env : Env) (calls : Calls env R) where
  pub perform_respects : (c : Command) (db : Database) → R db (perform env c db)
  unfolding perform
  perform_respects (evaluate c) db = (evaluate_and_store_policy-Respects env calls.frame c).at db
  perform_respects (decide i d) db = (calls.decides i d).at db
  perform_respects (prepare_payment c m) db =
      (create_and_store_stripe_test_payment-Respects env calls.frame c m).at db
  perform_respects (brief c m) db =
      (generate_and_store_case_brief-Respects env calls.frame c m).at db
  perform_respects (create c) db = (calls.creates c).at db
  perform_respects (execute_mock i o) db = (calls.executes_mock i o).at db
  perform_respects (execute_stripe i m) db = (calls.executes_stripe i m).at db
  perform_respects (retry i o) db = (calls.retries i o).at db
  perform_respects (reconcile i s m) db = (calls.reconciles i s m).at db
  perform_respects (recover i f) db = (calls.recovers i f).at db

  pub run_respects : (cs : List Command) (db : Database) → R db (run env cs db)
  unfolding run
  run_respects [] db = calls.frame.stable.same db
  run_respects (c ∷ cs) db =
      calls.frame.stable.both db (perform env c db) (run env cs (perform env c db))
        (perform_respects c db) (run_respects cs (perform env c db))

-- A relation that respects every write respects every call.
pub Calls-of_writes :
    {R : Relation} (env : Env)
    → Frame R
    → ((case_id : String) (d : Decision) → Respects R (create_approval_decision env case_id d))
    → AllUpdates R
    → AddsAttempts R
    → ((c : BillingCase) → Respects R (create_execution_request env c))
    → Calls env R
Calls-of_writes env frame decides all attempts creates = record {
  frame = frame;
  decides = decides;
  creates = creates;
  executes_mock = execute_with_mock_provider-Respects env frame all attempts;
  executes_stripe = execute_with_stripe_provider-Respects env frame all attempts;
  retries = retry_with_mock_provider-Respects env frame all attempts;
  reconciles = λ i s m. run_reconciliation-Respects env frame all.updates i s m tt tt;
  recovers = λ i f. create_manual_recovery_action-Respects env frame all.updates i f tt;
}
