-- ===== src/Lifecycle/Calls.antt =====
-- A relation that the writes of the services respect is respected by every service call.
use billing_recovery_executi.Database.{Env}
use billing_recovery_executi.Workflow.{Calls}
use billing_recovery_executi.Effects.Respects.{Relation}
use billing_recovery_executi.Effects.Frame.{AddsApprovals, create_approval_decision-Respects}
use billing_recovery_executi.Effects.Creation.{AddsRequests, create_execution_request-Respects}
use billing_recovery_executi.Effects.Spec.{Respects-of_Spec}
use billing_recovery_executi.Lifecycle.Writes.{Writes}
use billing_recovery_executi.Lifecycle.Runs.{
  execute_with_mock_provider-Spec, execute_with_stripe_provider-Spec, retry_with_mock_provider-Spec,
}
use billing_recovery_executi.Lifecycle.Decisions.{
  run_reconciliation-Spec, create_manual_recovery_action-Spec,
}

pub Calls-of_steps :
    {R : Relation} (env : Env) → Writes R → AddsApprovals R → AddsRequests R → Calls env R
Calls-of_steps env w approvals requests =
    let stable = w.frame.stable in
    record {
      frame = w.frame;
      decides = create_approval_decision-Respects env w.frame approvals;
      creates = create_execution_request-Respects env w.frame requests;
      executes_mock =
          λ i o. Respects-of_Spec stable λ start. execute_with_mock_provider-Spec w env start i o;
      executes_stripe =
          λ i m. Respects-of_Spec stable λ start. execute_with_stripe_provider-Spec w env start i m;
      retries =
          λ i o. Respects-of_Spec stable λ start. retry_with_mock_provider-Spec w env start i o;
      reconciles =
          λ i s m. Respects-of_Spec stable λ start. run_reconciliation-Spec w env start i s m;
      recovers = λ i f.
          Respects-of_Spec stable λ start. create_manual_recovery_action-Spec w env start i f;
    }
