-- ===== src/Metrics/Totals.antt =====
-- src/analytics/ops_metrics.py: the counts of attempts, and their total.
use billing_recovery_executi.Common.{
  ℕ, ◌+◌, Bool, true, false, List, [], ◌∷◌, ◌++◌, ◌≡◌, refl, arith, ◌==◌, eq_iff, ne_of_test,
}
use billing_recovery_executi.Table.{count-append}
use billing_recovery_executi.Database.{Database, ExecutionAttempt, Env}
use billing_recovery_executi.Metrics.Counts.{all_rows, AttemptMetrics, attempt_metrics, of_error}
use billing_recovery_executi.Workflow.{Command, run, run_respects}
use billing_recovery_executi.Effects.Respects.{Relation}
use billing_recovery_executi.Effects.Frame.{Frame}
use billing_recovery_executi.Lifecycle.Writes.{Writes, IsClassified}
use billing_recovery_executi.Lifecycle.Calls.{Calls-of_steps}

abbrev pub AddsUp : AttemptMetrics → Type 0
AddsUp m =
    m.total_attempts
    ≡ m.successful_attempts + m.transient_failures + m.permanent_failures + m.unknown_failures

abbrev one : Bool → ℕ
one true = 1
one false = 0

-- An attempt is counted once.
counted_once :
    (a : ExecutionAttempt)
    → IsClassified a.provider_status a.error_type
    → one (a.provider_status == "succeeded")
        + one (of_error "transient" a)
        + one (of_error "permanent" a)
        + one (of_error "unknown" a)
      ≡ 1
counted_once a h = ground (
  arith,
  eq_iff a.provider_status "succeeded",
  ne_of_test "transient" "permanent" refl,
  ne_of_test "transient" "unknown" refl,
  ne_of_test "permanent" "unknown" refl,
)

-- The counts of one attempt more.
attempt_metrics-append :
    (a : ExecutionAttempt) (ats : List ExecutionAttempt)
    → IsClassified a.provider_status a.error_type
    → AddsUp (attempt_metrics ats)
    → AddsUp (attempt_metrics (ats ++ a ∷ []))
unfolding attempt_metrics
attempt_metrics-append a ats c h = ground (
  arith,
  counted_once a c,
  count-append all_rows ats a,
  count-append (λ b. b.provider_status == "succeeded") ats a,
  count-append (of_error "transient") ats a,
  count-append (of_error "permanent") ats a,
  count-append (of_error "unknown") ats a,
)

abbrev KeepsTotals : Relation
KeepsTotals a b =
    AddsUp (attempt_metrics a.execution_attempts) → AddsUp (attempt_metrics b.execution_attempts)

KeepsTotals-Frame : Frame KeepsTotals
KeepsTotals-Frame = record {
  stable = record { same = λ db h. h; both = λ a b c h k x. k (h x); ticks = λ db h. h };
  cases = λ i s t db h. h;
  evaluations = λ e db k h. h;
  payments = λ p db k h. h;
  runs = λ r db k h. h;
  actions = λ a db k h. h;
  briefs = λ b db k h. h;
  events = λ e db k h. h;
}

KeepsTotals-Writes : Writes KeepsTotals
KeepsTotals-Writes = record {
  frame = KeepsTotals-Frame;
  moves = λ i s t f db st has m h. h;
  references = λ i reference at db h. h;
  records = λ a db r h. attempt_metrics-append a db.execution_attempts r.classified h;
}

-- If the dashboard's counts of successful attempts and of transient, permanent and unknown failures
-- add up to its count of all attempts, they still do after any service calls, in any order and
-- whether they return or raise.
pub run-AddsUp :
    (env : Env) (cs : List Command) (db : Database)
    → AddsUp (attempt_metrics db.execution_attempts)
    → AddsUp (attempt_metrics (run env cs db).execution_attempts)
run-AddsUp env cs db h =
    run_respects env (Calls-of_steps env KeepsTotals-Writes (λ a d free h. h) (λ r d free p h. h))
      cs db h
