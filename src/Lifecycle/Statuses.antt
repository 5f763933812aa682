-- ===== src/Lifecycle/Statuses.antt =====
-- src/execution/execution_rules.py: the statuses that are listed there, and those that are stored.
use billing_recovery_executi.Common.{String, true, some, List, ◌≡◌, ◌⊎◌, inl, inr, refl, is_in}
use billing_recovery_executi.Table.{All, All-append, All-update}
use billing_recovery_executi.Database.{Database, ExecutionRequest, Env}
use billing_recovery_executi.Execution.Requests.{has_id}
use billing_recovery_executi.Rules.ExecutionRules.{
  execution_pending, execution_request_statuses, manual_action_reopen_for_investigation,
}
use billing_recovery_executi.Workflow.{Command, run, run_respects}
use billing_recovery_executi.Effects.Respects.{Relation}
use billing_recovery_executi.Effects.Frame.{Frame}
use billing_recovery_executi.Lifecycle.Steps.{
  Step, execute, retry, answer, give_up, reconcile, review, recover,
}
use billing_recovery_executi.Lifecycle.Writes.{Writes}
use billing_recovery_executi.Lifecycle.Calls.{Calls-of_steps}

-- A status of EXECUTION_REQUEST_STATUSES, or the action that reopens a request, which is stored as its status.
abbrev pub IsKnown : String → Type 0
IsKnown s =
    (is_in s execution_request_statuses ≡ true) ⊎ (s ≡ manual_action_reopen_for_investigation)

abbrev pub AllKnown : List ExecutionRequest → Type 0
AllKnown rs = All (λ r. IsKnown r.status) rs

listed : (s t : String) → s ≡ t → is_in t execution_request_statuses ≡ true → IsKnown s
listed s t e h = inl (rw e h)

Step-IsKnown : (s t : String) → Step s t → IsKnown t
Step-IsKnown s t (execute h k) = listed t _ k refl
Step-IsKnown s t (retry h k) = listed t _ k refl
Step-IsKnown s t (answer h (inl k)) = listed t _ k refl
Step-IsKnown s t (answer h (inr (inl k))) = listed t _ k refl
Step-IsKnown s t (answer h (inr (inr (inl k)))) = listed t _ k refl
Step-IsKnown s t (answer h (inr (inr (inr k)))) = listed t _ k refl
Step-IsKnown s t (give_up h k) = listed t _ k refl
Step-IsKnown s t (reconcile h k) = listed t _ k refl
Step-IsKnown s t (review h k) = listed t _ k refl
Step-IsKnown s t (recover h (inl k)) = listed t _ k refl
Step-IsKnown s t (recover h (inr (inl k))) = listed t _ k refl
Step-IsKnown s t (recover h (inr (inr k))) = inr k

abbrev KeepsKnown : Relation
KeepsKnown a b = AllKnown a.execution_requests → AllKnown b.execution_requests

KeepsKnown-Frame : Frame KeepsKnown
KeepsKnown-Frame = record {
  stable = record { same = λ db h. h; both = λ a b c h k x. k (h x); ticks = λ db h. h };
  cases = λ i s t db h. h;
  evaluations = λ e db k h. h;
  payments = λ p db k h. h;
  runs = λ r db k h. h;
  actions = λ a db k h. h;
  briefs = λ b db k h. h;
  events = λ e db k h. h;
}

KeepsKnown-Writes : Writes KeepsKnown
KeepsKnown-Writes = record {
  frame = KeepsKnown-Frame;
  moves = λ i s t f db st has m h.
      All-update _ _ f db.execution_requests
        (λ r k. renamed (f r).status t (m.status r) (Step-IsKnown s t st)) h;
  references = λ i reference at db h.
      All-update (λ r. IsKnown r.status) (has_id i)
        (λ r. record r { provider_object_id = some reference; updated_at = at })
        db.execution_requests (λ r k. k) h;
  records = λ a db r h. h;
}
  where
    renamed : (u t : String) → u ≡ t → IsKnown t → IsKnown u
    renamed u t e h = rw e h

-- The column of statuses keeps its type: if each request has a status of EXECUTION_REQUEST_STATUSES or
-- the status reopen_for_investigation, each has after any service calls, in any order and whether
-- they return or raise.
pub run-AllKnown :
    (env : Env) (cs : List Command) (db : Database)
    → AllKnown db.execution_requests
    → AllKnown (run env cs db).execution_requests
run-AllKnown env cs db h =
    run_respects env
      (Calls-of_steps env KeepsKnown-Writes (λ a d free h. h)
        (λ r d free p h.
          All-append _ d.execution_requests r h (listed r.status execution_pending p refl)))
      cs db h
