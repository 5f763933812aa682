-- ===== src/Metrics/Attention.antt =====
-- src/analytics/ops_metrics.py: what the two queues show.
use billing_recovery_executi.Common.{
  ℕ, suc, String, Bool, true, false, if◌then◌else◌, ltb, some, not, ◌||◌, ◌⊎◌, inl, inr, Bool-cases,
  eq_iff, List, [], ◌∷◌, ◌==◌, ◌&&◌, ◌≡◌, refl, ◌∙◌, arith, is_in,
}
use billing_recovery_executi.Table.{count, All, Sorter}
use billing_recovery_executi.Database.{Database, ExecutionRequest, ReconciliationRun, ok, gets}
use billing_recovery_executi.Rules.ExecutionRules.{
  succeeded, recon_not_ready, recon_matched_success, recon_matched_failure,
  recon_provider_succeeded_internal_not_recorded, recon_internal_succeeded_provider_missing,
  recon_unknown_provider_state,
}
use billing_recovery_executi.Recovery.{can_manually_recover}
use billing_recovery_executi.Metrics.Queues.{
  NeedsAttention, Unreconciled, needs_attention_statuses, attention_row, unreconciled_row,
  terminal_statuses, reconciled_results, has_verdict, get_needs_attention_queue,
  get_unreconciled_execution_queue,
}
use billing_recovery_executi.Metrics.Joins.{HaveCases, count-join}

-- The rows of the queue that show a request.
abbrev pub shows : String → NeedsAttention → Bool
shows id q = q.execution_request_id == id

abbrev pub recoverable : String → ExecutionRequest → Bool
recoverable id r = r.execution_request_id == id && (can_manually_recover (some r)).0

-- Tests that agree on a row count alike.
count-cons :
    (f g : ExecutionRequest → Bool) (r : ExecutionRequest) (requests : List ExecutionRequest)
    → f r ≡ g r
    → count f requests ≡ count g requests
    → count f (r ∷ requests) ≡ count g (r ∷ requests)
count-cons f g r requests h k = ground (arith, h, k)

counted_alike :
    (id : String) (requests : List ExecutionRequest)
    → count (λ r. r.execution_request_id == id && is_in r.status needs_attention_statuses) requests
      ≡ count (recoverable id) requests
unfolding can_manually_recover
counted_alike id [] = refl
counted_alike id (r ∷ requests) = ground (arith, counted_alike id requests)

-- Where each execution request has one case, the queue shows an execution request as often as it is
-- there in a status from which it can be recovered by hand, and the query writes nothing.
pub get_needs_attention_queue-recoverable :
    (sorter : Sorter) (db : Database) (id : String)
    → HaveCases db.execution_requests db.billing_cases
    → (rows : List NeedsAttention) × (get_needs_attention_queue sorter db ≡ (ok rows, db))
      × (count (shows id) rows ≡ count (recoverable id) db.execution_requests)
unfolding get_needs_attention_queue gets
get_needs_attention_queue-recoverable sorter db id h = (
  _,
  refl,
  sorter.same_rows _ _ (shows id)
      ∙ count-join attention_row (shows id) id (λ c r. refl)
          (λ r. is_in r.status needs_attention_statuses) db.execution_requests db.billing_cases h
      ∙ counted_alike id db.execution_requests,
)

abbrev pub lists : String → Unreconciled → Bool
lists id q = q.execution_request_id == id

-- The result of a comparison by src/reconciliation/reconciliation_service.py.
abbrev pub IsResult : String → Type 0
IsResult result =
    (result ≡ recon_not_ready)
    ⊎ (result ≡ recon_matched_success)
    ⊎ (result ≡ recon_matched_failure)
    ⊎ (result ≡ recon_provider_succeeded_internal_not_recorded)
    ⊎ (result ≡ recon_internal_succeeded_provider_missing)
    ⊎ (result ≡ recon_unknown_provider_state)

-- A reconciliation of this request for which it was ready.
abbrev pub decides : String → ReconciliationRun → Bool
decides id run = run.execution_request_id == id && not (run.result == recon_not_ready)

-- The request has succeeded or can be recovered by hand, and no reconciliation of it decided anything.
abbrev pub is_unreconciled : String → List ReconciliationRun → ExecutionRequest → Bool
is_unreconciled id runs r =
    r.execution_request_id == id
    && ((r.status == succeeded || (can_manually_recover (some r)).0)
        && not (ltb 0 (count (decides id) runs)))

is_in-terminal_statuses :
    (r : ExecutionRequest)
    → is_in r.status terminal_statuses
      ≡ (r.status == succeeded || (can_manually_recover (some r)).0)
unfolding can_manually_recover
is_in-terminal_statuses r = ground arith

is_in-reconciled_results :
    (result : String)
    → IsResult result
    → is_in result reconciled_results ≡ not (result == recon_not_ready)
is_in-reconciled_results result (inl h) = rw h refl
is_in-reconciled_results result (inr (inl h)) = rw h refl
is_in-reconciled_results result (inr (inr (inl h))) = rw h refl
is_in-reconciled_results result (inr (inr (inr (inl h)))) = rw h refl
is_in-reconciled_results result (inr (inr (inr (inr (inl h))))) = rw h refl
is_in-reconciled_results result (inr (inr (inr (inr (inr h))))) = rw h refl

one_run :
    (a e z b : Bool) (n : ℕ)
    → a ≡ not z
    → not b ≡ not (ltb 0 n)
    → not (a && e || b) ≡ not (ltb 0 (if e && not z then suc n else n))
one_run true true true b n h k = absurd cc
one_run true true false b n h k = ground arith
one_run true false z b n h k = k
one_run false true false b n h k = absurd cc
one_run false true true b n h k = k
one_run false false z b n h k = k

-- Having a verdict is having a run that decided.
not-has_verdict :
    (runs : List ReconciliationRun) (r : ExecutionRequest)
    → All (λ run. IsResult run.result) runs
    → not (has_verdict runs r) ≡ not (ltb 0 (count (decides r.execution_request_id) runs))
not-has_verdict [] r h = refl
not-has_verdict (run ∷ runs) r h =
    one_run (is_in run.result reconciled_results)
      (run.execution_request_id == r.execution_request_id) (run.result == recon_not_ready)
      (has_verdict runs r) (count (decides r.execution_request_id) runs)
      (is_in-reconciled_results run.result h.0) (not-has_verdict runs r h.1)

counted_unreconciled :
    (id : String) (runs : List ReconciliationRun) (requests : List ExecutionRequest)
    → All (λ run. IsResult run.result) runs
    → count
        (λ r.
          r.execution_request_id == id
          && (is_in r.status terminal_statuses && not (has_verdict runs r)))
        requests
      ≡ count (is_unreconciled id runs) requests
counted_unreconciled id runs [] h = refl
counted_unreconciled id runs (r ∷ requests) h =
    count-cons _ _ r requests (alike r) (counted_unreconciled id runs requests h)
  where
    alike :
        (r : ExecutionRequest)
        → (r.execution_request_id == id
            && (is_in r.status terminal_statuses && not (has_verdict runs r)))
          ≡ is_unreconciled id runs r
    alike r = elim (Bool-cases (r.execution_request_id == id)) [
      | inl e ↦
          rw
            (
              e,
              is_in-terminal_statuses r,
              not-has_verdict runs r h,
              (eq_iff r.execution_request_id id).0 e,
            )
            refl
      | inr e ↦ rw e refl
    ]

-- Where each execution request has one case, and each reconciliation run has a result of the
-- comparison, the queue of unreconciled executions shows an execution request as often as it is there
-- having succeeded or open to manual recovery, with no reconciliation run of its own that found it
-- ready; and the query writes nothing.
pub get_unreconciled_execution_queue-lists :
    (sorter : Sorter) (db : Database) (id : String)
    → HaveCases db.execution_requests db.billing_cases
    → All (λ run. IsResult run.result) db.reconciliation_runs
    → (rows : List Unreconciled) × (get_unreconciled_execution_queue sorter db ≡ (ok rows, db))
      × (count (lists id) rows
          ≡ count (is_unreconciled id db.reconciliation_runs) db.execution_requests)
unfolding get_unreconciled_execution_queue gets
get_unreconciled_execution_queue-lists sorter db id h k = (
  _,
  refl,
  sorter.same_rows _ _ (lists id)
      ∙ count-join unreconciled_row (lists id) id (λ c r. refl)
          (λ r. is_in r.status terminal_statuses && not (has_verdict db.reconciliation_runs r))
          db.execution_requests db.billing_cases h
      ∙ counted_unreconciled id db.reconciliation_runs db.execution_requests k,
)
