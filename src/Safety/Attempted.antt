-- ===== src/Safety/Attempted.antt =====
-- src/execution/execution_service.py: what is known while an attempt with the mock provider runs.
use mathlib.Core.Path.{subst}
use billing_recovery_executi.Common.{
  ℕ, ◌+◌, String, Option, none, some, ◌≡◌, refl, sym, ◌∙◌, arith, eq_refl,
}
use billing_recovery_executi.Table.{fetch_one, count, count-append}
use billing_recovery_executi.Database.{Json, ExecutionRequest, Env, row, ◌>>=◌, ◌>>◌}
use billing_recovery_executi.Cases.{update_case_status}
use billing_recovery_executi.Providers.Types.{ProviderResponse}
use billing_recovery_executi.Execution.Requests.{
  has_id, is_of, get_execution_request_by_id, get_execution_attempt_count,
  set_execution_request_status, with_status,
}
use billing_recovery_executi.Execution.Statuses.{map_provider_response_to_execution_status}
use billing_recovery_executi.Execution.Attempts.{store_execution_attempt, run_provider_attempt}
use billing_recovery_executi.Effects.Respects.{Respects-draw_uuid8, Respects-now}
use billing_recovery_executi.Effects.Frame.{
  record_audit_event-Respects, update_case_status-Respects,
}
use billing_recovery_executi.Safety.Triple.{
  Condition, Triple, Triple-bind, Triple-quiet, Triple-gets, Triple-row, Triple-modify,
  Triple-insert, Triple-pre, Triple-fact, Triple-post, Quiet-Frame, Quiet-IsStable,
}
use billing_recovery_executi.Safety.Steps.{updated_status}
use billing_recovery_executi.Safety.Answers.{IsAnswer, answer-Triple}

abbrev pub Anything : Condition
Anything rs ats = Unit {0}

module _ (i : String) (n : ℕ) where
  -- The request has been attempted `n` times.
  abbrev pub Used : Condition
  Used rs ats = count (is_of i) ats ≡ n

  -- The request has the status `st`, if it is there.
  abbrev Shows : String → Condition
  Shows st rs ats =
      Used rs ats × ((r : ExecutionRequest) → fetch_one (has_id i) rs ≡ some r → r.status ≡ st)

  -- The stored request, with the answer to the last attempt.
  abbrev pub Answered : String → ExecutionRequest → Condition
  Answered outcome r rs ats =
      (fetch_one (has_id i) rs ≡ some r) × IsAnswer outcome r.status × Used rs ats

module _ (env : Env) (i : String) (n : ℕ) where
  set-Shows :
      (st : String) (object_id : Option String)
      → Triple
          (Used i n)
          (set_execution_request_status env i st object_id)
          (λ _. Shows i n st)
          Anything
  unfolding set_execution_request_status
  set-Shows st object_id =
      Triple-bind _ _ (Triple-quiet (λ rs ats h. tt) (Respects-now Quiet-IsStable env)) λ at.
        Triple-modify _ λ db h. (
          h,
          λ q e.
              updated_status i (with_status st object_id at) st db.execution_requests q
                (λ r. ground arith) (λ r. ground arith) e,
        )

  -- The end of an attempt: the request is read back with its new status.
  pub settle-Shows :
      (st : String) (object_id : Option String) (case_id case_status : String)
      → Triple
          (Used i n)
          (do
            set_execution_request_status env i st object_id
            update_case_status env case_id case_status
            updated ← get_execution_request_by_id i
            row updated)
          (λ r rs ats. (fetch_one (has_id i) rs ≡ some r) × (r.status ≡ st) × Used i n rs ats)
          Anything
  unfolding get_execution_request_by_id
  settle-Shows st object_id case_id case_status = Triple-bind _ _ (set-Shows st object_id) λ _.
      Triple-bind _ _
        (Triple-quiet (λ rs ats h. tt) (update_case_status-Respects env Quiet-Frame _ _))
        λ _.
          Triple-bind _ _ (Triple-gets (λ rs ats h. tt) (λ rs ats. fetch_one (has_id i) rs))
            λ updated.
              Triple-post _ (Triple-row (λ rs ats h. tt) updated)
                λ r rs ats h. (sym h.0.1 ∙ h.1, h.0.0.1 r (sym h.0.1 ∙ h.1), h.0.0.0)

  pub store-Used :
      (attempt_id : String) (number : ℕ) (provider : String) (payload : Json)
      (response : ProviderResponse)
      → Triple
          (Used i n)
          (store_execution_attempt env attempt_id i number provider payload response)
          (λ _. Used i (n + 1))
          Anything
  unfolding store_execution_attempt
  store-Used attempt_id number provider payload response =
      Triple-bind _ _ (Triple-quiet (λ rs ats h. tt) (Respects-now Quiet-IsStable env)) λ at.
        Triple-insert (λ rs ats h. tt) _ _ _
          λ db h. rw (count-append (is_of i) db.execution_attempts _, eq_refl i, h) refl

pub run_provider_attempt-Answered :
    (env : Env) (first : ExecutionRequest) (n : ℕ) (outcome st case_status : String)
    → Triple
        (Used first.execution_request_id n)
        (run_provider_attempt env first outcome st case_status)
        (Answered first.execution_request_id (n + 1) outcome)
        Anything
unfolding run_provider_attempt get_execution_request_by_id get_execution_attempt_count
run_provider_attempt-Answered env first n outcome st case_status =
    let i = first.execution_request_id in
    Triple-bind _ _ (set-Shows env i n st none) λ _.
      Triple-bind _ _
        (Triple-quiet (λ rs ats h. tt) (update_case_status-Respects env Quiet-Frame _ _))
        λ _.
          Triple-bind _ _ (Triple-gets (λ rs ats h. tt) (λ rs ats. fetch_one (has_id i) rs))
            λ found.
              Triple-bind _ _ (Triple-gets (λ rs ats h. tt) (λ rs ats. count (is_of i) ats))
                λ before.
                  Triple-bind _ _
                    (Triple-quiet (λ rs ats h. tt) (Respects-draw_uuid8 Quiet-IsStable env))
                    λ uuid. Triple-bind _ _ (Triple-row (λ rs ats h. tt) found) λ request.
                      Triple-bind _ _ (answer-Triple (λ rs ats h. tt) env request outcome)
                        λ response.
                          Triple-pre
                            {p' = λ rs ats.
                              Used i n rs ats
                              × IsAnswer outcome
                                  (map_provider_response_to_execution_status response)}
                            (λ rs ats h. (h.0.0.0.0.0, h.1))
                            (Triple-fact λ fits.
                              Triple-bind _ _ (store-Used env i n _ _ _ _ response) λ _.
                                Triple-bind _ _
                                  (Triple-quiet (λ rs ats h. tt)
                                    (record_audit_event-Respects env Quiet-Frame _ _ _ _ _ _ _))
                                  λ _.
                                    Triple-post _
                                      (settle-Shows env i (n + 1) _ response.provider_object_id _ _)
                                      λ r rs ats h.
                                        (h.0, subst (λ s. IsAnswer outcome s) (sym h.1) fits, h.2))
