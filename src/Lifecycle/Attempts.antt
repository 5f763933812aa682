-- ===== src/Lifecycle/Attempts.antt =====
-- src/execution/execution_service.py: one attempt, as steps of the request that it works on.
use mathlib.Core.Path.{subst}
use billing_recovery_executi.Common.{
  ℕ, ◌+◌, String, Option, none, some, ◌≡◌, ◌⊎◌, inl, refl, sym, ◌∙◌, ap, eq_refl,
}
use billing_recovery_executi.Table.{fetch_one, count, count-append}
use billing_recovery_executi.Database.{
  Json, Database, ExecutionRequest, StripeTestPayment, Env, row, ◌>>=◌, ◌>>◌,
}
use billing_recovery_executi.Cases.{update_case_status}
use billing_recovery_executi.Providers.Types.{ProviderResponse}
use billing_recovery_executi.Execution.Requests.{
  has_id, is_of, get_execution_request_by_id, get_execution_attempt_count,
  set_execution_request_status,
}
use billing_recovery_executi.Execution.Attempts.{
  store_execution_attempt, run_provider_attempt, run_stripe_refund_attempt,
}
use billing_recovery_executi.Rules.ExecutionRules.{execution_pending, processing, retrying}
use billing_recovery_executi.Effects.Respects.{Relation}
use billing_recovery_executi.Effects.Frame.{
  record_audit_event-Respects, update_case_status-Respects,
}
use billing_recovery_executi.Effects.Spec.{
  Spec, Spec-bind, Spec-keeps, Spec-gets, Spec-row, Spec-insert, Spec-draw_uuid8, Spec-now,
  Spec-pre, Spec-post, Spec-fact,
}
use billing_recovery_executi.Lifecycle.Steps.{Step, answer, execute}
use billing_recovery_executi.Lifecycle.Writes.{
  IsClassified, Writes, Known, Known-Frame, Known-from, set-Spec, set_provider-Spec,
}
use billing_recovery_executi.Lifecycle.Answers.{
  map_provider_response_to_execution_status-IsAnswered, execute_billing_operation-Fits,
  stripe_response-Fits,
}

module _ {R : Relation} (w : Writes R) (env : Env) (start : Database) (i : String) where
  -- The request that is read back has the status that is known.
  pub read_back :
      (t : String) (n : ℕ) (o : Option ExecutionRequest) (r : ExecutionRequest) (db : Database)
      → Known R start i t n db
      → o ≡ fetch_one (has_id i) db.execution_requests
      → o ≡ some r
      → Known R start i r.status n db
  read_back t n o r db k e x =
      subst (λ s. Known R start i s n db) (sym (k.has_status r (sym e ∙ x))) k

  pub read-Spec :
      (t : String) (n : ℕ)
      → Spec
          (Known R start i t n)
          (do updated ← get_execution_request_by_id i; row updated)
          (λ r. Known R start i r.status n)
          (R start)
  unfolding get_execution_request_by_id
  read-Spec t n = Spec-bind _ _ (Spec-gets (Known-from w start i t n) _) λ o.
      Spec-post _ (Spec-row (λ db h. h.0.from) o) λ r db h. read_back t n o r db h.0.0 h.0.1 h.1

  keeps_case :
      (t : String) (n : ℕ) (case_id case_status : String)
      → Spec
          (Known R start i t n)
          (update_case_status env case_id case_status)
          (λ _. Known R start i t n)
          (R start)
  keeps_case t n c s =
      Spec-keeps (Known-from w start i t n)
        (update_case_status-Respects env (Known-Frame w start i t n) c s)

  -- The end of an attempt.
  pub settle-Spec :
      (s t : String) (n : ℕ) (object_id : Option String) (case_id case_status : String)
      → Step s t
      → Spec
          (Known R start i s n)
          (do
            set_execution_request_status env i t object_id
            update_case_status env case_id case_status
            updated ← get_execution_request_by_id i
            row updated)
          (λ r. Known R start i r.status n)
          (R start)
  settle-Spec s t n object_id case_id case_status st =
      Spec-bind _ _ (set-Spec w env start i s n t object_id st)
        λ _. Spec-bind _ _ (keeps_case t n case_id case_status) λ _. read-Spec t n

  store-Spec :
      (s : String) (n : ℕ) (attempt_id : String) (number : ℕ) (provider : String) (payload : Json)
      (response : ProviderResponse)
      → number ≡ n + 1
      → IsClassified response.provider_status response.error_type
      → Spec
          (Known R start i s n)
          (store_execution_attempt env attempt_id i number provider payload response)
          (λ _. Known R start i s (n + 1))
          (R start)
  unfolding store_execution_attempt
  store-Spec s n attempt_id number provider payload response e fits =
      Spec-bind _ _ (Spec-now env (Known-Frame w start i s n).stable.ticks) λ at.
        Spec-insert (Known-from w start i s n) _ _ _ λ db k free. record {
          from = w.frame.stable.both start db _ k.from (
              w.records _ db (record {
                key_free = free;
                numbered = e ∙ ap (λ m. m + 1) (sym k.used);
                classified = fits;
              }));
          has_status = k.has_status;
          used = rw (count-append (is_of i) db.execution_attempts _, eq_refl i, k.used) refl;
        }

module _ {R : Relation} (w : Writes R) (env : Env) (start : Database)
    (first : ExecutionRequest) where
  abbrev own_id : String
  own_id = first.execution_request_id

  pub run_provider_attempt-Spec :
      (s t : String) (n : ℕ) (outcome case_status : String)
      → Step s t
      → (t ≡ processing) ⊎ (t ≡ retrying)
      → Spec
          (Known R start own_id s n)
          (run_provider_attempt env first outcome t case_status)
          (λ r. Known R start own_id r.status (n + 1))
          (R start)
  unfolding run_provider_attempt get_execution_request_by_id get_execution_attempt_count
  run_provider_attempt-Spec s t n outcome case_status st busy =
      let known = Known-from w start own_id t n in
      let frame = Known-Frame w start own_id t n in
      Spec-bind _ _ (set-Spec w env start own_id s n t none st) λ _.
        Spec-bind _ _ (Spec-keeps known (update_case_status-Respects env frame _ _)) λ _.
          Spec-bind _ _ (Spec-gets known _) λ read.
            Spec-bind _ _
              (Spec-gets (λ db h. h.0.from) (λ db. count (is_of own_id) db.execution_attempts))
              λ before.
                Spec-pre {p' = λ db. Known R start own_id t n db × (before ≡ n)}
                  (λ db h. (h.0.0, h.1 ∙ h.0.0.used))
                  (Spec-fact λ e. Spec-bind _ _ (Spec-draw_uuid8 env frame.stable.ticks) λ uuid.
                    Spec-bind _ _ (Spec-row known read) λ request.
                      Spec-pre (λ db h. h.0)
                        (Spec-bind _ _
                          (execute_billing_operation-Fits env known frame.stable request outcome)
                          λ response. Spec-fact λ fits.
                            Spec-bind _ _
                              (store-Spec w env start own_id t n _ _ _ _ response
                                (ap (λ m. m + 1) e) fits)
                              λ _.
                                Spec-bind _ _
                                  (Spec-keeps (Known-from w start own_id t (n + 1)) (
                                    record_audit_event-Respects env
                                      (Known-Frame w start own_id t (n + 1)) _ _ _ _ _ _ _))
                                  λ _.
                                    settle-Spec w env start own_id t _ (n + 1)
                                      response.provider_object_id _ _
                                      (answer busy (
                                        map_provider_response_to_execution_status-IsAnswered
                                          response))))

  pub run_stripe_refund_attempt-Spec :
      (n : ℕ) (payment : StripeTestPayment) (mode : String)
      → Spec
          (Known R start own_id execution_pending n)
          (run_stripe_refund_attempt env first payment mode)
          (λ r. Known R start own_id r.status (n + 1))
          (R start)
  unfolding run_stripe_refund_attempt get_execution_request_by_id get_execution_attempt_count
  run_stripe_refund_attempt-Spec n payment mode =
      let known = Known-from w start own_id processing n in
      let frame = Known-Frame w start own_id processing n in
      Spec-bind _ _
        (set_provider-Spec w env start own_id execution_pending n _ processing (execute refl refl))
        λ _. Spec-bind _ _ (Spec-keeps known (update_case_status-Respects env frame _ _)) λ _.
          Spec-bind _ _ (Spec-gets known _) λ read.
            Spec-bind _ _
              (Spec-gets (λ db h. h.0.from) (λ db. count (is_of own_id) db.execution_attempts))
              λ before.
                Spec-pre {p' = λ db. Known R start own_id processing n db × (before ≡ n)}
                  (λ db h. (h.0.0, h.1 ∙ h.0.0.used))
                  (Spec-fact λ e. Spec-bind _ _ (Spec-draw_uuid8 env frame.stable.ticks) λ uuid.
                    Spec-bind _ _ (Spec-row known read) λ request.
                      Spec-pre (λ db h. h.0)
                        (Spec-bind _ _
                          (stripe_response-Fits env known frame.stable request payment mode)
                          λ response. Spec-fact λ fits.
                            Spec-bind _ _
                              (store-Spec w env start own_id processing n _ _ _ _ response
                                (ap (λ m. m + 1) e) fits)
                              λ _.
                                Spec-bind _ _
                                  (Spec-keeps (Known-from w start own_id processing (n + 1)) (
                                    record_audit_event-Respects env
                                      (Known-Frame w start own_id processing (n + 1)) _ _ _ _ _ _
                                      _))
                                  λ _.
                                    settle-Spec w env start own_id processing _ (n + 1)
                                      response.provider_object_id _ _
                                      (answer (inl refl) (
                                        map_provider_response_to_execution_status-IsAnswered
                                          response))))
