-- ===== src/Liveness/Attempts.antt =====
-- src/execution/execution_service.py: an attempt with the mock provider, which raises nothing.
use mathlib.Core.Path.{subst}
use mathlib.Core.Option.{some-injective}
use billing_recovery_executi.Common.{
  ℕ, ◌+◌, String, Option, none, some, ◌≡◌, refl, sym, ◌∙◌, ap, arith, ◌==◌, eq_refl,
}
use billing_recovery_executi.Table.{
  fetch_one, touched, fetch_one-update, fetch_one_holds, count-append,
}
use billing_recovery_executi.Database.{
  Json, Database, ExecutionRequest, Env, next_tick, draw_uuid8, row, ◌>>=◌,
}
use billing_recovery_executi.Audit.{record_audit_event}
use billing_recovery_executi.Cases.{update_case_status}
use billing_recovery_executi.Providers.Types.{ProviderResponse}
use billing_recovery_executi.Providers.Mock.{execute_billing_operation}
use billing_recovery_executi.Execution.Requests.{
  has_id, is_of, update_requests, with_status, get_execution_request_by_id,
  get_execution_attempt_count, set_execution_request_status,
}
use billing_recovery_executi.Execution.Statuses.{map_provider_response_to_execution_status}
use billing_recovery_executi.Execution.Attempts.{store_execution_attempt, run_provider_attempt}
use billing_recovery_executi.Rules.ExecutionRules.{mock_success}
use billing_recovery_executi.Effects.Spec.{
  Condition, Spec, Spec-bind, Spec-pure, Spec-now, Spec-modify, Spec-pre, Spec-post, Spec-fact,
  Spec-if,
}
use billing_recovery_executi.Lifecycle.Steps.{IsAnswered}
use billing_recovery_executi.Lifecycle.Answers.{
  map_provider_response_to_execution_status-IsAnswered,
}
use billing_recovery_executi.Liveness.Fresh.{
  attempt_id_of, DrawsDiffer, IsHeld, Stands, next_tick-IsFresh, next_tick-IsHeld, draw-IsHeld,
  add_attempt-IsFresh, add_event-IsFresh,
}
use billing_recovery_executi.Effects.Returns.{
  Never, Spec-fetched, Spec-present, Spec-free, Spec-drawn, Spec-draw_uuid10,
}

module _ (env : Env) (i s : String) (n : ℕ) where
  abbrev On : Condition
  On db = Stands env i s n db

  abbrev OnHeld : String → Condition
  OnHeld uuid db = On db × IsHeld env uuid db

  pub next_tick-Stands : (db : Database) → On db → On (next_tick db)
  next_tick-Stands db h = record {
    fresh = next_tick-IsFresh env db h.fresh;
    row = h.row;
    there = h.there;
    status = h.status;
    used = h.used;
  }

  held_ticks : (uuid : String) (db : Database) → OnHeld uuid db → OnHeld uuid (next_tick db)
  held_ticks uuid db h = (next_tick-Stands db h.0, next_tick-IsHeld env uuid db h.1)

  moved :
      (t : String) (o : Option String) (at : ℕ) (db : Database)
      → On db
      → Stands env i t n (update_requests i (with_status t o at) db)
  moved t o at db h = record {
    fresh = record { attempts = h.fresh.attempts; events = h.fresh.events };
    row = with_status t o at h.row;
    there =
        fetch_one-update (has_id i) (has_id i) (with_status t o at) db.execution_requests
          (λ r. ground arith)
        ∙ ap (touched (has_id i) (with_status t o at)) h.there
        ∙ ap some (ground (arith, fetch_one_holds (has_id i) db.execution_requests h.row h.there));
    status = ground arith;
    used = h.used;
  }

  pub set_status-Stands :
      (t : String) (o : Option String)
      → Spec On (set_execution_request_status env i t o) (λ _. Stands env i t n) Never
  unfolding set_execution_request_status
  set_status-Stands t o =
      Spec-bind _ _ (Spec-now env next_tick-Stands) λ at. Spec-modify _ λ db h. moved t o at db h

  pub update_case_status-Stands :
      (c t : String) → Spec On (update_case_status env c t) (λ _. On) Never
  unfolding update_case_status
  update_case_status-Stands c t = Spec-bind _ _ (Spec-now env next_tick-Stands) λ at.
      Spec-modify _ λ db h. record {
        fresh = record { attempts = h.fresh.attempts; events = h.fresh.events };
        row = h.row;
        there = h.there;
        status = h.status;
        used = h.used;
      }

  pub draw-Stands : DrawsDiffer env → Spec On (draw_uuid8 env) OnHeld Never
  draw-Stands distinct =
      Spec-drawn env λ db h. (next_tick-Stands db h, draw-IsHeld env distinct db h.fresh)

  pub record_audit_event-Stands :
      DrawsDiffer env
      → (c : Option String) (et ei ev at an : String) (d : Json)
      → Spec On (record_audit_event env c et ei ev at an d) (λ _. On) Never
  unfolding record_audit_event
  record_audit_event-Stands distinct c et ei ev at an d =
      Spec-bind _ _ (draw-Stands distinct) λ uuid.
        Spec-bind _ _ (Spec-now env (held_ticks uuid)) λ time.
          Spec-bind _ _
            (Spec-free {q = On} _ _ _ λ db h. (
              h.1.event_free,
              record {
                fresh = add_event-IsFresh env uuid _ db refl h.1 h.0.fresh;
                row = h.0.row;
                there = h.0.there;
                status = h.0.status;
                used = h.0.used;
              },
            ))
            λ _. Spec-pure _ λ db h. h

  pub store-Stands :
      (uuid : String) (number : ℕ) (provider : String) (payload : Json)
      (response : ProviderResponse)
      → Spec
          (OnHeld uuid)
          (store_execution_attempt env (attempt_id_of uuid) i number provider payload response)
          (λ _. Stands env i s (n + 1))
          Never
  unfolding store_execution_attempt
  store-Stands uuid number provider payload response =
      Spec-bind _ _ (Spec-now env (held_ticks uuid)) λ at. Spec-free _ _ _ λ db h. (
        h.1.attempt_free,
        record {
          fresh = add_attempt-IsFresh env uuid _ db refl h.1 h.0.fresh;
          row = h.0.row;
          there = h.0.there;
          status = h.0.status;
          used = rw (count-append (is_of i) db.execution_attempts _, eq_refl i, h.0.used) refl;
        },
      )

  pub answer-Stands :
      (uuid : String) (r : ExecutionRequest) (outcome : String)
      → Spec (OnHeld uuid) (execute_billing_operation env r outcome) (λ _. OnHeld uuid) Never
  unfolding execute_billing_operation
  answer-Stands uuid r outcome =
      Spec-if (outcome == mock_success)
        (λ _. Spec-bind _ _ (Spec-draw_uuid10 env (held_ticks uuid)) λ x. Spec-pure _ λ db h. h)
        (λ _. Spec-pure _ λ db h. h)

  -- The request is there when it is read.
  pub read_back-Stands :
      Spec On
        (do updated ← get_execution_request_by_id i; row updated)
        (λ r db. On db × (fetch_one (has_id i) db.execution_requests ≡ some r) × (r.status ≡ s))
        Never
  unfolding get_execution_request_by_id
  read_back-Stands = Spec-bind _ _ (Spec-fetched _) λ o.
      Spec-post _ (Spec-present o λ db h. (h.0.row, h.1 ∙ h.0.there)) λ r db h.
        let there = sym h.0.1 ∙ h.1 in
        (
          h.0.0,
          there,
          ap (λ q. q.status) (some-injective r h.0.0.row (sym there ∙ h.0.0.there)) ∙ h.0.0.status,
        )

module _ (env : Env) (distinct : DrawsDiffer env) (first : ExecutionRequest) (n : ℕ) where
  abbrev own_id : String
  own_id = first.execution_request_id

  pub run_provider_attempt-Stands :
      (s t outcome case_status : String)
      → Spec
          (Stands env own_id s n)
          (run_provider_attempt env first outcome t case_status)
          (λ r db. Stands env own_id r.status (n + 1) db × IsAnswered r.status)
          Never
  unfolding run_provider_attempt get_execution_request_by_id get_execution_attempt_count
  run_provider_attempt-Stands s t outcome case_status =
      Spec-bind _ _ (set_status-Stands env own_id s n t none) λ _.
        Spec-bind _ _ (update_case_status-Stands env own_id t n _ _) λ _.
          Spec-bind _ _ (Spec-fetched _) λ read.
            Spec-pre
              {p' = λ db. Stands env own_id t n db × ((r : ExecutionRequest) × (read ≡ some r))}
              (λ db h. (h.0, (h.0.row, h.1 ∙ h.0.there)))
              (Spec-fact λ there. Spec-bind _ _ (Spec-fetched _) λ before.
                Spec-pre (λ db h. h.0)
                  (Spec-bind _ _ (draw-Stands env own_id t n distinct) λ uuid.
                    Spec-bind _ _ (Spec-present read λ db h. there) λ request.
                      Spec-pre (λ db h. h.0)
                        (Spec-bind _ _ (answer-Stands env own_id t n uuid request outcome)
                          λ response.
                            Spec-bind _ _ (store-Stands env own_id t n uuid _ _ _ response) λ _.
                              Spec-bind _ _
                                (record_audit_event-Stands env own_id t (n + 1) distinct _ _ _ _ _ _
                                  _)
                                λ _.
                                  let u = map_provider_response_to_execution_status response in
                                  Spec-bind _ _
                                    (set_status-Stands env own_id t (n + 1) u
                                      response.provider_object_id)
                                    λ _.
                                      Spec-bind _ _
                                        (update_case_status-Stands env own_id u (n + 1) _ _)
                                        λ _.
                                          Spec-post _ (read_back-Stands env own_id u (n + 1))
                                            λ r db h.
                                              subst
                                                (λ v. Stands env own_id v (n + 1) db × IsAnswered v)
                                                (sym h.2)
                                                (
                                                  h.0,
                                                  map_provider_response_to_execution_status-IsAnswered
                                                      response,
                                                ))))
