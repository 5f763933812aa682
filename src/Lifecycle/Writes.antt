-- ===== src/Lifecycle/Writes.antt =====
-- The writes of the services to execution requests and attempts, each with what is known where it is
-- made, and a condition on the database that says it.
use mathlib.Core.Path.{subst}
use billing_recovery_executi.Common.{
  ℕ, ◌+◌, String, false, Option, none, some, ◌≡◌, ◌≢◌, ◌⊎◌, refl, ◌∙◌, ap, arith,
}
use billing_recovery_executi.Table.{fetch_one, count}
use billing_recovery_executi.Database.{Database, ExecutionRequest, ExecutionAttempt, Env}
use billing_recovery_executi.Execution.Requests.{
  has_id, is_of, update_requests, with_status, set_execution_request_status,
  update_execution_request_provider_and_status,
}
use billing_recovery_executi.Execution.Attempts.{has_attempt, add_attempt}
use billing_recovery_executi.Rules.ExecutionRules.{
  provider_succeeded, error_transient, error_permanent, error_unknown,
}
use billing_recovery_executi.Workflow.Requests.{KeepsTerms, with_status-KeepsTerms}
use billing_recovery_executi.Effects.Respects.{Relation}
use billing_recovery_executi.Effects.Frame.{Frame}
use billing_recovery_executi.Effects.Spec.{Spec, Spec-bind, Spec-now, Spec-modify}
use billing_recovery_executi.Safety.Steps.{updated_status}
use billing_recovery_executi.Lifecycle.Steps.{Step}

-- A provider either succeeded, and there is no error, or did not, and the error is of one of the
-- three types.
abbrev pub IsClassified : String → Option String → Type 0
IsClassified status error =
    (status ≡ provider_succeeded) × (error ≡ none)
    ⊎ (status ≢ provider_succeeded)
      × ((error ≡ some error_transient)
          ⊎ (error ≡ some error_permanent)
          ⊎ (error ≡ some error_unknown))

-- The request of this identifier, if it is there, has the status.
abbrev pub HasStatus : String → String → Database → Type 0
HasStatus i s db =
    (r : ExecutionRequest) → fetch_one (has_id i) db.execution_requests ≡ some r → r.status ≡ s

-- What is known of an attempt that is added.
pub record IsRecorded (db : Database) (a : ExecutionAttempt) : Type 0 where
  pub key_free : has_attempt a.attempt_id db ≡ false
  pub numbered : a.attempt_number ≡ count (is_of a.execution_request_id) db.execution_attempts + 1
  pub classified : IsClassified a.provider_status a.error_type

-- A change of a request to a status, which keeps its terms.
pub record IsMove (t : String) (f : ExecutionRequest → ExecutionRequest) : Type 0 where
  pub terms : KeepsTerms f
  pub status : (r : ExecutionRequest) → (f r).status ≡ t

-- A relation that the writes respect.
pub record Writes (R : Relation) : Type 0 where
  pub frame : Frame R
  pub moves :
      (i s t : String) (f : ExecutionRequest → ExecutionRequest) (db : Database)
      → Step s t
      → HasStatus i s db
      → IsMove t f
      → R db (update_requests i f db)
  pub references :
      (i reference : String) (at : ℕ) (db : Database)
      → R db (
          update_requests i
            (λ r. record r { provider_object_id = some reference; updated_at = at })
            db)
  pub records : (a : ExecutionAttempt) (db : Database) → IsRecorded db a → R db (add_attempt a db)

-- What is known while a call works on the request `i`: it began at `start`, the request has the status
-- `s`, and `n` attempts.
pub record Known (R : Relation) (start : Database) (i s : String) (n : ℕ) (db : Database)
    : Type 0 where
  pub from : R start db
  pub has_status : HasStatus i s db
  pub used : count (is_of i) db.execution_attempts ≡ n

module _ {R : Relation} (w : Writes R) (start : Database) (i s : String) (n : ℕ) where
  still :
      (db next : Database)
      → R db next
      → (next.execution_requests ≡ db.execution_requests)
      → (next.execution_attempts ≡ db.execution_attempts)
      → Known R start i s n db
      → Known R start i s n next
  still db next step same same' k = record {
    from = w.frame.stable.both start db next k.from step;
    has_status = λ r e. k.has_status r (subst (λ t. fetch_one (has_id i) t ≡ some r) same e);
    used = ap (count (is_of i)) same' ∙ k.used;
  }

  pub Known-Frame : Frame (λ a b. Known R start i s n a → Known R start i s n b)
  Known-Frame = record {
    stable = record {
      same = λ db k. k;
      both = λ a b c h k x. k (h x);
      ticks = λ db. still db _ (w.frame.stable.ticks db) refl refl;
    };
    cases = λ c t at db. still db _ (w.frame.cases c t at db) refl refl;
    evaluations = λ e db h. still db _ (w.frame.evaluations e db h) refl refl;
    payments = λ p db h. still db _ (w.frame.payments p db h) refl refl;
    runs = λ r db h. still db _ (w.frame.runs r db h) refl refl;
    actions = λ a db h. still db _ (w.frame.actions a db h) refl refl;
    briefs = λ b db h. still db _ (w.frame.briefs b db h) refl refl;
    events = λ e db h. still db _ (w.frame.events e db h) refl refl;
  }

  pub Known-from : (db : Database) → Known R start i s n db → R start db
  Known-from db k = k.from

  moved :
      (t : String) (f : ExecutionRequest → ExecutionRequest) (db : Database)
      → Step s t
      → IsMove t f
      → Known R start i s n db
      → Known R start i t n (update_requests i f db)
  moved t f db st m k = record {
    from = w.frame.stable.both start db _ k.from (w.moves i s t f db st k.has_status m);
    has_status =
        λ r e. updated_status i f t db.execution_requests r (λ q. (m.terms q).same_id) m.status e;
    used = k.used;
  }

with_status-IsMove : (t : String) (o : Option String) (at : ℕ) → IsMove t (with_status t o at)
with_status-IsMove t o at = record {
  terms = with_status-KeepsTerms t o at;
  status = λ r. ground arith;
}

module _ {R : Relation} (w : Writes R) (env : Env) (start : Database) (i s : String) (n : ℕ) where
  pub set-Spec :
      (t : String) (o : Option String)
      → Step s t
      → Spec
          (Known R start i s n)
          (set_execution_request_status env i t o)
          (λ _. Known R start i t n)
          (R start)
  unfolding set_execution_request_status
  set-Spec t o st = Spec-bind _ _ (Spec-now env (Known-Frame w start i s n).stable.ticks) λ at.
      Spec-modify _
        λ db k. moved w start i s n t (with_status t o at) db st (with_status-IsMove t o at) k

  pub set_provider-Spec :
      (provider t : String)
      → Step s t
      → Spec
          (Known R start i s n)
          (update_execution_request_provider_and_status env i provider t)
          (λ _. Known R start i t n)
          (R start)
  unfolding update_execution_request_provider_and_status
  set_provider-Spec provider t st =
      Spec-bind _ _ (Spec-now env (Known-Frame w start i s n).stable.ticks) λ at.
        Spec-modify _ λ db k.
          moved w start i s n t (λ r. record r { provider = provider; status = t; updated_at = at })
            db st (record { terms = λ q. ground arith; status = λ r. refl }) k
