-- ===== src/Liveness/Fresh.antt =====
-- Identifiers that are drawn and not taken, and what is known of a request while calls that return
-- work on it.
use text.Mathlib.TextLemmas.{append_cancel_left, append_cancel_right}
use billing_recovery_executi.Common.{
  ℕ, ◌≤◌, String, List, Bool, false, some, [], ◌∷◌, ◌++◌, ◌==◌, ◌≡◌, ◌≢◌, sym, ◌∙◌, arith, eq_iff,
  fstring,
}
use billing_recovery_executi.Table.{fetch_one, count, exists}
use billing_recovery_executi.Database.{
  Database, ExecutionRequest, ExecutionAttempt, AuditEvent, Env, next_tick,
}
use billing_recovery_executi.Audit.{has_event, add_event}
use billing_recovery_executi.Execution.Requests.{has_id, is_of}
use billing_recovery_executi.Execution.Attempts.{has_attempt, add_attempt}

abbrev pub attempt_id_of : String → String
attempt_id_of uuid = fstring ("ATT-" ∷ uuid ∷ [])

abbrev pub event_id_of : String → String
event_id_of uuid = fstring ("AUD-" ∷ uuid ∷ [])

attempt_id_of-injective : (s t : String) → attempt_id_of s ≡ attempt_id_of t → s ≡ t
attempt_id_of-injective s t h = append_cancel_right s t "" (append_cancel_left "ATT-" _ _ h)

event_id_of-injective : (s t : String) → event_id_of s ≡ event_id_of t → s ≡ t
event_id_of-injective s t h = append_cancel_right s t "" (append_cancel_left "AUD-" _ _ h)

-- No two draws are equal.
abbrev pub DrawsDiffer : Env → Type 0
DrawsDiffer env = (t u : ℕ) → env.uuid8 t ≡ env.uuid8 u → t ≡ u

-- The identifiers that will be drawn are not taken.
pub record IsFresh (env : Env) (db : Database) : Type 0 where
  pub attempts : (t : ℕ) → db.tick ≤ t → has_attempt (attempt_id_of (env.uuid8 t)) db ≡ false
  pub events : (t : ℕ) → db.tick ≤ t → has_event (event_id_of (env.uuid8 t)) db ≡ false

-- An identifier that was drawn is not taken, and will not be drawn again.
pub record IsHeld (env : Env) (uuid : String) (db : Database) : Type 0 where
  pub attempt_free : has_attempt (attempt_id_of uuid) db ≡ false
  pub event_free : has_event (event_id_of uuid) db ≡ false
  pub later : (t : ℕ) → db.tick ≤ t → uuid ≢ env.uuid8 t

-- The request `i` is there, with the status `s` and `n` attempts.
pub record Stands (env : Env) (i s : String) (n : ℕ) (db : Database) : Type 0 where
  pub fresh : IsFresh env db
  pub row : ExecutionRequest
  pub there : fetch_one (has_id i) db.execution_requests ≡ some row
  pub status : row.status ≡ s
  pub used : count (is_of i) db.execution_attempts ≡ n

exists-append :
    {A : Type 0} (p : A → Bool) (t : List A) (a : A)
    → exists p t ≡ false
    → p a ≡ false
    → exists p (t ++ a ∷ []) ≡ false
exists-append p [] a h k = ground arith
exists-append p (b ∷ t) a h k = ground (arith, exists-append p t a)

differ : (s t : String) → s ≢ t → (s == t) ≡ false
differ s t h = ground (arith, eq_iff s t)

module _ (env : Env) where
  pub next_tick-IsFresh : (db : Database) → IsFresh env db → IsFresh env (next_tick db)
  next_tick-IsFresh db h = record {
    attempts = λ t k. h.attempts t (omega arith);
    events = λ t k. h.events t (omega arith);
  }

  pub next_tick-IsHeld :
      (uuid : String) (db : Database) → IsHeld env uuid db → IsHeld env uuid (next_tick db)
  next_tick-IsHeld uuid db h = record {
    attempt_free = h.attempt_free;
    event_free = h.event_free;
    later = λ t k. h.later t (omega arith);
  }

  pub draw-IsHeld :
      DrawsDiffer env
      → (db : Database) → IsFresh env db
      → IsHeld env (env.uuid8 db.tick) (next_tick db)
  draw-IsHeld distinct db h = record {
    attempt_free = h.attempts db.tick (omega arith);
    event_free = h.events db.tick (omega arith);
    later = λ t k e. let same = distinct db.tick t e in omega arith;
  }

  pub add_attempt-IsFresh :
      (uuid : String) (a : ExecutionAttempt) (db : Database)
      → a.attempt_id ≡ attempt_id_of uuid
      → IsHeld env uuid db
      → IsFresh env db
      → IsFresh env (add_attempt a db)
  add_attempt-IsFresh uuid a db e held h = record {
    attempts = λ t k.
        exists-append _ db.execution_attempts a (h.attempts t k)
          (differ _ _ λ x. held.later t k (attempt_id_of-injective _ _ (sym e ∙ x)));
    events = h.events;
  }

  pub add_event-IsFresh :
      (uuid : String) (a : AuditEvent) (db : Database)
      → a.event_id ≡ event_id_of uuid
      → IsHeld env uuid db
      → IsFresh env db
      → IsFresh env (add_event a db)
  add_event-IsFresh uuid a db e held h = record {
    attempts = h.attempts;
    events = λ t k.
        exists-append _ db.audit_events a (h.events t k)
          (differ _ _ λ x. held.later t k (event_id_of-injective _ _ (sym e ∙ x)));
  }
