-- ===== src/Effects/Respects.antt =====
-- Relations between the database before an action and the database after it, whether the action
-- returns or raises, and a rule for each way to build an action.
use billing_recovery_executi.Common.{
  Bool, true, false, String, Option, none, some, ◌≡◌, refl, if◌then◌else◌,
}
use billing_recovery_executi.Database.{
  Database, Env, ApiResult, PyException, Action, Result, ok, err, Error, pure, raise, gets, row,
  modify, raise_if, insert, insert_if_free, draw_uuid8, draw_uuid10, now, call_tick, next_tick,
  continue, ◌>>=◌,
}
use billing_recovery_executi.Providers.Stripe.{if_configured}

abbrev pub Relation : Type 1
Relation = Database → Database → Type 0

pub record Respects {A : Type 0} (R : Relation) (m : Action A) : Type 0 where
  pub at : (db : Database) → R db (m db).1

-- A preorder that the reads of the environment respect.
pub record IsStable (R : Relation) : Type 0 where
  pub same : (db : Database) → R db db
  pub both : (a b c : Database) → R a b → R b c → R a c
  pub ticks : (db : Database) → R db (next_tick db)

module _ {R : Relation} (stable : IsStable R) where
  pub Respects-pure : {A : Type 0} (a : A) → Respects R (pure a)
  unfolding pure
  Respects-pure a = record { at = λ db. stable.same db }

  pub Respects-raise : {A : Type 0} (e : Error) → Respects R (raise {A = A} e)
  unfolding raise
  Respects-raise e = record { at = λ db. stable.same db }

  pub Respects-gets : {A : Type 0} (f : Database → A) → Respects R (gets f)
  unfolding gets
  Respects-gets f = record { at = λ db. stable.same db }

  pub Respects-row : {A : Type 0} (o : Option A) → Respects R (row o)
  unfolding row
  Respects-row none = Respects-raise Error.type_error
  Respects-row (some a) = Respects-pure a

  pub Respects-raise_if : (b : Bool) (e : Error) → Respects R (raise_if b e)
  unfolding raise_if
  Respects-raise_if true e = record { at = λ db. stable.same db }
  Respects-raise_if false e = record { at = λ db. stable.same db }

  pub Respects-draw_uuid8 : (env : Env) → Respects R (draw_uuid8 env)
  unfolding draw_uuid8
  Respects-draw_uuid8 env = record { at = λ db. stable.ticks db }

  pub Respects-draw_uuid10 : (env : Env) → Respects R (draw_uuid10 env)
  unfolding draw_uuid10
  Respects-draw_uuid10 env = record { at = λ db. stable.ticks db }

  pub Respects-now : (env : Env) → Respects R (now env)
  unfolding now
  Respects-now env = record { at = λ db. stable.ticks db }

  pub Respects-call_tick : (env : Env) → Respects R (call_tick env)
  unfolding call_tick
  Respects-call_tick env = record { at = λ db. stable.ticks db }

  pub Respects-modify :
      (f : Database → Database) → ((db : Database) → R db (f db)) → Respects R (modify f)
  unfolding modify
  Respects-modify f h = record { at = h }

  insert_at :
      (taken : Bool) (column : String) (add : Database → Database) (db : Database)
      → (taken ≡ false → R db (add db))
      → R db (insert_if_free taken column add db).1
  unfolding insert_if_free
  insert_at true column add db h = stable.same db
  insert_at false column add db h = h refl

  -- The row is added only where the key is free.
  pub Respects-insert :
      (column : String) (clash : Database → Bool) (add : Database → Database)
      → ((db : Database) → clash db ≡ false → R db (add db))
      → Respects R (insert column clash add)
  unfolding insert
  Respects-insert column clash add h = record {
    at = λ db. insert_at (clash db) column add db (h db);
  }

  pub Respects-continue :
      {A B : Type 0} (r : Result A) (f : A → Action B) (db : Database)
      → ((a : A) → Respects R (f a))
      → R db (continue r f db).1
  Respects-continue (ok a) f db h = (h a).at db
  Respects-continue (err e) f db h = stable.same db

  pub Respects-bind :
      {A B : Type 0} (m : Action A) (f : A → Action B)
      → Respects R m
      → ((a : A) → Respects R (f a))
      → Respects R (m >>= f)
  unfolding ◌>>=◌
  Respects-bind m f hm hf = record {
    at = λ db.
        let (r, db') = m db in
        stable.both db db' (continue r f db').1 (hm.at db) (Respects-continue r f db' hf);
  }

module _ {R : Relation} where
  pub Respects-if :
      {A : Type 0} (b : Bool) {m n : Action A}
      → Respects R m
      → Respects R n
      → Respects R (if b then m else n)
  Respects-if true hm hn = hm
  Respects-if false hm hn = hn

  pub Respects-if_configured :
      {A : Type 0} (stable : IsStable R) (o : Option PyException) {m : Action (ApiResult A)}
      → Respects R m
      → Respects R (if_configured o m)
  unfolding if_configured
  Respects-if_configured stable none h = h
  Respects-if_configured stable (some e) h = Respects-pure stable (ApiResult.raised e)

pub ruleset respects_rules = (
  Respects-pure, Respects-raise, Respects-gets, Respects-row, Respects-raise_if,
  Respects-draw_uuid8, Respects-draw_uuid10, Respects-now, Respects-call_tick, Respects-modify,
  Respects-insert, Respects-bind, Respects-if, Respects-if_configured,
)
