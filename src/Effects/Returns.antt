-- ===== src/Effects/Returns.antt =====
-- Actions that return, and what is known where nothing is raised or where one check raises.
use billing_recovery_executi.Common.{
  Bool, true, false, String, Option, none, some, ◌≡◌, ◌⊎◌, inl, inr, refl,
}
use billing_recovery_executi.Database.{
  Database, Env, Result, ok, err, Error, pure, raise, gets, row, raise_if, insert, insert_if_free,
  next_tick, draw_uuid8, draw_uuid10, call_tick,
}
use billing_recovery_executi.Effects.Spec.{Condition, Spec, Ends}

-- Nothing is raised.
abbrev pub Never : Condition
Never db = ⊥

-- Actions that return.
module _ {p e : Condition} {A : Type 0} where
  pub Spec-fetched : (f : Database → A) → Spec p (gets f) (λ a db. p db × (a ≡ f db)) e
  unfolding gets
  Spec-fetched f = record { at = λ db h. (h, refl) }

  pub Spec-present :
      (o : Option A)
      → ((db : Database) → p db → (a : A) × (o ≡ some a))
      → Spec p (row o) (λ a db. p db × (o ≡ some a)) e
  unfolding row raise pure
  Spec-present none h = record { at = λ db k. let (a, x) = h db k in absurd cc }
  Spec-present (some a) h = record { at = λ db k. (k, refl) }

free_at :
    (q e : Condition) (taken : Bool) (column : String) (add : Database → Database) (db : Database)
    → taken ≡ false
    → q (add db)
    → Ends (λ _. q) e (insert_if_free taken column add db).0 (insert_if_free taken column add db).1
unfolding insert_if_free
free_at q e true column add db h k = absurd cc
free_at q e false column add db h k = k

module _ {p e : Condition} where
  pub Spec-free :
      {q : Condition} (column : String) (clash : Database → Bool) (add : Database → Database)
      → ((db : Database) → p db → (clash db ≡ false) × q (add db))
      → Spec p (insert column clash add) (λ _. q) e
  unfolding insert
  Spec-free {q = q} column clash add h = record {
    at = λ db k. free_at q e (clash db) column add db (h db k).0 (h db k).1;
  }

  pub Spec-passed :
      (b : Bool) (x : Error)
      → ((db : Database) → p db → b ≡ false)
      → Spec p (raise_if b x) (λ _. p) e
  unfolding raise_if
  Spec-passed true x h = record { at = λ db k. let no = h db k in absurd cc }
  Spec-passed false x h = record { at = λ db k. k }

  -- A check that raises to a condition of its own.
  pub Spec-guard :
      (b : Bool) (x : Error)
      → ((db : Database) → p db → b ≡ true → e db)
      → Spec p (raise_if b x) (λ _ db. p db × (b ≡ false)) e
  unfolding raise_if
  Spec-guard true x h = record { at = λ db k. h db k refl }
  Spec-guard false x h = record { at = λ db k. (k, refl) }

  module _ (env : Env) where
    pub Spec-drawn :
        {q : String → Condition}
        → ((db : Database) → p db → q (env.uuid8 db.tick) (next_tick db))
        → Spec p (draw_uuid8 env) q e
    unfolding draw_uuid8
    Spec-drawn h = record { at = h }

    pub Spec-draw_uuid10 :
        ((db : Database) → p db → p (next_tick db)) → Spec p (draw_uuid10 env) (λ _. p) e
    unfolding draw_uuid10
    Spec-draw_uuid10 ticks = record { at = ticks }

    pub Spec-called :
        ((db : Database) → p db → p (next_tick db)) → Spec p (call_tick env) (λ _. p) e
    unfolding call_tick
    Spec-called ticks = record { at = ticks }

-- What an action that does not raise returns, and where it ends.
pub returns :
    {A : Type 0} (q : A → Condition) (r : Result A) (db : Database)
    → Ends q Never r db
    → (a : A) × (r ≡ ok a) × q a db
returns q (ok a) db h = (a, refl, h)
returns q (err x) db h = absurd h

pub ended :
    {A : Type 0} (p : Condition) (r : Result A) (db : Database) → Ends (λ _. p) Never r db → p db
ended p (ok a) db h = h
ended p (err x) db h = absurd h

-- Whether an action returns or raises, and where it ends.
pub outcomes :
    {A : Type 0} (q : A → Condition) (e : Condition) (r : Result A) (db : Database)
    → Ends q e r db
    → ((a : A) × (r ≡ ok a) × q a db) ⊎ ((x : Error) × (r ≡ err x) × e db)
outcomes q e (ok a) db h = inl (a, refl, h)
outcomes q e (err x) db h = inr (x, refl, h)
