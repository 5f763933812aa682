-- ===== src/Effects/Spec.antt =====
-- Conditions on the whole database before an action and after it.
use billing_recovery_executi.Common.{
  Bool, true, false, String, Option, none, some, ◌≡◌, refl, if◌then◌else◌,
}
use billing_recovery_executi.Database.{
  Database, Env, Action, Result, ok, err, Error, pure, raise, gets, row, modify, raise_if, insert,
  insert_if_free, continue, next_tick, draw_uuid8, now, ◌>>=◌,
}
use billing_recovery_executi.Effects.Respects.{Relation, Respects, IsStable}

abbrev pub Condition : Type 1
Condition = Database → Type 0

abbrev pub Ends : {A : Type 0} → (A → Condition) → Condition → Result A → Condition
Ends q e (ok a) db = q a db
Ends q e (err x) db = e db

-- From where `p` holds, `m` returns to where `q` holds or raises to where `e` does.
pub record Spec {A : Type 0} (p : Condition) (m : Action A) (q : A → Condition) (e : Condition)
    : Type 0 where
  pub at : (db : Database) → p db → Ends q e (m db).0 (m db).1

module _ {A B : Type 0} (q : A → Condition) (q' : B → Condition) (e : Condition) where
  continue_at :
      (r : Result A) (f : A → Action B) (db : Database)
      → Ends q e r db
      → ((a : A) → Spec (q a) (f a) q' e)
      → Ends q' e (continue r f db).0 (continue r f db).1
  continue_at (ok a) f db h k = (k a).at db h
  continue_at (err x) f db h k = h

module _ {A B : Type 0} {p e : Condition} {q : A → Condition} {q' : B → Condition} where
  pub Spec-bind :
      (m : Action A) (f : A → Action B)
      → Spec p m q e
      → ((a : A) → Spec (q a) (f a) q' e)
      → Spec p (m >>= f) q' e
  unfolding ◌>>=◌
  Spec-bind m f hm hf = record {
    at = λ db h. let (r, db') = m db in continue_at q q' e r f db' (hm.at db h) hf;
  }

module _ {p e : Condition} (weaken : (db : Database) → p db → e db) where
  keeps_at : {A : Type 0} (r : Result A) (db : Database) → p db → Ends (λ _. p) e r db
  keeps_at (ok a) db h = h
  keeps_at (err x) db h = weaken db h

  -- An action that keeps the condition.
  pub Spec-keeps : {A : Type 0} {m : Action A} → Respects (λ a b. p a → p b) m → Spec p m (λ _. p) e
  Spec-keeps {m = m} h = record { at = λ db k. keeps_at (m db).0 (m db).1 (h.at db k) }

  pub Spec-gets : {A : Type 0} (f : Database → A) → Spec p (gets f) (λ a db. p db × (a ≡ f db)) e
  unfolding gets
  Spec-gets f = record { at = λ db h. (h, refl) }

  pub Spec-row : {A : Type 0} (o : Option A) → Spec p (row o) (λ a db. p db × (o ≡ some a)) e
  unfolding row raise pure
  Spec-row none = record { at = weaken }
  Spec-row (some a) = record { at = λ db h. (h, refl) }

  pub Spec-raise : {A : Type 0} {q : A → Condition} (x : Error) → Spec p (raise x) q e
  unfolding raise
  Spec-raise x = record { at = weaken }

  pub Spec-raise_if : (b : Bool) (x : Error) → Spec p (raise_if b x) (λ _ db. p db × (b ≡ false)) e
  unfolding raise_if
  Spec-raise_if true x = record { at = weaken }
  Spec-raise_if false x = record { at = λ db h. (h, refl) }

  insert_at :
      (q : Condition) (taken : Bool) (column : String) (add : Database → Database) (db : Database)
      → p db
      → (taken ≡ false → q (add db))
      → Ends
          (λ _. q)
          e
          (insert_if_free taken column add db).0
          (insert_if_free taken column add db).1
  unfolding insert_if_free
  insert_at q true column add db h k = weaken db h
  insert_at q false column add db h k = k refl

  pub Spec-insert :
      {q : Condition} (column : String) (clash : Database → Bool) (add : Database → Database)
      → ((db : Database) → p db → clash db ≡ false → q (add db))
      → Spec p (insert column clash add) (λ _. q) e
  unfolding insert
  Spec-insert {q = q} column clash add h = record {
    at = λ db k. insert_at q (clash db) column add db k (h db k);
  }

  -- A check whose outcome is not used.
  pub Spec-check : (b : Bool) (x : Error) → Spec p (raise_if b x) (λ _. p) e
  unfolding raise_if
  Spec-check true x = record { at = weaken }
  Spec-check false x = record { at = λ db h. h }

module _ {p e : Condition} (env : Env) (ticks : (db : Database) → p db → p (next_tick db)) where
  pub Spec-draw_uuid8 : Spec p (draw_uuid8 env) (λ _. p) e
  unfolding draw_uuid8
  Spec-draw_uuid8 = record { at = ticks }

  pub Spec-now : Spec p (now env) (λ _. p) e
  unfolding now
  Spec-now = record { at = ticks }

module _ {p e : Condition} {A : Type 0} where
  pub Spec-pure :
      {q : A → Condition} (a : A) → ((db : Database) → p db → q a db) → Spec p (pure a) q e
  unfolding pure
  Spec-pure a h = record { at = h }

  pub Spec-pre :
      {p' : Condition} {m : Action A} {q : A → Condition}
      → ((db : Database) → p db → p' db)
      → Spec p' m q e
      → Spec p m q e
  Spec-pre h t = record { at = λ db k. t.at db (h db k) }

module _ {p e : Condition} {A : Type 0} {q : A → Condition} where
  -- What is known whatever the database is is known while the action runs.
  pub Spec-fact : {P : Type 0} {m : Action A} → (P → Spec p m q e) → Spec (λ db. p db × P) m q e
  Spec-fact h = record { at = λ db k. (h k.1).at db k.0 }

module _ {p e : Condition} {A : Type 0} {q : A → Condition} where
  pub Spec-post :
      {q' : A → Condition} (m : Action A)
      → Spec p m q' e
      → ((a : A) (db : Database) → q' a db → q a db)
      → Spec p m q e
  Spec-post {q' = q'} m t h = record { at = λ db k. post_at (m db).0 (m db).1 (t.at db k) }
    where
      post_at : (r : Result A) (db : Database) → Ends q' e r db → Ends q e r db
      post_at (ok a) db x = h a db x
      post_at (err z) db x = x

module _ {p q e : Condition} where
  pub Spec-modify :
      (f : Database → Database) → ((db : Database) → p db → q (f db)) → Spec p (modify f) (λ _. q) e
  unfolding modify
  Spec-modify f h = record { at = h }

same_end : {A : Type 0} (p : Condition) (r : Result A) (db : Database) → Ends (λ _. p) p r db → p db
same_end p (ok a) db h = h
same_end p (err x) db h = h

-- An action that leads from what is related to the start to what is related to it.
pub Respects-of_Spec :
    {A : Type 0} {R : Relation} {m : Action A}
    → IsStable R
    → ((start : Database) → Spec (R start) m (λ _. R start) (R start))
    → Respects R m
Respects-of_Spec {R = R} {m = m} stable h = record {
  at = λ db. same_end (R db) (m db).0 (m db).1 ((h db).at db (stable.same db));
}

-- What holds of what is related to the start is kept by whatever respects the relation.
pub Respects-from :
    {A : Type 0} {R : Relation} {m : Action A} (start : Database)
    → IsStable R
    → Respects R m
    → Respects (λ a b. R start a → R start b) m
Respects-from start stable h = record { at = λ db k. stable.both start db _ k (h.at db) }

module _ {p e : Condition} {A : Type 0} {q : A → Condition} where
  pub Spec-if :
      (b : Bool) {m n : Action A}
      → (b ≡ true → Spec p m q e)
      → (b ≡ false → Spec p n q e)
      → Spec p (if b then m else n) q e
  Spec-if true h k = h refl
  Spec-if false h k = k refl

module _ {e : Condition} {A : Type 0} {q : A → Condition} where
  -- What is known of something that is not named.
  pub Spec-some :
      {X : Type 0} {P : X → Condition} {m : Action A}
      → ((x : X) → Spec (P x) m q e)
      → Spec (λ db. (x : X) × P x db) m q e
  Spec-some h = record { at = λ db k. (h k.0).at db k.1 }
