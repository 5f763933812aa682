-- ===== src/Safety/Triple.antt =====
-- Conditions on the tables of execution requests and attempts before an action and after it.
use mathlib.Core.Path.{subst₂}
use billing_recovery_executi.Common.{
  Bool, true, false, String, Option, none, some, List, ◌≡◌, refl, sym, ◌∙◌, if◌then◌else◌,
}
use billing_recovery_executi.Database.{
  Database, ExecutionRequest, ExecutionAttempt, Action, Result, ok, err, Error, pure, raise, gets,
  row, raise_if, insert, insert_if_free, modify, continue, ◌>>=◌,
}
use billing_recovery_executi.Effects.Respects.{Relation, Respects, IsStable}
use billing_recovery_executi.Effects.Frame.{Frame}

abbrev pub Requests : Type 0
Requests = List ExecutionRequest

abbrev pub Attempts : Type 0
Attempts = List ExecutionAttempt

abbrev pub Condition : Type 1
Condition = Requests → Attempts → Type 0

abbrev pub Outcome : {A : Type 0} → (A → Condition) → Condition → Result A → Condition
Outcome q e (ok a) rs ats = q a rs ats
Outcome q e (err x) rs ats = e rs ats

-- From a database where `p` holds, `m` returns to one where `q` holds or raises to one where `e` does.
pub record Triple {A : Type 0} (p : Condition) (m : Action A) (q : A → Condition) (e : Condition)
    : Type 0 where
  pub at :
      (db : Database)
      → p db.execution_requests db.execution_attempts
      → Outcome q e (m db).0 (m db).1.execution_requests (m db).1.execution_attempts

-- Neither table has changed.
abbrev pub Quiet : Relation
Quiet a b =
    (b.execution_requests ≡ a.execution_requests) × (b.execution_attempts ≡ a.execution_attempts)

module _ {p e : Condition} where
  pub Triple-pure :
      {A : Type 0} {q : A → Condition} (a : A)
      → ((rs : Requests) (ats : Attempts) → p rs ats → q a rs ats)
      → Triple p (pure a) q e
  unfolding pure
  Triple-pure a h = record { at = λ db. h db.execution_requests db.execution_attempts }

module _ {A B : Type 0} (q : A → Condition) (q' : B → Condition) (e : Condition) where
  continue_at :
      (r : Result A) (f : A → Action B) (db : Database)
      → Outcome q e r db.execution_requests db.execution_attempts
      → ((a : A) → Triple (q a) (f a) q' e)
      → Outcome q' e
          (continue r f db).0
          (continue r f db).1.execution_requests
          (continue r f db).1.execution_attempts
  continue_at (ok a) f db h k = (k a).at db h
  continue_at (err x) f db h k = h

module _ {p e : Condition} {A B : Type 0} {q : A → Condition} {q' : B → Condition} where
  pub Triple-bind :
      (m : Action A) (f : A → Action B)
      → Triple p m q e
      → ((a : A) → Triple (q a) (f a) q' e)
      → Triple p (m >>= f) q' e
  unfolding ◌>>=◌
  Triple-bind m f hm hf = record {
    at = λ db h. let (r, db') = m db in continue_at q q' e r f db' (hm.at db h) hf;
  }

module _ {p e : Condition} (weaken : (rs : Requests) (ats : Attempts) → p rs ats → e rs ats) where
  quiet_at :
      {A : Type 0} (r : Result A) (rs rs' : Requests) (ats ats' : Attempts)
      → rs' ≡ rs
      → ats' ≡ ats
      → p rs ats
      → Outcome (λ _. p) e r rs' ats'
  quiet_at (ok a) rs rs' ats ats' x y h = subst₂ p (sym x) (sym y) h
  quiet_at (err z) rs rs' ats ats' x y h = subst₂ e (sym x) (sym y) (weaken rs ats h)

  pub Triple-quiet : {A : Type 0} {m : Action A} → Respects Quiet m → Triple p m (λ _. p) e
  Triple-quiet {m = m} h = record {
    at = λ db k.
        quiet_at (m db).0 db.execution_requests (m db).1.execution_requests db.execution_attempts
          (m db).1.execution_attempts (h.at db).0 (h.at db).1 k;
  }

  pub Triple-gets :
      {A : Type 0} (f : Requests → Attempts → A)
      → Triple p
          (gets (λ db. f db.execution_requests db.execution_attempts))
          (λ a rs ats. p rs ats × (a ≡ f rs ats))
          e
  unfolding gets
  Triple-gets f = record { at = λ db h. (h, refl) }

  pub Triple-row :
      {A : Type 0} (o : Option A) → Triple p (row o) (λ a rs ats. p rs ats × (o ≡ some a)) e
  unfolding row raise pure
  Triple-row none = record { at = λ db h. weaken db.execution_requests db.execution_attempts h }
  Triple-row (some a) = record { at = λ db h. (h, refl) }

  pub Triple-raise_if :
      (b : Bool) (x : Error) → Triple p (raise_if b x) (λ _ rs ats. p rs ats × (b ≡ false)) e
  unfolding raise_if
  Triple-raise_if true x = record {
    at = λ db h. weaken db.execution_requests db.execution_attempts h;
  }
  Triple-raise_if false x = record { at = λ db h. (h, refl) }

  insert_triple_at :
      (q : Condition) (taken : Bool) (column : String) (add : Database → Database) (db : Database)
      → p db.execution_requests db.execution_attempts
      → q (add db).execution_requests (add db).execution_attempts
      → Outcome
          (λ _. q)
          e
          (insert_if_free taken column add db).0
          (insert_if_free taken column add db).1.execution_requests
          (insert_if_free taken column add db).1.execution_attempts
  unfolding insert_if_free
  insert_triple_at q true column add db h k = weaken db.execution_requests db.execution_attempts h
  insert_triple_at q false column add db h k = k

  pub Triple-insert :
      {q : Condition} (column : String) (clash : Database → Bool) (add : Database → Database)
      → ((db : Database)
          → p db.execution_requests db.execution_attempts
          → q (add db).execution_requests (add db).execution_attempts)
      → Triple p (insert column clash add) (λ _. q) e
  unfolding insert
  Triple-insert {q = q} column clash add h = record {
    at = λ db k. insert_triple_at q (clash db) column add db k (h db k);
  }

module _ {p q e : Condition} where
  pub Triple-modify :
      (f : Database → Database)
      → ((db : Database)
          → p db.execution_requests db.execution_attempts
          → q (f db).execution_requests (f db).execution_attempts)
      → Triple p (modify f) (λ _. q) e
  unfolding modify
  Triple-modify f h = record { at = h }

module _ {p p' e : Condition} where
  pub Triple-pre :
      {A : Type 0} {m : Action A} {q : A → Condition}
      → ((rs : Requests) (ats : Attempts) → p rs ats → p' rs ats)
      → Triple p' m q e
      → Triple p m q e
  Triple-pre h t = record { at = λ db k. t.at db (h db.execution_requests db.execution_attempts k) }

module _ {p e : Condition} {A : Type 0} {q : A → Condition} where
  -- What is known whatever the tables are is known while the action runs.
  pub Triple-fact :
      {P : Type 0} {m : Action A} → (P → Triple p m q e) → Triple (λ rs ats. p rs ats × P) m q e
  Triple-fact h = record { at = λ db k. (h k.1).at db k.0 }

  pub Triple-post :
      {q' : A → Condition} (m : Action A)
      → Triple p m q' e
      → ((a : A) (rs : Requests) (ats : Attempts) → q' a rs ats → q a rs ats)
      → Triple p m q e
  Triple-post {q' = q'} m t h = record {
    at = λ db k.
        post_at (m db).0 (m db).1.execution_requests (m db).1.execution_attempts (t.at db k);
  }
    where
      post_at :
          (r : Result A) (rs : Requests) (ats : Attempts)
          → Outcome q' e r rs ats
          → Outcome q e r rs ats
      post_at (ok a) rs ats x = h a rs ats x
      post_at (err z) rs ats x = x

same : (db : Database) → Quiet db db
same db = (refl, refl)

pub Quiet-IsStable : IsStable Quiet
Quiet-IsStable = record { same = same; both = λ a b c h k. (k.0 ∙ h.0, k.1 ∙ h.1); ticks = same }

pub Quiet-Frame : Frame Quiet
Quiet-Frame = record {
  stable = Quiet-IsStable;
  cases = λ i s t db. same db;
  evaluations = λ e db h. same db;
  payments = λ p db h. same db;
  runs = λ r db h. same db;
  actions = λ a db h. same db;
  briefs = λ b db h. same db;
  events = λ e db h. same db;
}

drop_value :
    {A : Type 0} (q : Condition) (w : A → Type 0) (e : Condition) (r : Result A) (rs : Requests)
    (ats : Attempts)
    → Outcome (λ a rs ats. q rs ats × w a) e r rs ats
    → Outcome (λ _. q) e r rs ats
drop_value q w e (ok a) rs ats h = h.0
drop_value q w e (err x) rs ats h = h

-- The condition on the value is forgotten.
pub Triple-drop :
    {p q e : Condition} {A : Type 0} {w : A → Type 0} (m : Action A)
    → Triple p m (λ a rs ats. q rs ats × w a) e
    → Triple p m (λ _. q) e
Triple-drop {q = q} {e = e} {w = w} m t = record {
  at = λ db h. drop_value q w e (m db).0 _ _ (t.at db h);
}

module _ {p e : Condition} {A : Type 0} {q : A → Condition} where
  pub Triple-if :
      (b : Bool) {m n : Action A}
      → (b ≡ true → Triple p m q e)
      → (b ≡ false → Triple p n q e)
      → Triple p (if b then m else n) q e
  Triple-if true h k = h refl
  Triple-if false h k = k refl

outcome_same :
    {A : Type 0} (p : Condition) (r : Result A) (rs : Requests) (ats : Attempts)
    → Outcome (λ _. p) p r rs ats
    → p rs ats
outcome_same p (ok a) rs ats h = h
outcome_same p (err e) rs ats h = h

-- A condition that is kept on every path is a relation that is respected.
pub Respects-of_Triple :
    {A : Type 0} (p : Condition) (m : Action A)
    → Triple p m (λ _. p) p
    → Respects
        (λ a b.
          p a.execution_requests a.execution_attempts → p b.execution_requests b.execution_attempts)
        m
Respects-of_Triple p m t = record { at = λ db h. outcome_same p (m db).0 _ _ (t.at db h) }
