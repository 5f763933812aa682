-- ===== src/Lifecycle/Ledger.antt =====
-- The ledger of attempts that src/execution/execution_service.py keeps: how its rows are numbered,
-- and how their status and error fit.
use mathlib.Core.Path.{subst}
use billing_recovery_executi.Common.{
  ℕ, zero, suc, ◌+◌, String, Bool, true, false, List, [], ◌∷◌, ◌++◌, ◌≡◌, refl, sym, ◌∙◌, ap, arith,
  eq_iff, Bool-cases, inl, inr,
}
use billing_recovery_executi.Table.{select, count, column, All, All-append, count-append}
use billing_recovery_executi.Database.{Database, ExecutionAttempt, Env}
use billing_recovery_executi.Execution.Requests.{is_of}
use billing_recovery_executi.Workflow.{Command, run, run_respects}
use billing_recovery_executi.Effects.Respects.{Relation}
use billing_recovery_executi.Effects.Frame.{Frame}
use billing_recovery_executi.Lifecycle.Writes.{Writes, IsClassified, IsRecorded}
use billing_recovery_executi.Lifecycle.Calls.{Calls-of_steps}

-- 1, 2, ..., n
abbrev pub one_to : ℕ → List ℕ
one_to zero = []
one_to (suc n) = one_to n ++ (n + 1) ∷ []

-- The attempts of each request carry the numbers from 1, in the order in which they were added, and
-- the status of each attempt fits the type of its error.
pub record IsLedger (ats : List ExecutionAttempt) : Type 0 where
  pub numbered :
      (id : String)
      → column (λ a. a.attempt_number) (select (is_of id) ats) ≡ one_to (count (is_of id) ats)
  pub classified : All (λ a. IsClassified a.provider_status a.error_type) ats

pub IsLedger-nil : IsLedger []
IsLedger-nil = record { numbered = λ id. refl; classified = tt }

module _ {A B : Type 0} (f : A → B) (p : A → Bool) (a : A) where
  column_of_kept :
      (t : List A)
      → p a ≡ true
      → column f (select p (t ++ a ∷ [])) ≡ column f (select p t) ++ f a ∷ []
  column_of_kept [] h = ground arith
  column_of_kept (b ∷ t) h = ground (arith, column_of_kept t h)

  column_of_dropped :
      (t : List A) → p a ≡ false → column f (select p (t ++ a ∷ [])) ≡ column f (select p t)
  column_of_dropped [] h = ground arith
  column_of_dropped (b ∷ t) h = ground (arith, column_of_dropped t h)

module _ {A : Type 0} (p : A → Bool) (a : A) (t : List A) where
  count_of_kept : p a ≡ true → count p (t ++ a ∷ []) ≡ suc (count p t)
  count_of_kept h = ground (arith, count-append p t a)

  count_of_dropped : p a ≡ false → count p (t ++ a ∷ []) ≡ count p t
  count_of_dropped h = ground (arith, count-append p t a)

one_more :
    (f : ExecutionAttempt → ℕ) (p : ExecutionAttempt → Bool) (t : List ExecutionAttempt)
    (a : ExecutionAttempt)
    → (p a ≡ true → f a ≡ count p t + 1)
    → column f (select p t) ≡ one_to (count p t)
    → column f (select p (t ++ a ∷ [])) ≡ one_to (count p (t ++ a ∷ []))
one_more f p t a h k = elim (Bool-cases (p a)) [
  | inl e ↦
      column_of_kept f p a t e
      ∙ ap (λ c. c ++ f a ∷ []) k
      ∙ ap (λ n. one_to (count p t) ++ n ∷ []) (h e)
      ∙ ap one_to (sym (count_of_kept p a t e))
  | inr e ↦ column_of_dropped f p a t e ∙ k ∙ ap one_to (sym (count_of_dropped p a t e))
]

add_attempt-IsLedger :
    (a : ExecutionAttempt) (db : Database)
    → IsRecorded db a
    → IsLedger db.execution_attempts
    → IsLedger (db.execution_attempts ++ a ∷ [])
add_attempt-IsLedger a db r h = record {
  numbered = λ id.
      one_more (λ x. x.attempt_number) (is_of id) db.execution_attempts a
        (λ e.
          subst (λ j. a.attempt_number ≡ count (is_of j) db.execution_attempts + 1)
            ((eq_iff a.execution_request_id id).0 e) r.numbered)
        (h.numbered id);
  classified = All-append _ db.execution_attempts a h.classified r.classified;
}

abbrev KeepsLedger : Relation
KeepsLedger a b = IsLedger a.execution_attempts → IsLedger b.execution_attempts

KeepsLedger-Frame : Frame KeepsLedger
KeepsLedger-Frame = record {
  stable = record { same = λ db h. h; both = λ a b c h k x. k (h x); ticks = λ db h. h };
  cases = λ i s t db h. h;
  evaluations = λ e db k h. h;
  payments = λ p db k h. h;
  runs = λ r db k h. h;
  actions = λ a db k h. h;
  briefs = λ b db k h. h;
  events = λ e db k h. h;
}

KeepsLedger-Writes : Writes KeepsLedger
KeepsLedger-Writes = record {
  frame = KeepsLedger-Frame;
  moves = λ i s t f db st has m h. h;
  references = λ i reference at db h. h;
  records = λ a db r h. add_attempt-IsLedger a db r h;
}

-- The ledger of attempts is an invariant of the console: if it holds before, it holds after any
-- service calls, in any order and whether they return or raise. The attempts of each request carry
-- the numbers 1, 2, 3 and so on, in the order in which they were made; and an attempt either
-- succeeded, with no error, or did not, with an error that is transient, permanent or unknown.
pub run-IsLedger :
    (env : Env) (cs : List Command) (db : Database)
    → IsLedger db.execution_attempts
    → IsLedger (run env cs db).execution_attempts
run-IsLedger env cs db h =
    run_respects env (Calls-of_steps env KeepsLedger-Writes (λ a d free h. h) (λ r d free p h. h))
      cs db h
