-- ===== src/Seed.antt =====
-- src/seed.py: the synthetic cases of a first start. The file of cases is a parameter. The rows are
-- committed together, so a case that cannot be inserted leaves the table as it was.
pub mod Laws
use billing_recovery_executi.Common.{ℕ, ltb, Bool, List, [], ◌∷◌, ◌++◌, ◌==◌, if◌then◌else◌}
use billing_recovery_executi.Table.{count, exists}
use billing_recovery_executi.Database.{
  Database, BillingCase, Env, Action, integrity_error, pure, raise_if, gets, modify, now, ◌>>=◌,
  ◌>>◌,
}
use billing_recovery_executi.Common.{true}

abbrev pub has_case : BillingCase → BillingCase → Bool
has_case c row = row.case_id == c.case_id

-- The times of the file's case are those of the INSERT.
abbrev pub at_time : ℕ → BillingCase → BillingCase
at_time at c = record c { created_at = at; updated_at = at }

abbrev pub put_cases : List BillingCase → Database → Database
put_cases rows db = record db { billing_cases = rows }

module _ (env : Env) where
  -- The loop over the cases of the file; `rows` are those inserted so far.
  unfoldable pub insert_cases : List BillingCase → List BillingCase → Action (List BillingCase)
  insert_cases [] rows = pure rows
  insert_cases (c ∷ cases) rows = do
    at ← now env
    raise_if (exists (has_case c) rows) (integrity_error "billing_cases.case_id")
    insert_cases cases (rows ++ at_time at c ∷ [])

  unfoldable pub seed_database : List BillingCase → Action (Unit {0})
  seed_database seed_cases = do
    existing_count ← gets (λ db. count (λ c. true) db.billing_cases)
    if ltb 0 existing_count
        then pure tt
        else (do rows ← insert_cases seed_cases []; modify (put_cases rows))
