-- ===== src/Cases.antt =====
-- src/cases/case_service.py: the billing cases.
use billing_recovery_executi.Common.{ℕ, String, Option, ◌==◌}
use billing_recovery_executi.Table.{fetch_one, update}
use billing_recovery_executi.Database.{Database, BillingCase, Env, Action, gets, modify, now, ◌>>=◌}

unfoldable pub get_case_by_id : String → Action (Option BillingCase)
get_case_by_id case_id = gets (λ db. fetch_one (λ c. c.case_id == case_id) db.billing_cases)

abbrev pub set_case_status : String → String → ℕ → Database → Database
set_case_status case_id status at db = record db {
  billing_cases =
      update (λ c. c.case_id == case_id) (λ c. record c { status = status; updated_at = at })
        db.billing_cases;
}

unfoldable pub update_case_status : Env → String → String → Action (Unit {0})
update_case_status env case_id status = do at ← now env; modify (set_case_status case_id status at)
