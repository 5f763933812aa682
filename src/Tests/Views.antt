-- ===== src/Tests/Views.antt =====
-- The theorems on briefs, histories, metrics, modes and seeding, at concrete inputs.
use billing_recovery_executi.Common.{
  String, inl, inr, ◌⊎◌, ◌≡◌, ◌≢◌, ne_of_test, ◌++◌, refl, some, none, true, false, List, [], ◌∷◌,
  arith,
}
use billing_recovery_executi.Table.{SameRows, column, count}
use billing_recovery_executi.Database.{
  Database, BillingCase, ReconciliationRun, AiCaseBrief, Result, Error, ok, err, pure, gets,
  raise_if, modify, now, ◌>>=◌,
}
use billing_recovery_executi.Briefs.Service.{
  bound_texts, are_encodable, generate_and_store_case_brief,
}
use billing_recovery_executi.Briefs.Advice.{IsAdvice, generate_and_store_case_brief-IsAdvice}
use billing_recovery_executi.Briefs.Totality.{IsBriefOf, generate_and_store_case_brief-returns}
use billing_recovery_executi.History.{get_all_cases}
use billing_recovery_executi.Metrics.Queues.{
  NeedsAttention, Unreconciled, get_needs_attention_queue, get_unreconciled_execution_queue,
}
use billing_recovery_executi.Metrics.Counts.{
  StatusCount, get_execution_status_counts, get_case_status_counts,
}
use billing_recovery_executi.Metrics.Orders.{IsQueue, get_all_cases-IsQueue}
use billing_recovery_executi.Metrics.Groups.{IsTally, get_status_counts-IsTally}
use billing_recovery_executi.Metrics.Attention.{
  shows, recoverable, get_needs_attention_queue-recoverable, lists, is_unreconciled,
  get_unreconciled_execution_queue-lists,
}
use billing_recovery_executi.Rules.ExecutionRules.{manual_action_reopen_for_investigation}
use billing_recovery_executi.Ui.StatusHelpers.{guidance_of_status, unknown_status_guidance}
use billing_recovery_executi.Ui.Guidance.{guidance_of_status-listed}
use billing_recovery_executi.Dependencies.{
  Session, lookup, openai_mode_session_key, stripe_mode_session_key, get_stripe_mode,
  get_openai_mode, set_stripe_mode, set_openai_mode, is_stripe_live, is_openai_live,
  is_stripe_forced_mock, is_openai_forced_mock,
}
use billing_recovery_executi.Dependencies.Laws.{chosen, get_mode-set_mode, is_live_chosen}
use billing_recovery_executi.Rules.DependencyModes.{dependency_mode_live}
use billing_recovery_executi.Seed.{insert_cases, seed_database}
use billing_recovery_executi.Seed.Laws.{
  HasUniqueIds, seed_database-HasUniqueIds, seed_database-seed_database,
}
use billing_recovery_executi.Tests.Inputs.{demo, fresh, duplicate_charge, with_request}
use billing_recovery_executi.Tests.Sorter.{by_insertion}

generate_and_store_case_brief-IsAdvice_example :
    IsAdvice fresh (generate_and_store_case_brief demo duplicate_charge "live" fresh).1
generate_and_store_case_brief-IsAdvice_example =
    generate_and_store_case_brief-IsAdvice demo duplicate_charge "live" fresh

abbrev made : Result AiCaseBrief × Database
made = generate_and_store_case_brief demo duplicate_charge "live" fresh

generate_and_store_case_brief-returns_example :
    (b : AiCaseBrief) × IsBriefOf demo duplicate_charge "live" b
    × ((are_encodable demo (bound_texts b) ≡ true)
          × (made.0 ≡ ok b)
          × (made.1.ai_case_briefs ≡ fresh.ai_case_briefs ++ b ∷ [])
        ⊎ (are_encodable demo (bound_texts b) ≡ false)
          × ((x : Error) × (made.0 ≡ err x))
          × (made.1.ai_case_briefs ≡ fresh.ai_case_briefs))
generate_and_store_case_brief-returns_example =
    generate_and_store_case_brief-returns demo duplicate_charge "live" fresh
      (record { briefs = λ t h. refl; events = λ t h. refl })

abbrev failed : Database
failed = with_request "failed_transient"

get_all_cases-IsQueue_example :
    ((rows : List BillingCase) × (get_all_cases by_insertion failed ≡ (ok rows, failed))
      × SameRows rows failed.billing_cases
      × IsQueue (λ c. c.priority) (λ c. c.created_at) rows)
    × ((rows : List NeedsAttention) × (get_needs_attention_queue by_insertion failed
          ≡ (ok rows, failed))
        × IsQueue (λ q. q.priority) (λ q. q.updated_at) rows)
get_all_cases-IsQueue_example = get_all_cases-IsQueue by_insertion failed

get_needs_attention_queue-recoverable_example :
    (rows : List NeedsAttention) × (get_needs_attention_queue by_insertion failed
      ≡ (ok rows, failed))
    × (count (shows "EXE-1") rows ≡ count (recoverable "EXE-1") failed.execution_requests)
get_needs_attention_queue-recoverable_example =
    get_needs_attention_queue-recoverable by_insertion failed "EXE-1" (refl, tt)

-- A reconciliation of a request, with its result.
abbrev reconciliation : String → String → String → ReconciliationRun
reconciliation run_id id result = record {
  reconciliation_id = run_id;
  execution_request_id = id;
  internal_status = "failed_transient";
  provider_status = "failed";
  provider_object_id = none;
  result = result;
  mismatch_reason = none;
  action_taken = "no_change";
  created_at = 0;
}

-- A request that was not ready, and another one that matched.
abbrev reviewed : Database
reviewed = record failed {
  reconciliation_runs =
      reconciliation "REC-1" "EXE-1" "not_ready_for_reconciliation"
      ∷ reconciliation "REC-2" "EXE-2" "matched_failure"
      ∷ [];
}

get_unreconciled_execution_queue-lists_example :
    (rows : List Unreconciled) × (get_unreconciled_execution_queue by_insertion reviewed
      ≡ (ok rows, reviewed))
    × (count (lists "EXE-1") rows
        ≡ count (is_unreconciled "EXE-1" reviewed.reconciliation_runs) reviewed.execution_requests)
get_unreconciled_execution_queue-lists_example =
    get_unreconciled_execution_queue-lists by_insertion reviewed "EXE-1" (refl, tt)
      (inl refl, (inr (inr (inl refl)), tt))

get_status_counts-IsTally_example :
    ((groups : List StatusCount) × (get_execution_status_counts by_insertion failed
        ≡ (ok groups, failed))
      × IsTally groups (column (λ r. r.status) failed.execution_requests))
    × ((groups : List StatusCount) × (get_case_status_counts by_insertion failed
          ≡ (ok groups, failed))
        × IsTally groups (column (λ c. c.status) failed.billing_cases))
get_status_counts-IsTally_example = get_status_counts-IsTally by_insertion failed

guidance_of_status-listed_example :
    (guidance_of_status "failed_transient" ≢ guidance_of_status "failed_permanent")
    × (guidance_of_status "failed_transient" ≢ unknown_status_guidance)
    × (guidance_of_status manual_action_reopen_for_investigation ≡ unknown_status_guidance)
guidance_of_status-listed_example =
    guidance_of_status-listed "failed_transient" "failed_permanent" refl refl
      (ne_of_test "failed_transient" "failed_permanent" refl)

abbrev untouched : Session
untouched = []

get_mode-set_mode_example :
    ((get_stripe_mode (set_stripe_mode "live" untouched)).0 ≡ some "live")
    × ((get_openai_mode (set_openai_mode "live" untouched)).0 ≡ some "live")
    × ((get_openai_mode (set_stripe_mode "live" untouched)).0 ≡ (get_openai_mode untouched).0)
    × ((get_stripe_mode (set_openai_mode "live" untouched)).0 ≡ (get_stripe_mode untouched).0)
    × ((get_stripe_mode (get_openai_mode untouched).1).0 ≡ (get_stripe_mode untouched).0)
    × ((get_openai_mode (get_stripe_mode untouched).1).0 ≡ (get_openai_mode untouched).0)
    × ((get_stripe_mode untouched).0 ≡ some (chosen (lookup stripe_mode_session_key untouched)))
    × ((get_openai_mode untouched).0 ≡ some (chosen (lookup openai_mode_session_key untouched)))
get_mode-set_mode_example = get_mode-set_mode "live" untouched

abbrev live : Session
live = (stripe_mode_session_key, "live") ∷ []

is_live_chosen_example :
    ((is_stripe_live live).0 ≡ some true
      → lookup stripe_mode_session_key live ≡ some dependency_mode_live)
    × ((is_openai_live live).0 ≡ some true
        → lookup openai_mode_session_key live ≡ some dependency_mode_live)
    × ((is_stripe_live live).0 ≡ some true → (is_stripe_forced_mock live).0 ≡ some false)
    × ((is_openai_live live).0 ≡ some true → (is_openai_forced_mock live).0 ≡ some false)
is_live_chosen_example = is_live_chosen live

abbrev blank : Database
blank = record fresh { billing_cases = [] }

seed_database-HasUniqueIds_example :
    HasUniqueIds (seed_database demo (duplicate_charge ∷ []) blank).1.billing_cases
seed_database-HasUniqueIds_example =
    seed_database-HasUniqueIds demo (duplicate_charge ∷ []) blank
      (record { at = λ id. omega arith })

abbrev seeded : Database
seeded = (seed_database demo (duplicate_charge ∷ []) blank).1

seeds : seed_database demo (duplicate_charge ∷ []) blank ≡ (ok tt, seeded)
unfolding seed_database insert_cases pure gets raise_if modify now ◌>>=◌ demo
seeds = refl

seed_database-seed_database_example : seed_database demo [] seeded ≡ (ok tt, seeded)
seed_database-seed_database_example =
    seed_database-seed_database demo demo (duplicate_charge ∷ []) [] blank seeded (omega arith)
      seeds
