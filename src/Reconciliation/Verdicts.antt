-- ===== src/Reconciliation/Verdicts.antt =====
-- src/reconciliation/reconciliation_service.py: `_evaluate_reconciliation` in terms of the two
-- statuses that it compares.
use billing_recovery_executi.Common.{String, ◌≡◌, ◌≢◌, ◌↔◌, ◌⊎◌, refl, arith, eq_iff, ne_of_test}
use billing_recovery_executi.Reconciliation.{compare_states}
use billing_recovery_executi.Rules.ExecutionRules.{
  provider_succeeded, provider_not_found, provider_unknown, reconciled, succeeded, failed_transient,
  failed_permanent, needs_manual_review, recon_action_mark_reconciled,
  recon_action_route_manual_review, recon_action_no_change,
}

actions_differ :
    (recon_action_mark_reconciled ≢ recon_action_route_manual_review)
    × (recon_action_mark_reconciled ≢ recon_action_no_change)
    × (recon_action_route_manual_review ≢ recon_action_no_change)
actions_differ = (ne_of_test _ _ refl, ne_of_test _ _ refl, ne_of_test _ _ refl)

statuses_differ :
    (succeeded ≢ reconciled)
    × (needs_manual_review ≢ reconciled)
    × (needs_manual_review ≢ failed_transient)
    × (needs_manual_review ≢ failed_permanent)
    × (needs_manual_review ≢ succeeded)
    × (provider_succeeded ≢ provider_not_found)
    × (provider_succeeded ≢ provider_unknown)
    × (provider_not_found ≢ provider_unknown)
    × (failed_transient ≢ succeeded)
    × (failed_permanent ≢ succeeded)
    × (failed_transient ≢ reconciled)
    × (failed_permanent ≢ reconciled)
statuses_differ = (
  ne_of_test _ _ refl,
  ne_of_test _ _ refl,
  ne_of_test _ _ refl,
  ne_of_test _ _ refl,
  ne_of_test _ _ refl,
  ne_of_test _ _ refl,
  ne_of_test _ _ refl,
  ne_of_test _ _ refl,
  ne_of_test _ _ refl,
  ne_of_test _ _ refl,
  ne_of_test _ _ refl,
  ne_of_test _ _ refl,
)

-- The two records disagree about success, or the provider's is unknown, or the request is already
-- in manual review; a failure that the provider confirms is none of these.
abbrev pub IsDoubtful : String → String → Type 0
IsDoubtful internal provider =
    (internal ≢ reconciled)
    × ((internal ≡ succeeded) × (provider ≡ provider_not_found)
        ⊎ (internal ≢ succeeded) × (provider ≡ provider_succeeded)
        ⊎ (provider ≡ provider_unknown)
        ⊎ (internal ≡ needs_manual_review))

-- Reconciliation takes each action exactly in its cases: it marks a request reconciled only where
-- both records show success and it was not reconciled before, it routes to manual review exactly
-- where the records are in doubt, and it changes nothing otherwise.
pub compare_states-action :
    (internal provider : String)
    → ((compare_states internal provider).action_taken ≡ recon_action_mark_reconciled
        ↔ (internal ≡ succeeded) × (provider ≡ provider_succeeded))
      × ((compare_states internal provider).action_taken ≡ recon_action_route_manual_review
          ↔ IsDoubtful internal provider)
      × ((compare_states internal provider).action_taken ≡ recon_action_no_change
          ↔ (¬ IsDoubtful internal provider)
            × ¬ ((internal ≡ succeeded) × (provider ≡ provider_succeeded)))
unfolding compare_states
compare_states-action internal provider = ground (
  arith,
  actions_differ,
  statuses_differ,
  eq_iff internal reconciled,
  eq_iff internal succeeded,
  eq_iff internal failed_transient,
  eq_iff internal failed_permanent,
  eq_iff internal needs_manual_review,
  eq_iff provider provider_succeeded,
  eq_iff provider provider_not_found,
  eq_iff provider provider_unknown,
)
