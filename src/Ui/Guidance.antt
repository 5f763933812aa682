-- ===== src/Ui/Guidance.antt =====
-- src/ui/status_helpers.py and src/execution/execution_rules.py: which statuses the panels can explain.
use mathlib.Core.Path.{subst}
use billing_recovery_executi.Common.{
  String, Bool, true, not, ◌&&◌, Bool-cases, inl, inr, List, [], ◌∷◌, ◌≡◌, ◌≢◌, refl, sym, ◌∙◌, ap,
  arith, eq_iff, is_in, ◌==◌, if◌then◌else◌,
}
use billing_recovery_executi.Rules.ExecutionRules.{
  execution_request_statuses, manual_action_reopen_for_investigation,
}
use billing_recovery_executi.Ui.StatusHelpers.{guidance_of_status, unknown_status_guidance}

-- The first of the statuses that has this guidance.
explained : List String → String → String
explained [] guidance = "unknown"
explained (s ∷ statuses) guidance =
    let rest = explained statuses guidance in if guidance_of_status s == guidance then s else rest

-- A status is told by its guidance, which is not that of unknown statuses.
is_told : String → Bool
is_told s =
    let guidance = guidance_of_status s in
    explained execution_request_statuses guidance == s && not (guidance == unknown_status_guidance)

every : (String → Bool) → List String → Bool
every p [] = true
every p (s ∷ statuses) = p s && every p statuses

every-is_in :
    (p : String → Bool) (statuses : List String) (s : String)
    → every p statuses ≡ true
    → is_in s statuses ≡ true
    → p s ≡ true
unfolding every
every-is_in p [] s h k = ground arith
every-is_in p (t ∷ statuses) s h k = elim (Bool-cases (s == t)) [
  | inl e ↦ subst (λ u. p u ≡ true) (sym ((eq_iff s t).0 e)) (ground arith)
  | inr e ↦ every-is_in p statuses s (ground arith) (ground arith)
]

all_told : every is_told execution_request_statuses ≡ true
unfolding every is_told explained guidance_of_status
all_told = refl

told :
    (s : String)
    → is_in s execution_request_statuses ≡ true
    → (explained execution_request_statuses (guidance_of_status s) ≡ s)
      × (guidance_of_status s ≢ unknown_status_guidance)
unfolding is_told
told s h =
    let k = every-is_in is_told execution_request_statuses s all_told h in
    ground (
      arith,
      eq_iff (explained execution_request_statuses (guidance_of_status s)) s,
      eq_iff (guidance_of_status s) unknown_status_guidance,
    )

-- Every status of EXECUTION_REQUEST_STATUSES has a guidance of its own: another of them has another,
-- and none has that of unknown statuses. reopen_for_investigation, which manual recovery stores as a
-- status, has only the guidance of unknown statuses.
pub guidance_of_status-listed :
    (s t : String)
    → is_in s execution_request_statuses ≡ true
    → is_in t execution_request_statuses ≡ true
    → s ≢ t
    → (guidance_of_status s ≢ guidance_of_status t)
      × (guidance_of_status s ≢ unknown_status_guidance)
      × (guidance_of_status manual_action_reopen_for_investigation ≡ unknown_status_guidance)
unfolding guidance_of_status
guidance_of_status-listed s t h k differ =
    let (same, known) = told s h in
    let (same', known') = told t k in
    (λ e. differ (sym same ∙ ap (explained execution_request_statuses) e ∙ same'), known, refl)
