-- ===== src/Briefs/Complete.antt =====
-- src/ai/billing_summary.py: every brief names evidence, risks and questions.
use billing_recovery_executi.Common.{String, Option, none, some, List, [], ◌∷◌, ◌≢◌}
use billing_recovery_executi.Database.{BillingCase, Answer, ApiResult, returned, raised}
use billing_recovery_executi.Briefs.Payloads.{
  BriefPayload, build_mock_case_brief, build_fallback_case_brief, cleaned, or_fallback,
  ensure_string_list, normalize_brief_payload,
}
use billing_recovery_executi.Briefs.Service.{fallback_brief, live_brief}

-- A list holds something.
abbrev IsFilled : List String → Type 0
IsFilled l = l ≢ []

pub record IsComplete (p : BriefPayload) : Type 0 where
  pub evidence : IsFilled p.missing_evidence
  pub risks : IsFilled p.risk_notes
  pub questions : IsFilled p.suggested_reviewer_questions

or_fallback-IsFilled :
    (l fallback : List String) → IsFilled fallback → IsFilled (or_fallback l fallback)
or_fallback-IsFilled [] fallback h = h
or_fallback-IsFilled (s ∷ l) fallback h = λ x. cc

ensure_string_list-IsFilled :
    (o : Option Answer) (fallback : List String)
    → IsFilled fallback
    → IsFilled (ensure_string_list o fallback)
unfolding ensure_string_list
ensure_string_list-IsFilled (some (Answer.array items shown)) fallback h =
    or_fallback-IsFilled (cleaned items) fallback h
ensure_string_list-IsFilled (some (Answer.text s)) fallback h = h
ensure_string_list-IsFilled (some (Answer.scalar truth shown)) fallback h = h
ensure_string_list-IsFilled none fallback h = h

pub build_mock_case_brief-IsComplete : (c : BillingCase) → IsComplete (build_mock_case_brief c)
unfolding build_mock_case_brief
build_mock_case_brief-IsComplete c = record {
  evidence = λ x. cc;
  risks = λ x. cc;
  questions = λ x. cc;
}

pub build_fallback_case_brief-IsComplete :
    (c : BillingCase) → IsComplete (build_fallback_case_brief c)
unfolding build_fallback_case_brief
build_fallback_case_brief-IsComplete c = record {
  evidence = λ x. cc;
  risks = λ x. cc;
  questions = λ x. cc;
}

normalize_brief_payload-IsComplete :
    (payload : List (String × Answer)) (c : BillingCase)
    → IsComplete (normalize_brief_payload payload c)
unfolding normalize_brief_payload
normalize_brief_payload-IsComplete payload c =
    let h = build_fallback_case_brief-IsComplete c in
    record {
      evidence = ensure_string_list-IsFilled _ _ h.evidence;
      risks = ensure_string_list-IsFilled _ _ h.risks;
      questions = ensure_string_list-IsFilled _ _ h.questions;
    }

pub live_brief-IsComplete :
    (c : BillingCase) (answer : ApiResult (List (String × Answer)))
    → IsComplete (live_brief c answer).payload
unfolding live_brief fallback_brief
live_brief-IsComplete c (returned payload) = normalize_brief_payload-IsComplete payload c
live_brief-IsComplete c (raised error) = build_fallback_case_brief-IsComplete c
