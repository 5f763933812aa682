-- ===== src/Briefs/Payloads.antt =====
-- src/ai/billing_summary.py: the prompt, the mock and fallback briefs, and what is kept of an answer.
use billing_recovery_executi.Common.{
  String, Option, none, some, List, [], ◌∷◌, ◌==◌, is_empty, strip, show_ℤ, format_amount, fstring,
  if◌then◌else◌,
}
use billing_recovery_executi.Database.{BillingCase, Answer}

-- The dictionary that a brief is stored from.
pub record BriefPayload : Type 0 where
  pub summary : String
  pub customer_impact : String
  pub missing_evidence : List String
  pub risk_notes : List String
  pub suggested_reviewer_questions : List String
  pub customer_message_draft : String

unfoldable pub build_mock_case_brief : BillingCase → BriefPayload
build_mock_case_brief c = record {
  summary = fstring (
      "Mock brief: " ∷ c.customer_name ∷ " has a billing issue of type " ∷ c.issue_type
      ∷ " for invoice " ∷ c.invoice_id ∷ "." ∷ []);
  customer_impact = fstring (
      "The customer may have been incorrectly charged "
      ∷ format_amount c.amount_cents c.currency
      ∷ ". Reviewer should confirm the billing evidence before approval."
      ∷ []);
  missing_evidence =
      "Provider transaction history" ∷ "Prior correction or credit history"
      ∷ "Contract or pricing source used for comparison" ∷ [];
  risk_notes =
      "Mock AI output is advisory only." ∷ "Policy evaluation must determine approval eligibility."
      ∷ [];
  suggested_reviewer_questions =
      "Has this invoice already received a credit or refund?"
      ∷ "Does the proposed correction match the contract or billing evidence?" ∷ [];
  customer_message_draft =
      "We are reviewing your billing correction request and will confirm once the correction has been verified and approved.";
}

unfoldable pub build_fallback_case_brief : BillingCase → BriefPayload
build_fallback_case_brief c = record {
  summary = fstring (
      "Fallback brief: billing case " ∷ c.case_id ∷ " concerns " ∷ c.issue_type ∷ " for customer "
      ∷ c.customer_name ∷ "." ∷ []);
  customer_impact =
      "The customer may experience delayed correction until the billing evidence is reviewed by an operator.";
  missing_evidence =
      "Confirm invoice state" ∷ "Confirm prior refunds or credits"
      ∷ "Confirm approved correction amount" ∷ [];
  risk_notes =
      "Live OpenAI summary was unavailable or invalid."
      ∷ "Use deterministic policy and human review before any approval or execution." ∷ [];
  suggested_reviewer_questions =
      "Is the correction amount supported by evidence?" ∷ "Is there any duplicate correction risk?"
      ∷ [];
  customer_message_draft =
      "We are reviewing the billing issue and will follow up once verification is complete.";
}

abbrev pub later_or : Option Answer → Option Answer → Option Answer
later_or none here = here
later_or (some v) here = some v

-- `payload.get(key)`, of the last entry of a key, as json.loads keeps it.
abbrev pub get : String → List (String × Answer) → Option Answer
get key [] = none
get key ((k, v) ∷ payload) = later_or (get key payload) (if k == key then some v else none)

-- `str(value or default)`
abbrev pub shown_or : Option Answer → String → String
shown_or none default = default
shown_or (some (Answer.text s)) default = if is_empty s then default else s
shown_or (some (Answer.array [] shown)) default = default
shown_or (some (Answer.array (i ∷ items) shown)) default = shown
shown_or (some (Answer.scalar truth shown)) default = if truth then shown else default

-- The items that `strip` leaves something of.
abbrev pub cleaned : List String → List String
cleaned [] = []
cleaned (s ∷ items) = let rest = cleaned items in if is_empty (strip s) then rest else s ∷ rest

abbrev pub or_fallback : List String → List String → List String
or_fallback [] fallback = fallback
or_fallback (s ∷ items) fallback = s ∷ items

unfoldable pub ensure_string_list : Option Answer → List String → List String
ensure_string_list (some (Answer.array items shown)) fallback = or_fallback (cleaned items) fallback
ensure_string_list (some (Answer.text s)) fallback = fallback
ensure_string_list (some (Answer.scalar truth shown)) fallback = fallback
ensure_string_list none fallback = fallback

unfoldable pub normalize_brief_payload : List (String × Answer) → BillingCase → BriefPayload
unfolding build_fallback_case_brief ensure_string_list
normalize_brief_payload payload c =
    let fallback = build_fallback_case_brief c in
    record {
      summary = shown_or (get "summary" payload) fallback.summary;
      customer_impact = shown_or (get "customer_impact" payload) fallback.customer_impact;
      missing_evidence =
          ensure_string_list (get "missing_evidence" payload) fallback.missing_evidence;
      risk_notes = ensure_string_list (get "risk_notes" payload) fallback.risk_notes;
      suggested_reviewer_questions =
          ensure_string_list (get "suggested_reviewer_questions" payload)
            fallback.suggested_reviewer_questions;
      customer_message_draft =
          shown_or (get "customer_message_draft" payload) fallback.customer_message_draft;
    }

-- `prompt` of `_call_openai_for_case_brief`.
unfoldable pub prompt_of : BillingCase → String
prompt_of c = strip (
    fstring (
      "\nYou are assisting a billing operations reviewer.\n\nCreate a concise advisory case brief. Do not approve, reject, or execute anything.\n\nReturn valid JSON only with these keys:\n- summary: string\n- customer_impact: string\n- missing_evidence: array of strings\n- risk_notes: array of strings\n- suggested_reviewer_questions: array of strings\n- customer_message_draft: string\n\nBilling case:\ncase_id: "
      ∷ c.case_id
      ∷ "\ncustomer_name: "
      ∷ c.customer_name
      ∷ "\ncustomer_id: "
      ∷ c.customer_id
      ∷ "\ninvoice_id: "
      ∷ c.invoice_id
      ∷ "\nissue_type: "
      ∷ c.issue_type
      ∷ "\namount_cents: "
      ∷ show_ℤ c.amount_cents
      ∷ "\ncurrency: "
      ∷ c.currency
      ∷ "\npriority: "
      ∷ c.priority
      ∷ "\nstatus: "
      ∷ c.status
      ∷ "\nevidence_summary: "
      ∷ c.evidence_summary
      ∷ "\nproposed_correction: "
      ∷ c.proposed_correction
      ∷ "\n"
      ∷ []))
