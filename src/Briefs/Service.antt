-- ===== src/Briefs/Service.antt =====
-- src/ai/billing_summary.py: making, storing and reading a brief.
use billing_recovery_executi.Common.{
  String, Bool, true, not, ◌&&◌, Option, none, some, List, [], ◌∷◌, ◌++◌, ◌==◌, text_or,
  if◌then◌else◌, fstring,
}
use billing_recovery_executi.Table.{select, exists, get_elem?, column}
use billing_recovery_executi.Database.{
  text, optional, Database, BillingCase, AiCaseBrief, Env, ApiResult, returned, raised, Answer,
  Action, Error, raise_if, pure, gets, insert, draw_uuid8, now, call_tick, ◌>>=◌, ◌>>◌,
}
use billing_recovery_executi.Audit.{record_audit_event}
use billing_recovery_executi.Rules.DependencyModes.{
  dependency_mode_forced_mock, dependency_mode_live, runtime_result_fallback_used,
  runtime_result_forced_mock_used, runtime_result_live_success,
}
use billing_recovery_executi.Briefs.Payloads.{
  BriefPayload, build_mock_case_brief, build_fallback_case_brief, normalize_brief_payload,
  prompt_of,
}

-- What the branches on the dependency mode set.
pub record BriefSetup : Type 0 where
  pub payload : BriefPayload
  pub runtime_result : String
  pub source : String
  pub error_message : Option String

abbrev pub has_brief : String → Database → Bool
has_brief brief_id db = exists (λ b. b.brief_id == brief_id) db.ai_case_briefs

abbrev pub add_brief : AiCaseBrief → Database → Database
add_brief b db = record db { ai_case_briefs = db.ai_case_briefs ++ b ∷ [] }

abbrev pub error_texts : Option String → List String
error_texts none = []
error_texts (some s) = s ∷ []

-- The texts that the INSERT binds. The lists are bound as json.dumps writes them, in ASCII.
abbrev pub bound_texts : AiCaseBrief → List String
bound_texts b =
    b.brief_id
    ∷ b.case_id
    ∷ b.dependency_mode
    ∷ b.runtime_result
    ∷ b.source
    ∷ b.summary
    ∷ b.customer_impact
    ∷ b.customer_message_draft
    ∷ error_texts b.error_message

unfoldable pub fallback_brief : BillingCase → String → BriefSetup
fallback_brief c message = record {
  payload = build_fallback_case_brief c;
  runtime_result = runtime_result_fallback_used;
  source = "deterministic_fallback";
  error_message = some message;
}

-- The `try` of the live mode.
unfoldable pub live_brief : BillingCase → ApiResult (List (String × Answer)) → BriefSetup
unfolding fallback_brief
live_brief c (returned answer) = record {
  payload = normalize_brief_payload answer c;
  runtime_result = runtime_result_live_success;
  source = "openai";
  error_message = none;
}
live_brief c (raised error) = fallback_brief c error.message

module _ (env : Env) where
  -- sqlite3 can bind all of the texts.
  abbrev pub are_encodable : List String → Bool
  are_encodable [] = true
  are_encodable (s ∷ texts) = env.encodable s && are_encodable texts

  -- `_call_openai_for_case_brief`, up to the normalisation of its answer.
  unfoldable pub call_openai_for_case_brief :
      BillingCase → Action (ApiResult (List (String × Answer)))
  call_openai_for_case_brief c = do
    tick ← call_tick env
    pure (env.openai_respond tick (text_or env.openai_model "gpt-5.5") (prompt_of c))

  -- The branches on the dependency mode.
  unfoldable pub set_up_brief : BillingCase → String → Action BriefSetup
  unfolding fallback_brief live_brief
  set_up_brief c dependency_mode =
      if dependency_mode == dependency_mode_forced_mock
      then pure (record {
        payload = build_mock_case_brief c;
        runtime_result = runtime_result_forced_mock_used;
        source = "forced_mock_ai_brief";
        error_message = none;
      })
      else if dependency_mode == dependency_mode_live
      then (do answer ← call_openai_for_case_brief c; pure (live_brief c answer))
      else pure
          (fallback_brief c (fstring ("Unsupported dependency mode: " ∷ dependency_mode ∷ [])))

  -- The dictionary that is returned is the row without its time.
  unfoldable pub store_case_brief : BillingCase → String → BriefSetup → Action AiCaseBrief
  store_case_brief c dependency_mode setup = do
    uuid ← draw_uuid8 env
    let brief_id = fstring ("AIB-" ∷ uuid ∷ [])
    created_at ← now env
    let brief : AiCaseBrief = record {
      brief_id = brief_id;
      case_id = c.case_id;
      dependency_mode = dependency_mode;
      runtime_result = setup.runtime_result;
      source = setup.source;
      summary = setup.payload.summary;
      customer_impact = setup.payload.customer_impact;
      missing_evidence = setup.payload.missing_evidence;
      risk_notes = setup.payload.risk_notes;
      suggested_reviewer_questions = setup.payload.suggested_reviewer_questions;
      customer_message_draft = setup.payload.customer_message_draft;
      error_message = setup.error_message;
      created_at = created_at;
    }
    raise_if (not (are_encodable (bound_texts brief))) Error.unicode_encode_error
    insert "ai_case_briefs.brief_id" (has_brief brief_id) (add_brief brief)
    pure brief

  unfoldable pub generate_and_store_case_brief : BillingCase → String → Action AiCaseBrief
  generate_and_store_case_brief c dependency_mode = do
    setup ← set_up_brief c dependency_mode
    stored_brief ← store_case_brief c dependency_mode setup
    record_audit_event env (some c.case_id) "ai_case_brief" stored_brief.brief_id
        "ai_case_brief_generated" "system" "ai_billing_summary_service"
        (("dependency_mode", text dependency_mode)
          ∷ ("runtime_result", text setup.runtime_result)
          ∷ ("source", text setup.source)
          ∷ ("error_message", optional setup.error_message)
          ∷ [])
    pure stored_brief

  abbrev pub latest_brief : String → List AiCaseBrief → Option AiCaseBrief
  latest_brief case_id t =
      let rows = select (λ b. b.case_id == case_id) t in
      get_elem? rows (env.latest (column (λ b. b.created_at) rows))

  unfoldable pub get_latest_case_brief : String → Action (Option AiCaseBrief)
  get_latest_case_brief case_id = gets (λ db. latest_brief case_id db.ai_case_briefs)
