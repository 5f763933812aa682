-- ===== src/Briefs/Totality.antt =====
-- src/ai/billing_summary.py: when the making of a brief returns, and with what.
use billing_recovery_executi.Common.{
  ℕ, ◌≤◌, String, Bool, true, false, not, ◌⊎◌, inl, inr, text_or, eq_iff, Option, none, List, [],
  ◌∷◌, ◌++◌, ◌==◌, ◌≡◌, ◌≢◌, refl, ap, arith, fstring,
}
use billing_recovery_executi.Database.{
  Json, Database, BillingCase, AiCaseBrief, Env, ok, err, Error, next_tick,
}
use billing_recovery_executi.Audit.{has_event, record_audit_event}
use billing_recovery_executi.Rules.DependencyModes.{
  dependency_mode_forced_mock, dependency_mode_live,
}
use billing_recovery_executi.Briefs.Payloads.{
  build_mock_case_brief, build_fallback_case_brief, prompt_of,
}
use billing_recovery_executi.Briefs.Service.{
  BriefSetup, bound_texts, are_encodable, has_brief, fallback_brief, live_brief,
  call_openai_for_case_brief, set_up_brief, store_case_brief, generate_and_store_case_brief,
}
use billing_recovery_executi.Effects.Spec.{
  Condition, Spec, Spec-bind, Spec-pure, Spec-now, Spec-if, Spec-fact,
}
use billing_recovery_executi.Effects.Returns.{
  outcomes, Spec-guard, Spec-free, Spec-drawn, Spec-called,
}
use billing_recovery_executi.Briefs.Complete.{
  IsComplete, build_mock_case_brief-IsComplete, build_fallback_case_brief-IsComplete,
  live_brief-IsComplete,
}

appended : {A : Type 0} (t u : List A) (a : A) → t ≡ u → t ++ a ∷ [] ≡ u ++ a ∷ []
appended t u a h = ap (λ l. l ++ a ∷ []) h

abbrev brief_id_of : String → String
brief_id_of uuid = fstring ("AIB-" ∷ uuid ∷ [])

abbrev event_id_of : String → String
event_id_of uuid = fstring ("AUD-" ∷ uuid ∷ [])

-- The identifiers that will be drawn are not taken.
pub record IsUnused (env : Env) (db : Database) : Type 0 where
  pub briefs : (t : ℕ) → db.tick ≤ t → has_brief (brief_id_of (env.uuid8 t)) db ≡ false
  pub events : (t : ℕ) → db.tick ≤ t → has_event (event_id_of (env.uuid8 t)) db ≡ false

module _ (env : Env) (c : BillingCase) (mode : String) where
  -- What a brief is stored from: the mock brief, the live one, where OpenAI answered or raised, or the
  -- fallback brief, by the mode.
  abbrev IsMade : BriefSetup → Type 0
  IsMade s =
      (mode ≡ dependency_mode_forced_mock)
        × (s.payload ≡ build_mock_case_brief c)
        × (s.error_message ≡ none)
      ⊎ (mode ≡ dependency_mode_live)
        × ((t : ℕ) × (s
              ≡ live_brief c
                  (env.openai_respond t (text_or env.openai_model "gpt-5.5") (prompt_of c))))
      ⊎ (mode ≢ dependency_mode_forced_mock)
        × (mode ≢ dependency_mode_live)
        × (s.payload ≡ build_fallback_case_brief c)

  -- What is promised of a brief.
  pub record IsBriefOf (b : AiCaseBrief) : Type 0 where
    pub of_case : b.case_id ≡ c.case_id
    pub of_mode : b.dependency_mode ≡ mode
    pub of_setup :
        (s : BriefSetup) × IsMade s
        × (b.summary ≡ s.payload.summary)
        × (b.customer_impact ≡ s.payload.customer_impact)
        × (b.customer_message_draft ≡ s.payload.customer_message_draft)
        × (b.error_message ≡ s.error_message)
    pub evidence : b.missing_evidence ≢ []
    pub risks : b.risk_notes ≢ []
    pub questions : b.suggested_reviewer_questions ≢ []

module _ (env : Env) (c : BillingCase) (mode : String) (old : List AiCaseBrief) where
  abbrev Before : Condition
  Before db = IsUnused env db × (db.ai_case_briefs ≡ old)

  -- Nothing is stored, since a text of the brief cannot be bound.
  abbrev Refused : Condition
  Refused db =
      (b : AiCaseBrief) × IsBriefOf env c mode b
      × (are_encodable env (bound_texts b) ≡ false)
      × (db.ai_case_briefs ≡ old)

  before_ticks : (db : Database) → Before db → Before (next_tick db)
  before_ticks db h = (
    record {
      briefs = λ t k. h.0.briefs t (omega arith);
      events = λ t k. h.0.events t (omega arith);
    },
    h.1,
  )

  -- A setup that a brief can be stored from.
  abbrev IsReady : BriefSetup → Type 0
  IsReady s = IsComplete s.payload × IsMade env c mode s

  set_up_brief-IsReady :
      Spec Before (set_up_brief env c mode) (λ s db. Before db × IsReady s) Refused
  unfolding set_up_brief call_openai_for_case_brief fallback_brief
  set_up_brief-IsReady =
      Spec-if (mode == dependency_mode_forced_mock)
        (λ forced. Spec-pure _ λ db h.
          (h, (build_mock_case_brief-IsComplete c, inl ((eq_iff _ _).0 forced, refl, refl))))
        (λ unforced.
          Spec-if (mode == dependency_mode_live)
            (λ live.
              Spec-bind
                {q = λ answer db.
                  Before db
                  × ((t : ℕ) × (answer
                        ≡ env.openai_respond t (text_or env.openai_model "gpt-5.5") (prompt_of c)))}
                _ _
                (Spec-bind _ _ (Spec-called env before_ticks)
                  λ tick. Spec-pure _ λ db h. (h, (tick, refl)))
                λ answer. Spec-pure _ λ db h. (
                  h.0,
                  (
                    live_brief-IsComplete c answer,
                    inr (inl ((eq_iff _ _).0 live, (h.1.0, ap (live_brief c) h.1.1))),
                  ),
                ))
            (λ dead. Spec-pure _ λ db h. (
              h,
              (
                build_fallback_case_brief-IsComplete c,
                inr (
                    inr (
                      (λ e. ground (arith, eq_iff mode dependency_mode_forced_mock)),
                      (λ e. ground (arith, eq_iff mode dependency_mode_live)),
                      refl,
                    )),
              ),
            )))

  -- The brief is the last row, and the identifiers of events are unused.
  abbrev Kept : AiCaseBrief → Condition
  Kept b db =
      ((t : ℕ) → db.tick ≤ t → has_event (event_id_of (env.uuid8 t)) db ≡ false)
      × (db.ai_case_briefs ≡ old ++ b ∷ [])

  -- The row that is made of a setup.
  abbrev row_of : BriefSetup → String → ℕ → AiCaseBrief
  row_of s uuid at = record {
    brief_id = brief_id_of uuid;
    case_id = c.case_id;
    dependency_mode = mode;
    runtime_result = s.runtime_result;
    source = s.source;
    summary = s.payload.summary;
    customer_impact = s.payload.customer_impact;
    missing_evidence = s.payload.missing_evidence;
    risk_notes = s.payload.risk_notes;
    suggested_reviewer_questions = s.payload.suggested_reviewer_questions;
    customer_message_draft = s.payload.customer_message_draft;
    error_message = s.error_message;
    created_at = at;
  }

  row_of-IsBriefOf :
      (s : BriefSetup) (uuid : String) (at : ℕ)
      → IsReady s
      → IsBriefOf env c mode (row_of s uuid at)
  row_of-IsBriefOf s uuid at h = record {
    of_case = refl;
    of_mode = refl;
    of_setup = (s, h.1, refl, refl, refl, refl);
    evidence = h.0.evidence;
    risks = h.0.risks;
    questions = h.0.questions;
  }

  -- What is known of a brief that is stored.
  abbrev IsStored : AiCaseBrief → Type 0
  IsStored b = IsBriefOf env c mode b × (are_encodable env (bound_texts b) ≡ true)

  store_case_brief-IsStored :
      (s : BriefSetup)
      → IsReady s
      → Spec Before (store_case_brief env c mode s) (λ b db. Kept b db × IsStored b) Refused
  unfolding store_case_brief
  store_case_brief-IsStored s h =
      Spec-bind _ _
        (Spec-drawn env {q = λ uuid db. Before db × (has_brief (brief_id_of uuid) db ≡ false)}
          λ db k. (before_ticks db k, k.0.briefs db.tick (omega arith)))
        λ uuid. Spec-bind _ _ (Spec-now env λ db k. (before_ticks db k.0, k.1)) λ at.
          Spec-bind _ _
            (Spec-guard _ _ λ db k refused.
              (row_of s uuid at, row_of-IsBriefOf s uuid at h, unencodable _ refused, k.0.1))
            λ _.
              Spec-bind _ _
                (Spec-free
                  {q = λ db.
                    Kept (row_of s uuid at) db
                    × (are_encodable env (bound_texts (row_of s uuid at)) ≡ true)}
                  _ _ _
                  λ db k. (k.0.1, ((k.0.0.0.events, appended _ _ _ k.0.0.1), encodable _ k.1)))
                λ _. Spec-pure _ λ db k. (k.0, (row_of-IsBriefOf s uuid at h, k.1))
    where
      unencodable : (b : Bool) → not b ≡ true → b ≡ false
      unencodable b k = ground arith

      encodable : (b : Bool) → not b ≡ false → b ≡ true
      encodable b k = ground arith

  record_audit_event-Kept :
      (b : AiCaseBrief) (o : Option String) (et ei ev at an : String) (d : Json)
      → Spec
          (Kept b)
          (record_audit_event env o et ei ev at an d)
          (λ _ db. db.ai_case_briefs ≡ old ++ b ∷ [])
          Refused
  unfolding record_audit_event
  record_audit_event-Kept b o et ei ev at an d =
      Spec-bind _ _
        (Spec-drawn env {q = λ uuid db. Kept b db × (has_event (event_id_of uuid) db ≡ false)}
          λ db k. (((λ t l. k.0 t (omega arith)), k.1), k.0 db.tick (omega arith)))
        λ uuid.
          Spec-bind _ _ (Spec-now env λ db k. ((((λ t l. k.0.0 t (omega arith)), k.0.1)), k.1))
            λ time. Spec-bind _ _ (Spec-free _ _ _ λ db k. (k.1, k.0.1)) λ _. Spec-pure _ λ db k. k

  generated :
      Spec Before
        (generate_and_store_case_brief env c mode)
        (λ b db. (db.ai_case_briefs ≡ old ++ b ∷ []) × IsStored b)
        Refused
  unfolding generate_and_store_case_brief
  generated = Spec-bind _ _ set_up_brief-IsReady λ s. Spec-fact λ ready.
      Spec-bind _ _ (store_case_brief-IsStored s ready) λ b. Spec-fact λ stored.
        Spec-bind _ _ (record_audit_event-Kept b _ _ _ _ _ _ _) λ _. Spec-pure b λ db k. (k, stored)

-- Where the identifiers that will be drawn are not taken, a brief is made whatever the dependency mode,
-- and whether OpenAI answers anything or raises: of the case and the mode, with the texts of the mock,
-- the live or the fallback brief, and naming evidence, risks and questions, at least one of each. If
-- sqlite3 can bind all its texts, the call returns it and it is stored after the others; if not, the
-- call raises and no brief is stored. There is no other outcome.
pub generate_and_store_case_brief-returns :
    (env : Env) (c : BillingCase) (mode : String) (db : Database)
    → IsUnused env db
    → (b : AiCaseBrief) × IsBriefOf env c mode b
      × ((are_encodable env (bound_texts b) ≡ true)
            × ((generate_and_store_case_brief env c mode db).0 ≡ ok b)
            × ((generate_and_store_case_brief env c mode db).1.ai_case_briefs
                ≡ db.ai_case_briefs ++ b ∷ [])
          ⊎ (are_encodable env (bound_texts b) ≡ false)
            × ((x : Error) × ((generate_and_store_case_brief env c mode db).0 ≡ err x))
            × ((generate_and_store_case_brief env c mode db).1.ai_case_briefs ≡ db.ai_case_briefs))
generate_and_store_case_brief-returns env c mode db h =
    elim (outcomes
      (λ b db'.
        (db'.ai_case_briefs ≡ db.ai_case_briefs ++ b ∷ [])
        × IsStored env c mode db.ai_case_briefs b)
      (Refused env c mode db.ai_case_briefs) _ _
      ((generated env c mode db.ai_case_briefs).at db (h, refl))) [
        | inl (b, e, p) ↦ (b, p.1.0, inl (p.1.1, e, p.0))
        | inr (x, e, p) ↦ (p.0, p.1, inr (p.2, (x, e), p.3))
      ]
