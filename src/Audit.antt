-- ===== src/Audit.antt =====
-- src/audit/audit_service.py: the audit trail.
use billing_recovery_executi.Common.{String, Option, [], ◌∷◌, ◌++◌, ◌==◌, Bool}
use billing_recovery_executi.Table.{exists}
use billing_recovery_executi.Database.{
  Json, Database, AuditEvent, Env, Action, pure, insert, draw_uuid8, now, ◌>>=◌, ◌>>◌,
}
use billing_recovery_executi.Common.{fstring}

abbrev pub has_event : String → Database → Bool
has_event event_id db = exists (λ e. e.event_id == event_id) db.audit_events

abbrev pub add_event : AuditEvent → Database → Database
add_event e db = record db { audit_events = db.audit_events ++ e ∷ [] }

module _ (env : Env) where
  -- The dictionary that is returned is the row without its time.
  unfoldable pub record_audit_event :
      (case_id : Option String) (entity_type entity_id event_type actor_type actor_name : String)
      → Json
      → Action AuditEvent
  record_audit_event case_id entity_type entity_id event_type actor_type actor_name details = do
    uuid ← draw_uuid8 env
    let event_id = fstring ("AUD-" ∷ uuid ∷ [])
    created_at ← now env
    let event : AuditEvent = record {
      event_id = event_id;
      case_id = case_id;
      entity_type = entity_type;
      entity_id = entity_id;
      event_type = event_type;
      actor_type = actor_type;
      actor_name = actor_name;
      details = details;
      created_at = created_at;
    }
    insert "audit_events.event_id" (has_event event_id) (add_event event)
    pure event
