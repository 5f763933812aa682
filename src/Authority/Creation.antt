-- ===== src/Authority/Creation.antt =====
-- src/execution/execution_service.py: what `create_execution_request` knows where it adds a row.
use mathlib.Core.Option.{none-ne-some}
use billing_recovery_executi.Common.{
  Bool, true, false, not, String, Option, none, some, List, [], ◌∷◌, ◌≡◌, refl, sym, ◌∙◌, arith,
  eq_iff, ◌==◌,
}
use billing_recovery_executi.Table.{select, count, get_elem?, column, select_of_none}
use billing_recovery_executi.Database.{
  Json, Database, BillingCase, Approval, ExecutionRequest, Env, PicksLatest, pure, row, ◌>>=◌, ◌>>◌,
}
use billing_recovery_executi.Audit.{record_audit_event}
use billing_recovery_executi.Cases.{update_case_status}
use billing_recovery_executi.Approvals.{latest_approval, get_latest_approval}
use billing_recovery_executi.Execution.Idempotency.{generate_idempotency_key}
use billing_recovery_executi.Execution.Requests.{
  latest_request, get_execution_request_by_approval_id, get_execution_request_by_id,
}
use billing_recovery_executi.Execution.Creation.{
  takes_key, add_request, approved_decision, create_request, keep_or_create,
  create_execution_request,
}
use billing_recovery_executi.Rules.ApprovalRules.{approved}
use billing_recovery_executi.Rules.ExecutionRules.{execution_pending, case_status_execution_pending}
use billing_recovery_executi.Effects.Respects.{Relation, Respects, respects_rules}
use billing_recovery_executi.Effects.Frame.{
  Frame, record_audit_event-Respects, update_case_status-Respects,
}
use billing_recovery_executi.Effects.Spec.{
  Condition, Spec, Spec-bind, Spec-keeps, Spec-gets, Spec-raise, Spec-raise_if, Spec-insert,
  Spec-pure, Spec-draw_uuid8, Spec-now, Respects-of_Spec, Respects-from,
}
use billing_recovery_executi.Table.{IsRow, IsRow-select, get_elem?-column}

-- A stored approval, with the decision approved, whose case, action and amount the request has, and
-- from which its idempotency key is made.
pub record IsCovered (approvals : List Approval) (r : ExecutionRequest) : Type 0 where
  pub approval : Approval
  pub is_row : IsRow approval approvals
  pub is_approved : approval.decision ≡ approved
  pub same_approval : r.approval_id ≡ approval.approval_id
  pub same_case : r.case_id ≡ approval.case_id
  pub same_action : r.operation_type ≡ approval.approved_action
  pub same_amount : r.approved_amount_cents ≡ approval.approved_amount_cents
  pub own_key :
      r.idempotency_key
      ≡ generate_idempotency_key r.case_id r.approval_id r.operation_type r.approved_amount_cents

abbrev pub claims : String → ExecutionRequest → Bool
claims approval_id r = r.approval_id == approval_id

module _ (env : Env) where
  -- What is known of a request that is added.
  pub record IsGrounded (db : Database) (r : ExecutionRequest) : Type 0 where
    pub key_free : takes_key r db ≡ false
    pub is_pending : r.status ≡ execution_pending
    pub covered : IsCovered db.approvals r
    pub unclaimed : latest_request env (claims r.approval_id) db.execution_requests ≡ none

  abbrev pub AddsGrounded : Relation → Type 0
  AddsGrounded R =
      (r : ExecutionRequest) (db : Database) → IsGrounded db r → R db (add_request r db)

  -- Where no row is picked there is none.
  pub unclaimed-count :
      (picks : PicksLatest env) (p : ExecutionRequest → Bool) (t : List ExecutionRequest)
      → latest_request env p t ≡ none
      → count p t ≡ 0
  unclaimed-count picks p t h = select_of_none p t (go (select p t) h)
    where
      go :
          (rows : List ExecutionRequest)
          → get_elem? rows (env.latest (column (λ r. r.created_at) rows)) ≡ none
          → rows ≡ []
      go [] h = refl
      go (r ∷ rows) h =
          let (t, e, _) = picks.picks (column (λ q. q.created_at) (r ∷ rows)) (λ x. cc) in
          absurd (none-ne-some _ (sym (get_elem?-column (λ q. q.created_at) (r ∷ rows) _ h) ∙ e))

  module _ {R : Relation} (frame : Frame R) (adds : AddsGrounded R) (start : Database) where
    abbrev From : Condition
    From db = R start db

    -- The approval that was read is the latest one of the case, and it approves.
    abbrev Approved : String → Approval → Condition
    Approved case_id a db =
        (From db × (some a ≡ latest_approval env case_id db.approvals))
        × (not (a.decision == approved) ≡ false)

    abbrev Unclaimed : String → Approval → Condition
    Unclaimed case_id a db =
        Approved case_id a db
        × (none ≡ latest_request env (claims a.approval_id) db.execution_requests)

    approved-Spec :
        (case_id : String) (o : Option Approval)
        → Spec
            (λ db. From db × (o ≡ latest_approval env case_id db.approvals))
            (approved_decision env o)
            (Approved case_id)
            From
    unfolding approved_decision
    approved-Spec case_id none = Spec-raise (λ db h. h.0) _
    approved-Spec case_id (some a) =
        Spec-bind _ _ (Spec-raise_if (λ db h. h.0) _ _) λ _. Spec-pure a (λ db h. h)

    ending :
        (case_id request_id : String) (details : Json)
        → Respects {A = ExecutionRequest × Bool} R (do
          update_case_status env case_id case_status_execution_pending
          record_audit_event env
              (some case_id)
              "execution_request"
              request_id
              "execution_request_created"
              "system"
              "execution_service"
              details
          created ← get_execution_request_by_id request_id
          stored ← row created
          pure (stored, true))
    unfolding get_execution_request_by_id
    ending case_id request_id details =
        search
          (
            respects_rules,
            frame.stable,
            update_case_status-Respects env frame,
            record_audit_event-Respects env frame,
          )
          depth 40

    IsCovered-by :
        (case_id : String) (a : Approval) (db : Database) (r : ExecutionRequest)
        → Approved case_id a db
        → r.approval_id ≡ a.approval_id
        → r.case_id ≡ case_id
        → r.operation_type ≡ a.approved_action
        → r.approved_amount_cents ≡ a.approved_amount_cents
        → r.idempotency_key
          ≡ generate_idempotency_key r.case_id r.approval_id r.operation_type
              r.approved_amount_cents
        → IsCovered db.approvals r
    IsCovered-by case_id a db r h i c o am k =
        let (is_row, of_case) =
          IsRow-select (λ x. x.case_id == case_id) db.approvals _ a (sym h.0.1) in
        record {
          approval = a;
          is_row = is_row;
          is_approved = ground (arith, h.1, eq_iff a.decision approved);
          same_approval = i;
          same_case = c ∙ sym ((eq_iff a.case_id case_id).0 of_case);
          same_action = o;
          same_amount = am;
          own_key = k;
        }

    create-Spec :
        (c : BillingCase) (a : Approval)
        → Spec (Unclaimed c.case_id a) (create_request env c a) (λ _. From) From
    unfolding create_request
    create-Spec c a =
        Spec-bind _ _
          (Spec-draw_uuid8 env λ db h.
            (((frame.stable.both start db _ h.0.0.0 (frame.stable.ticks db), h.0.0.1), h.0.1), h.1))
          λ uuid.
            Spec-bind _ _
              (Spec-now env λ db h. (
                ((frame.stable.both start db _ h.0.0.0 (frame.stable.ticks db), h.0.0.1), h.0.1),
                h.1,
              ))
              λ at.
                Spec-bind _ _
                  (Spec-insert (λ db h. h.0.0.0) _ _ _
                    λ db h free. frame.stable.both start db _ h.0.0.0 (
                      adds _ db (record {
                        key_free = free;
                        is_pending = refl;
                        covered = IsCovered-by c.case_id a db _ h.0 refl refl refl refl refl;
                        unclaimed = sym h.1;
                      })))
                  λ _.
                    Spec-keeps (λ db h. h) (Respects-from start frame.stable (ending c.case_id _ _))

    keep_or_create-Spec :
        (c : BillingCase) (a : Approval) (o : Option ExecutionRequest)
        → Spec
            (λ db.
              Approved c.case_id a db
              × (o ≡ latest_request env (claims a.approval_id) db.execution_requests))
            (keep_or_create env c a o)
            (λ _. From)
            From
    unfolding keep_or_create
    keep_or_create-Spec c a none = create-Spec c a
    keep_or_create-Spec c a (some r) = Spec-pure _ (λ db h. h.0.0.0)

  -- Every request that is added is grounded.
  pub create_execution_request-Grounds :
      {R : Relation} (frame : Frame R) (adds : AddsGrounded R) (c : BillingCase)
      → Respects R (create_execution_request env c)
  unfolding create_execution_request get_latest_approval get_execution_request_by_approval_id
  create_execution_request-Grounds frame adds c = Respects-of_Spec frame.stable λ start.
      Spec-bind _ _ (Spec-gets (λ db h. h) (λ db. latest_approval env c.case_id db.approvals)) λ o.
        Spec-bind _ _ (approved-Spec frame adds start c.case_id o) λ a.
          Spec-bind _ _
            (Spec-gets (λ db h. h.0.0)
              (λ db. latest_request env (claims a.approval_id) db.execution_requests))
            λ r. keep_or_create-Spec frame adds start c a r
