-- ===== src/Safety/Tables.antt =====
-- The limits on attempts, and the writes to the two tables that keep them.
use mathlib.Core.Path.{subst}
use mathlib.Core.Option.{some-injective}
use billing_recovery_executi.Common.{
  ℕ, ◌+◌, ◌≤◌, ◌<◌, Bool, true, false, String, Option, none, some, List, [], ◌∷◌, ◌++◌, ◌&&◌, ◌==◌,
  ◌≡◌, ◌≢◌, refl, sym, arith, ap, eq_iff, ◌∙◌, Bool-cases, inl, inr, if◌then◌else◌,
}
use billing_recovery_executi.Table.{
  fetch_one, count, update, touched, first, fetch_one-update, fetch_one-append, count-append,
  fetch_one_holds,
}
use billing_recovery_executi.Database.{ExecutionRequest, ExecutionAttempt}
use billing_recovery_executi.Execution.Requests.{has_id, is_of}
use billing_recovery_executi.Rules.ExecutionRules.{
  provider_succeeded, execution_pending, failed_transient,
}

-- An attempt of the request that the provider answered with success.
abbrev pub succeeded_for : String → ExecutionAttempt → Bool
succeeded_for id a = is_of id a && a.provider_status == provider_succeeded

-- The limits for one identifier, given its request, its attempts and those that succeeded.
abbrev pub RequestIsSafe : Option ExecutionRequest → ℕ → ℕ → Type 0
RequestIsSafe none n s = (n ≡ 0) × (s ≡ 0)
RequestIsSafe (some r) n s =
    (n ≤ 3)
    × (s ≤ 1)
    × (s ≤ n)
    × (r.status ≡ execution_pending → n ≡ 0)
    × (r.status ≡ failed_transient → s ≡ 0)

pub record IsSafe (rs : List ExecutionRequest) (ats : List ExecutionAttempt) : Type 0 where
  pub at :
      (id : String)
      → RequestIsSafe
          (fetch_one (has_id id) rs)
          (count (is_of id) ats)
          (count (succeeded_for id) ats)

pub IsSafe-nil : IsSafe [] []
IsSafe-nil = record { at = λ id. (refl, refl) }

same_request :
    (id i : String) (r : ExecutionRequest) → has_id id r ≡ true → has_id i r ≡ true → i ≡ id
same_request id i r h k =
    sym ((eq_iff r.execution_request_id i).0 k) ∙ (eq_iff r.execution_request_id id).0 h

module _ (f : ExecutionRequest → ExecutionRequest) (st : String) where
  touched-IsSafe :
      (id i : String) (o : Option ExecutionRequest) (n s : ℕ)
      → RequestIsSafe o n s
      → ((r : ExecutionRequest) → (f r).status ≡ st)
      → ((r : ExecutionRequest)
          → o ≡ some r
          → has_id i r ≡ true
          → (st ≡ execution_pending → n ≡ 0) × (st ≡ failed_transient → s ≡ 0))
      → RequestIsSafe (touched (has_id i) f o) n s
  touched-IsSafe id i none n s h k l = h
  touched-IsSafe id i (some r) n s h k l = elim (Bool-cases (has_id i r)) [
    | inl e ↦ rw e (ground (arith, k r, l r refl e))
    | inr e ↦ rw e h
  ]

  -- A change of the status of one request, where it allows for the request's attempts.
  pub update-IsSafe :
      (i : String) (rs : List ExecutionRequest) (ats : List ExecutionAttempt)
      → IsSafe rs ats
      → ((r : ExecutionRequest) → (f r).execution_request_id ≡ r.execution_request_id)
      → ((r : ExecutionRequest) → (f r).status ≡ st)
      → (st ≡ execution_pending → count (is_of i) ats ≡ 0)
      → (st ≡ failed_transient → count (succeeded_for i) ats ≡ 0)
      → IsSafe (update (has_id i) f rs) ats
  update-IsSafe i rs ats h same k hp ht = record {
    at = λ id. rw (fetch_one-update (has_id id) (has_id i) f rs (λ r. ap (λ j. j == id) (same r))) (
        touched-IsSafe id i (fetch_one (has_id id) rs) (count (is_of id) ats)
          (count (succeeded_for id) ats) (h.at id) k
          (λ r e m.
            let same_id : i ≡ id = same_request id i r (fetch_one_holds (has_id id) rs r e) m in
            (
              λ x. subst (λ j. count (is_of j) ats ≡ 0) same_id (hp x),
              λ x. subst (λ j. count (succeeded_for j) ats ≡ 0) same_id (ht x),
            )));
  }

-- A new request has no attempts, since its identifier is free.
pub add_request-IsSafe :
    (rs : List ExecutionRequest) (ats : List ExecutionAttempt) (r : ExecutionRequest)
    → IsSafe rs ats
    → fetch_one (has_id r.execution_request_id) rs ≡ none
    → IsSafe (rs ++ r ∷ []) ats
add_request-IsSafe rs ats r h free = record {
  at = λ id. rw (fetch_one-append (has_id id) rs r) (elim (Bool-cases (has_id id r)) [
    | inl e ↦ rw e (
        added id
          (subst (λ i. fetch_one (has_id i) rs ≡ none) ((eq_iff r.execution_request_id id).0 e)
            free)
          (h.at id))
    | inr e ↦ rw e (kept (fetch_one (has_id id) rs) _ _ (h.at id))
  ]);
}
  where
    kept :
        (o : Option ExecutionRequest) (n s : ℕ)
        → RequestIsSafe o n s
        → RequestIsSafe (first o none) n s
    kept none n s k = k
    kept (some q) n s k = k

    added_to :
        (o : Option ExecutionRequest) (n s : ℕ)
        → o ≡ none
        → RequestIsSafe o n s
        → RequestIsSafe (first o (some r)) n s
    added_to none n s e k = ground arith
    added_to (some q) n s e k = cc

    added :
        (id : String)
        → fetch_one (has_id id) rs ≡ none
        → RequestIsSafe
            (fetch_one (has_id id) rs)
            (count (is_of id) ats)
            (count (succeeded_for id) ats)
        → RequestIsSafe
            (first (fetch_one (has_id id) rs) (some r))
            (count (is_of id) ats)
            (count (succeeded_for id) ats)
    added id e k = added_to (fetch_one (has_id id) rs) _ _ e k

-- What an attempt needs: a request that is in progress, fewer than three attempts, none of which
-- succeeded.
pub record IsOpen (o : Option ExecutionRequest) (n s : ℕ) : Type 0 where
  pub row : ExecutionRequest
  pub is_there : o ≡ some row
  pub not_pending : row.status ≢ execution_pending
  pub not_transient : row.status ≢ failed_transient
  pub room : n < 3
  pub unpaid : s ≡ 0

grown :
    (o : Option ExecutionRequest) (n s : ℕ) (b c : Bool)
    → RequestIsSafe o n s
    → (b ≡ true → IsOpen o n s)
    → RequestIsSafe o (n + (if b then 1 else 0)) (s + (if b && c then 1 else 0))
grown none n s true c h k = absurd (cc (k refl).is_there)
grown none n s false c h k = ground arith
grown (some r) n s false c h k = ground arith
grown (some r) n s true c h k = opened (k refl)
  where
    opened : IsOpen (some r) n s → RequestIsSafe (some r) (n + 1) (s + (if c then 1 else 0))
    opened w =
        let e : r ≡ w.row = some-injective r w.row w.is_there in
        let np : r.status ≢ execution_pending =
          subst (λ q. q.status ≢ execution_pending) (sym e) w.not_pending in
        let nt : r.status ≢ failed_transient =
          subst (λ q. q.status ≢ failed_transient) (sym e) w.not_transient in
        (
          omega (arith, w.room),
          ground (arith, w.unpaid),
          ground (arith, w.unpaid),
          (λ x. absurd (np x)),
          (λ x. absurd (nt x)),
        )

-- One more attempt of the request `i`.
pub add_attempt-IsSafe :
    (i : String) (rs : List ExecutionRequest) (ats : List ExecutionAttempt) (a : ExecutionAttempt)
    → IsSafe rs ats
    → a.execution_request_id ≡ i
    → IsOpen (fetch_one (has_id i) rs) (count (is_of i) ats) (count (succeeded_for i) ats)
    → IsSafe rs (ats ++ a ∷ [])
add_attempt-IsSafe i rs ats a h of_i w = record {
  at = λ id. rw (count-append (is_of id) ats a) (
      rw (count-append (succeeded_for id) ats a) (
        grown (fetch_one (has_id id) rs) (count (is_of id) ats) (count (succeeded_for id) ats)
          (is_of id a) (a.provider_status == provider_succeeded) (h.at id)
          (λ e.
            subst
              (λ j.
                IsOpen (fetch_one (has_id j) rs) (count (is_of j) ats)
                  (count (succeeded_for j) ats))
              (sym of_i ∙ (eq_iff a.execution_request_id id).0 e) w)));
}
