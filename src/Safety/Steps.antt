-- ===== src/Safety/Steps.antt =====
-- What an attempt does to the two tables, step by step, and the conditions in between.
use billing_recovery_executi.Common.{
  ◌<◌, true, false, String, Option, none, some, [], ◌∷◌, ◌++◌, ◌==◌, ◌≡◌, ◌≢◌, refl, sym, ◌∙◌,
  arith, ap, ne_of_test,
}
use billing_recovery_executi.Table.{
  fetch_one, count, update, touched, fetch_one-update, fetch_one_holds, count-append,
}
use billing_recovery_executi.Database.{ExecutionRequest, ExecutionAttempt}
use billing_recovery_executi.Providers.Types.{ProviderResponse}
use billing_recovery_executi.Execution.Requests.{has_id, is_of}
use billing_recovery_executi.Execution.Statuses.{
  status_of_answer, map_provider_response_to_execution_status,
}
use billing_recovery_executi.Rules.ExecutionRules.{
  provider_succeeded, execution_pending, failed_transient, succeeded, failed_permanent,
  needs_manual_review,
}
use billing_recovery_executi.Safety.Triple.{Requests, Attempts, Condition}
use billing_recovery_executi.Safety.Tables.{
  IsSafe, IsOpen, succeeded_for, update-IsSafe, add_attempt-IsSafe,
}

-- No answer of a provider makes a request pending again.
pub status_of_answer-ne-pending :
    (status : String) (error : Option String) → status_of_answer status error ≢ execution_pending
unfolding status_of_answer
status_of_answer-ne-pending s e = ground (
  arith,
  ne_of_test succeeded execution_pending refl,
  ne_of_test failed_transient execution_pending refl,
  ne_of_test failed_permanent execution_pending refl,
  ne_of_test needs_manual_review execution_pending refl,
)

-- A transient failure is not the answer of a provider that succeeded.
pub status_of_answer_transient :
    (status : String) (error : Option String)
    → status_of_answer status error ≡ failed_transient
    → (status == provider_succeeded) ≡ false
unfolding status_of_answer
status_of_answer_transient s e h = ground (arith, ne_of_test succeeded failed_transient refl)

module _ (i : String) where
  -- Before an attempt.
  abbrev pub Ready : Condition
  Ready rs ats = IsSafe rs ats × (count (is_of i) ats < 3) × (count (succeeded_for i) ats ≡ 0)

  -- The request is in progress.
  abbrev pub Busy : String → Condition
  Busy st rs ats =
      Ready rs ats × ((r : ExecutionRequest) → fetch_one (has_id i) rs ≡ some r → r.status ≡ st)

  abbrev pub Opened : Condition
  Opened rs ats =
      IsSafe rs ats
      × IsOpen (fetch_one (has_id i) rs) (count (is_of i) ats) (count (succeeded_for i) ats)

  -- The attempt is stored, and the request will get the status `st`.
  abbrev pub Stored : String → Condition
  Stored st rs ats = IsSafe rs ats × (st ≡ failed_transient → count (succeeded_for i) ats ≡ 0)

  pub updated_status :
      (f : ExecutionRequest → ExecutionRequest) (st : String) (rs : Requests) (q : ExecutionRequest)
      → ((r : ExecutionRequest) → (f r).execution_request_id ≡ r.execution_request_id)
      → ((r : ExecutionRequest) → (f r).status ≡ st)
      → fetch_one (has_id i) (update (has_id i) f rs) ≡ some q
      → q.status ≡ st
  updated_status f st rs q same k e =
      go (fetch_one (has_id i) rs) (fetch_one_holds (has_id i) rs)
        (sym (fetch_one-update (has_id i) (has_id i) f rs (λ r. ap (λ j. j == i) (same r))) ∙ e)
    where
      go :
          (o : Option ExecutionRequest)
          → ((r : ExecutionRequest) → o ≡ some r → has_id i r ≡ true)
          → touched (has_id i) f o ≡ some q
          → q.status ≡ st
      go none holds x = cc
      go (some r) holds x = ground (arith, holds r refl, k r)

  pub begin :
      (f : ExecutionRequest → ExecutionRequest) (st : String)
      → ((r : ExecutionRequest) → (f r).execution_request_id ≡ r.execution_request_id)
      → ((r : ExecutionRequest) → (f r).status ≡ st)
      → st ≢ execution_pending
      → (rs : Requests) (ats : Attempts) → Ready rs ats
      → Busy st (update (has_id i) f rs) ats
  begin f st same k np rs ats (safe, room, unpaid) = (
    (update-IsSafe f st i rs ats safe same k (λ x. absurd (np x)) (λ x. unpaid), room, unpaid),
    λ q e. updated_status f st rs q same k e,
  )

  pub finish :
      (f : ExecutionRequest → ExecutionRequest) (st : String)
      → ((r : ExecutionRequest) → (f r).execution_request_id ≡ r.execution_request_id)
      → ((r : ExecutionRequest) → (f r).status ≡ st)
      → st ≢ execution_pending
      → (rs : Requests) (ats : Attempts) → Stored st rs ats
      → IsSafe (update (has_id i) f rs) ats
  finish f st same k np rs ats (safe, unpaid) =
      update-IsSafe f st i rs ats safe same k (λ x. absurd (np x)) unpaid

  pub opened :
      (st : String) (rs : Requests) (ats : Attempts) (o : Option ExecutionRequest)
      (r : ExecutionRequest)
      → st ≢ execution_pending
      → st ≢ failed_transient
      → Busy st rs ats
      → o ≡ fetch_one (has_id i) rs
      → o ≡ some r
      → Opened rs ats
  opened st rs ats o r np nt ((safe, room, unpaid), known) e x =
      let there : fetch_one (has_id i) rs ≡ some r = sym e ∙ x in
      (
        safe,
        record {
          row = r;
          is_there = there;
          not_pending = rw (known r there) np;
          not_transient = rw (known r there) nt;
          room = room;
          unpaid = unpaid;
        },
      )

  pub store_at :
      (a : ExecutionAttempt) (response : ProviderResponse)
      → a.execution_request_id ≡ i
      → a.provider_status ≡ response.provider_status
      → (rs : Requests) (ats : Attempts) → Opened rs ats
      → Stored (map_provider_response_to_execution_status response) rs (ats ++ a ∷ [])
  unfolding map_provider_response_to_execution_status
  store_at a response of_i same rs ats (safe, w) = (
    add_attempt-IsSafe i rs ats a safe of_i w,
    λ x. rw (count-append (succeeded_for i) ats a) (
        ground (
          arith,
          w.unpaid,
          status_of_answer_transient response.provider_status response.error_type x,
          same,
        )),
  )
