-- ===== src/Send/Outcome.antt =====
-- The ways in which `handleTransactionalSend` can end behind its checks.
use reccado.Prelude.{◌≡◌, none, some, List, inl, inr, Option-cases}
use reccado.ApiKey.{Platform}
use reccado.Mailbox.{Mailbox, RequestRow, UsageRow}
use reccado.Request.{quota_exceeded, get_transactional_request}
use reccado.Quota.{check_and_increment_quota}
use reccado.Send.{
  Prepared, Surroundings, reserve, reserve_and_send, rejected_result, replay, submit,
}
use reccado.Send.Fresh.{IsFresh, Dispatched, submit_fresh}

module _ (p : Platform) (q : Prepared) (env : Surroundings) (m : Mailbox) where
  pub data Outcome : Type 0 where
    replayed :
        (existing : RequestRow)
        → get_transactional_request m q.key_id q.client_idempotency_key ≡ some existing
        → submit p q env m ≡ (m, some (replay p q existing))
        → Outcome
    over_quota :
        get_transactional_request m q.key_id q.client_idempotency_key ≡ none
        → check_and_increment_quota q.key q.key_id env.quota_at m.api_key_usage ≡ none
        → submit p q env m ≡ (m, some (rejected_result q.key_id quota_exceeded))
        → Outcome
    dispatched :
        (usage : List UsageRow)
        → get_transactional_request m q.key_id q.client_idempotency_key ≡ none
        → check_and_increment_quota q.key q.key_id env.quota_at m.api_key_usage ≡ some usage
        → Dispatched p q env m usage
        → Outcome

  pub submit_taken :
      (r : RequestRow)
      → get_transactional_request m q.key_id q.client_idempotency_key ≡ some r
      → submit p q env m ≡ (m, some (replay p q r))
  unfolding submit
  submit_taken r e = rw (e, submit)

  reserve_over_quota :
      get_transactional_request m q.key_id q.client_idempotency_key ≡ none
      → check_and_increment_quota q.key q.key_id env.quota_at m.api_key_usage ≡ none
      → reserve p q env m ≡ none
  unfolding reserve
  reserve_over_quota e c = rw (e, reserve, c)

  submit_over_quota :
      get_transactional_request m q.key_id q.client_idempotency_key ≡ none
      → check_and_increment_quota q.key q.key_id env.quota_at m.api_key_usage ≡ none
      → submit p q env m ≡ (m, some (rejected_result q.key_id quota_exceeded))
  unfolding submit reserve_and_send
  submit_over_quota e c = rw (e, submit, reserve_over_quota e c, reserve_and_send)

  -- Behind the checks a call with a new request id ends in one of three ways. A taken idempotency key
  -- is answered from its row, a used-up quota is refused, and both leave the mailbox as it is.
  -- Otherwise one email goes out, the quota is charged, and the row of the request has the status that
  -- the answer tells.
  pub submit-outcome : IsFresh env.request_id m → Outcome
  submit-outcome fresh =
      elim (Option-cases (get_transactional_request m q.key_id q.client_idempotency_key)) [
        | inr (r, e) ↦ replayed r e (submit_taken r e)
        | inl e ↦
            elim (Option-cases
              (check_and_increment_quota q.key q.key_id env.quota_at m.api_key_usage)) [
                | inl c ↦ over_quota e c (submit_over_quota e c)
                | inr (usage, c) ↦ dispatched usage e c (submit_fresh p q env m usage e fresh c)
              ]
      ]
