-- ===== src/Send/Answer.antt =====
-- What `handleTransactionalSend` answers, beside what the mailbox and the provider know.
use reccado.Send.{new_row}
use reccado.Prelude.{◌≡◌, refl, ap, ◌↔◌, none, some, List, arith, inl, inr, Bool-cases}
use reccado.Text.{Text}
use reccado.ApiKey.{Platform}
use reccado.Mailbox.{Mailbox, RequestRow, UsageRow}
use reccado.Request.{
  get_transactional_request, map_db_status_to_response, http_status_for_transactional_result,
  TransactionalSendResult,
}
use reccado.Quota.{check_and_increment_quota}
use reccado.Dispatch.{
  ProviderOutcome, ProviderReply, returned, threw, is_ambiguous_provider_error, classify_outcome,
}
use reccado.Send.{
  SendRequest, Surroundings, Checked, ok, refused, Prepared, prepare, submit, submit_checked,
  handle_transactional_send, provider_error,
}
use reccado.Send.Fresh.{IsFresh, settled_row, result_of, submit_fresh}
use reccado.Send.Outcome.{replayed, over_quota, dispatched, submit-outcome}

module _ (p : Platform) where
  answered :
      (c : Checked Prepared) (env : Surroundings) (m : Mailbox)
      → IsFresh env.request_id m
      → (res : TransactionalSendResult) × ((submit_checked p c env m).1 ≡ some res)
  answered (refused k e) env m fresh = (_, refl)
  answered (ok q) env m fresh = elim (submit-outcome p q env m fresh) [
    | replayed r e a ↦ (_, ap (λ x. x.1) a)
    | over_quota e c a ↦ (_, ap (λ x. x.1) a)
    | dispatched usage e c d ↦ (_, ap (λ x. x.1) d.answer)
  ]

  -- With a new request id a call always gives an answer: it never writes a status that the CHECK
  -- constraint of the table refuses, which would throw after the email went out.
  pub handle_transactional_send-answers :
      (pepper : Text) (request : SendRequest) (env : Surroundings) (m : Mailbox)
      → IsFresh env.request_id m
      → (res : TransactionalSendResult) × ((handle_transactional_send p pepper request env m).1
          ≡ some res)
  unfolding handle_transactional_send
  handle_transactional_send-answers pepper request env m fresh =
      answered (prepare p pepper m request env) env m fresh

  module _ (q : Prepared) (env : Surroundings) (m : Mailbox) (usage : List UsageRow) where
    -- Where an email goes out, the row and the answer agree on the request id, the status and the
    -- provider's message id, and the row no longer holds the message's variables.
    pub submit-row_agrees :
        get_transactional_request m q.key_id q.client_idempotency_key ≡ none
        → IsFresh env.request_id m
        → check_and_increment_quota q.key q.key_id env.quota_at m.api_key_usage ≡ some usage
        → (row : RequestRow) × (res : TransactionalSendResult) × ((submit p q env m).1 ≡ some res)
          × (get_transactional_request (submit p q env m).0 q.key_id q.client_idempotency_key
              ≡ some row)
          × (row.request_id ≡ res.request_id)
          × (map_db_status_to_response row.status ≡ res.status)
          × (row.provider_message_id ≡ res.provider_message_id)
          × (row.variables ≡ none)
    unfolding new_row
    submit-row_agrees free fresh charged =
        let d = submit_fresh p q env m usage free fresh charged in
        (
          settled_row p q env d.status,
          result_of p q env,
          ap (λ x. x.1) d.answer,
          rw d.answer d.row,
          refl,
          d.mapped,
          refl,
          refl,
        )

    status_of_answer :
        (o : ProviderOutcome)
        → (http_status_for_transactional_result
              (classify_outcome o).1.status
              (provider_error (classify_outcome o).1.error_category)
            ≡ 200)
          ↔ ((reply : ProviderReply) × (o ≡ returned reply))
    unfolding classify_outcome http_status_for_transactional_result
    status_of_answer (returned reply) = (λ h. (reply, refl), λ h. refl)
    status_of_answer (threw e) = elim (Bool-cases (is_ambiguous_provider_error e)) [
      | inl h ↦ rw h (λ x. ground arith, λ x. ground arith)
      | inr h ↦ rw h (λ x. ground arith, λ x. ground arith)
    ]

    -- Where an email goes out, the HTTP status is 200 exactly when the provider returned.
    pub submit-http_ok :
        get_transactional_request m q.key_id q.client_idempotency_key ≡ none
        → IsFresh env.request_id m
        → check_and_increment_quota q.key q.key_id env.quota_at m.api_key_usage ≡ some usage
        → (res : TransactionalSendResult) × ((submit p q env m).1 ≡ some res)
          × ((http_status_for_transactional_result res.status res.error ≡ 200)
              ↔ ((reply : ProviderReply) × (env.outcome ≡ returned reply)))
    submit-http_ok free fresh charged =
        let d = submit_fresh p q env m usage free fresh charged in
        (result_of p q env, ap (λ x. x.1) d.answer, status_of_answer env.outcome)
