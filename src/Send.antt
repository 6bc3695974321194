-- ===== src/Send.antt =====
-- src/do/transactional-send-ops.ts: `handleTransactionalSend`.
mod Checks
unfoldable pub use Checks.*
pub mod Answer
pub mod Fresh
pub mod Outcome
pub mod Gates
use reccado.Prelude.{
  ℕ, ◌≤◌, Bool, true, false, ◌&&◌, not, Option, none, some, List, [], ◌∷◌, leb, ltb, if◌then◌else◌,
  length, find, update_where,
}
use reccado.Text.{Text, ascii, ◌===◌, trim, contains}
use reccado.Template.{
  Template, Variables, VariableValidation, Interpolated, validate_template_variables,
  interpolate_template, is_empty,
}
use reccado.Policy.{PolicyCheck, check_recipient_policy}
use reccado.ApiKey.{
  Platform, ApiKeyRecord, KeyEnvironment, Instant, transactional_send, transactional_templates_use,
}
use reccado.Mailbox.{
  Mailbox, TemplateRow, TemplateStatus, RequestRow, RequestStatus, ErrorCode, OutboundEmail,
}
use reccado.Auth.{AuthRequest, KeyAuth, authenticate_transactional_key}
use reccado.Payload.{HashInput, transactional_payload_hash, payload_hash_matches}
use reccado.Request.{
  Json, TransactionalRequest, transactional_request_schema, SendError, key_auth,
  test_key_not_allowed_in_production_send, idempotency_key_required, idempotency_key_too_long,
  invalid_request_body, template_not_allowed, template_not_found, template_interpolation_failed,
  missing_variables, unknown_variables, missing_and_unknown_variables, denied_by_policy,
  not_allowed_by_policy, recipient_suppressed, idempotency_key_already_used_with_different_payload,
  quota_exceeded, internal_error, provider, rejected, idempotency_conflict, TransactionalSendResult,
  map_db_status_to_response, db_status_for_send_outcome, get_transactional_request,
  insert_transactional_request,
}
use reccado.Quota.{check_and_increment_quota}
use reccado.Dispatch.{ProviderOutcome, SendOutcome, do_transactional_send}
use reccado.Suppression.{is_recipient_suppressed}

abbrev pub hash_input : Prepared → HashInput
hash_input q = record {
  key_id = q.key_id;
  client_idempotency_key = q.client_idempotency_key;
  template = q.request.template;
  to = q.request.to;
  variables = q.request.variables;
}

unfoldable pub email_of : Prepared → OutboundEmail
email_of q = record {
  from = q.key.sender;
  from_name = q.key.sender_name;
  to = q.request.to;
  subject = q.interpolated.subject;
  text = q.interpolated.body_text;
  html = q.interpolated.body_html;
}

-- 23: the columns that the UPDATE sets
abbrev pub settled : SendOutcome → RequestStatus → Instant → RequestRow → RequestRow
settled told status now r = record r {
  status = status;
  provider_message_id = told.provider_message_id;
  error_code = told.error_category;
  variables = none;
  updated_at = now;
}

unfoldable pub settle_row : Text → SendOutcome → RequestStatus → Instant → Mailbox → Mailbox
unfolding update_where
settle_row request_id told status now m = record m {
  transactional_requests =
      update_where (λ r. r.request_id === request_id) (settled told status now)
        m.transactional_requests;
}

abbrev pub provider_error : Option ErrorCode → Option SendError
provider_error none = none
provider_error (some e) = some (provider e)

abbrev pub rejected_result : Text → SendError → TransactionalSendResult
rejected_result key_id e = record {
  status = rejected;
  request_id = [];
  key_id = key_id;
  provider_message_id = none;
  error = some e;
}

-- 23; the result is none where the UPDATE breaks the CHECK constraint and throws
unfoldable pub settle :
    Prepared → Surroundings → Mailbox × SendOutcome → Mailbox × Option TransactionalSendResult
settle q env (sent, told) = elim (db_status_for_send_outcome told.status) [
  | none ↦ (sent, none)
  | some status ↦ (
    settle_row env.request_id told status env.updated_at sent,
    some (record {
      status = told.status;
      request_id = env.request_id;
      key_id = q.key_id;
      provider_message_id = told.provider_message_id;
      error = provider_error told.error_category;
    }),
  )
]

-- 22 and 23
unfoldable pub send_and_settle :
    Prepared → Surroundings → Mailbox → Mailbox × Option TransactionalSendResult
send_and_settle q env m =
    settle q env (
      do_transactional_send env.request_id (email_of q) env.outcome env.reserved_at env.settled_at
        m)

module _ (p : Platform) where
  -- 20: the answer to a request whose idempotency key is taken
  unfoldable pub replay : Prepared → RequestRow → TransactionalSendResult
  replay q existing =
      if payload_hash_matches p existing.payload_hash (hash_input q)
      then record {
        status = map_db_status_to_response existing.status;
        request_id = existing.request_id;
        key_id = q.key_id;
        provider_message_id = existing.provider_message_id;
        error = none;
      }
      else record {
        status = idempotency_conflict;
        request_id = existing.request_id;
        key_id = q.key_id;
        provider_message_id = none;
        error = some idempotency_key_already_used_with_different_payload;
      }

  unfoldable pub new_row : Prepared → Surroundings → RequestRow
  new_row q env = record {
    request_id = env.request_id;
    key_id = q.key_id;
    client_idempotency_key = q.client_idempotency_key;
    payload_hash = transactional_payload_hash p (hash_input q);
    status = RequestStatus.pending;
    to_addr = q.request.to;
    template_id = q.request.template;
    variables = some q.request.variables;
    sender = q.key.sender;
    provider_message_id = none;
    error_code = none;
    delivery_status = none;
    delivery_event_at = none;
    resolved_via = none;
    created_at = env.created_at;
    updated_at = env.created_at;
  }

  -- 21: the body of `transactionSync`; none where the quota refuses
  unfoldable pub reserve : Prepared → Surroundings → Mailbox → Option Mailbox
  reserve q env m = elim (get_transactional_request m q.key_id q.client_idempotency_key) [
    | some existing ↦ some m
    | none ↦ elim (check_and_increment_quota q.key q.key_id env.quota_at m.api_key_usage) [
      | none ↦ none
      | some usage ↦
          some (insert_transactional_request (new_row q env) (record m { api_key_usage = usage }))
    ]
  ]

  -- The row that the transaction left is looked up; where it is missing, it is looked up again.
  unfoldable pub send_inserted :
      Prepared → Surroundings → Mailbox → Mailbox × Option TransactionalSendResult
  send_inserted q env m = elim (get_transactional_request m q.key_id q.client_idempotency_key) [
    | some inserted ↦ send_and_settle q env m
    | none ↦ elim (get_transactional_request m q.key_id q.client_idempotency_key) [
      | some existing ↦ (m, some (replay q existing))
      | none ↦ (m, some (rejected_result q.key_id internal_error))
    ]
  ]

  -- 21 to 23
  unfoldable pub reserve_and_send :
      Prepared → Surroundings → Mailbox → Mailbox × Option TransactionalSendResult
  reserve_and_send q env m = elim (reserve q env m) [
    | none ↦ (m, some (rejected_result q.key_id quota_exceeded))
    | some reserved ↦ send_inserted q env reserved
  ]

  -- 20 to 23
  unfoldable pub submit :
      Prepared → Surroundings → Mailbox → Mailbox × Option TransactionalSendResult
  submit q env m = elim (get_transactional_request m q.key_id q.client_idempotency_key) [
    | some existing ↦ (m, some (replay q existing))
    | none ↦ reserve_and_send q env m
  ]

  abbrev pub submit_checked :
      Checked Prepared → Surroundings → Mailbox → Mailbox × Option TransactionalSendResult
  submit_checked (refused key_id e) env m = (m, some (rejected_result key_id e))
  submit_checked (ok q) env m = submit q env m

  unfoldable pub handle_transactional_send :
      Text → SendRequest → Surroundings → Mailbox → Mailbox × Option TransactionalSendResult
  handle_transactional_send pepper request env m =
      submit_checked (prepare p pepper m request env) env m
