-- ===== src/Outbound/Confirm.antt =====
-- src/lib/outbound-send.ts: `confirmDraftSend` in two halves: `open_send` is what it does before the
-- mailbox's Durable Object is called, `close_send` what it does with the response. An ops event can
-- fail to be written where the code goes on without it.
use reccado.Prelude.{
  ℕ, Bool, true, false, Option, none, some, [], ◌∷◌, ◌++◌, take, if◌then◌else◌, ◌==◌,
}
use reccado.Text.{Text, ascii}
use reccado.ApiKey.{Instant}
use reccado.Inbox.{MessageRow}
use reccado.Draft.{value_or}
use reccado.Draft.Confirm.{
  ReplyStatus, ConfirmReply, ConfirmError, ConfirmResult, replied, thrown, provider_threw,
  plain_reply,
}
use reccado.Draft.Flights.{confirm_http_status}
use reccado.Outbound.{
  ApprovalMode, OutboundSendRow, IndexRow, OpsEvent, Ledger, get_outbound_send,
  create_outbound_send_if_missing, update_outbound_send_status, insert_ops_event,
  upsert_message_index, sending, sent, failed, unknown, human_confirmed, reason, http,
  send_confirmed, send_ambiguous,
}

pub record ConfirmInput : Type 0 where
  pub mailbox_id : Text
  pub draft_id : Text
  pub key : Text
  pub approval_mode : Option ApprovalMode
  pub new_id : Text
  pub event_written : Bool
  pub now : Instant

pub data SendGate : Type 0 where
  mailbox_not_found : SendGate
  answered : ConfirmReply → SendGate
  proceeds : SendGate

-- A row that says `sent`.
abbrev pub sent_reply : Text → Option Text → ConfirmReply
sent_reply draft_id id = record (plain_reply draft_id ReplyStatus.sent) {
  duplicate = true;
  provider_message_id = id;
}

abbrev pub sending_reply : Text → ConfirmReply
sending_reply draft_id = record (plain_reply draft_id ReplyStatus.sending) {
  duplicate = true;
  reason = some (ascii "already_sending");
}

-- What a row that is already there decides; none lets the call go on.
unfoldable pub existing_reply : Text → OutboundSendRow → Option ConfirmReply
existing_reply draft_id row = elim row.status [
  | sent ↦ some (sent_reply draft_id row.provider_message_id)
  | sending ↦ some (sending_reply draft_id)
  | _ ↦ none
]

abbrev pub new_send : ConfirmInput → OutboundSendRow
new_send i = record {
  id = i.new_id;
  mailbox_id = i.mailbox_id;
  draft_id = i.draft_id;
  idempotency_key = i.key;
  status = sending;
  provider_message_id = none;
  error_code = none;
  approval_mode = value_or i.approval_mode human_confirmed;
  created_at = i.now;
  updated_at = i.now;
}

abbrev pub confirmed_event : ConfirmInput → OpsEvent
confirmed_event i = record {
  event_type = send_confirmed;
  subject = i.mailbox_id;
  draft_id = i.draft_id;
  idempotency_key = i.key;
  reason = none;
}

-- The ops event of the confirmation, whose failure is caught.
unfoldable pub record_confirmed : ConfirmInput → Ledger → Ledger
unfolding insert_ops_event
record_confirmed i l = if i.event_written then insert_ops_event (confirmed_event i) l else l

abbrev pub gate_of : ConfirmInput → Ledger → Option ConfirmReply → Ledger × SendGate
gate_of i l (some reply) = (l, answered reply)
gate_of i l none = (record_confirmed i l, proceeds)

-- `confirmDraftSend`, up to the call of the Durable Object. `known` is whether the mailbox exists. Its
-- first look at the row answers only for `sent`, and as the look after the INSERT does.
unfoldable pub open_send : Bool → ConfirmInput → Ledger → Ledger × SendGate
unfolding record_confirmed existing_reply create_outbound_send_if_missing get_outbound_send
open_send known i l =
    if known
    then elim (get_outbound_send l i.key) [
      | some row ↦ gate_of i l (existing_reply i.draft_id row)
      | none ↦ gate_of i (create_outbound_send_if_missing (new_send i) l).0 none
    ]
    else (l, mailbox_not_found)

-- The response of the Durable Object, or the message of the error where the call failed.
pub data DoResponse : Type 0 where
  ok : ConfirmReply → DoResponse
  not_ok : ℕ → DoResponse
  unreachable : Option Text → DoResponse

-- The response to the result of the route.
unfoldable pub response_of : ConfirmResult → DoResponse
unfolding confirm_http_status
response_of (replied reply) =
    if confirm_http_status (replied reply) == 200
    then ok reply
    else not_ok (confirm_http_status (replied reply))
response_of (thrown e) = not_ok (confirm_http_status (thrown e))
response_of (provider_threw message) = not_ok (confirm_http_status (provider_threw message))

abbrev pub index_row : ConfirmInput → Text → MessageRow → IndexRow
index_row i local_id row = record {
  mailbox_id = i.mailbox_id;
  message_local_id = local_id;
  thread_id = row.thread_id;
  rfc_message_id = row.rfc_message_id;
  subject = row.subject;
  from_addr = row.from_addr;
  to = row.to;
  snippet = row.snippet;
  received_at = row.received_at;
  raw_sha256 = row.raw_sha256;
  updated_at = i.now;
}

abbrev pub index_copy : ConfirmInput → Text → Option MessageRow → Ledger → Ledger
index_copy i local_id none l = l
index_copy i local_id (some row) l = upsert_message_index (index_row i local_id row) l

abbrev pub refresh_card : Option Text → Ledger → Ledger
refresh_card none l = l
refresh_card (some thread_id) l = record l { card_refreshes = l.card_refreshes ++ thread_id ∷ [] }

-- `result.sent && result.messageLocalId`
unfoldable pub close_sent : ConfirmInput → ConfirmReply → Text → Ledger → Ledger
unfolding update_outbound_send_status upsert_message_index
close_sent i reply local_id l = refresh_card reply.thread_id (
    index_copy i local_id reply.copy (
      update_outbound_send_status i.key sent (some (value_or reply.provider_message_id i.key)) none
        i.now l))

abbrev pub ambiguous_event : ConfirmInput → ConfirmReply → OpsEvent
ambiguous_event i reply = record {
  event_type = send_ambiguous;
  subject = i.mailbox_id;
  draft_id = i.draft_id;
  idempotency_key = i.key;
  reason = reply.reason;
}

unfoldable pub close_ambiguous : ConfirmInput → ConfirmReply → Ledger → Ledger
unfolding update_outbound_send_status insert_ops_event
close_ambiguous i reply l = insert_ops_event (ambiguous_event i reply) (
    update_outbound_send_status i.key unknown none
      (some (reason (value_or reply.reason (ascii "ambiguous")))) i.now l)

abbrev pub is_sending : ReplyStatus → Bool
is_sending ReplyStatus.sending = true
is_sending _ = false

unfoldable pub close_duplicate : ConfirmInput → ConfirmReply → Ledger → Ledger
unfolding update_outbound_send_status
close_duplicate i reply l =
    if is_sending reply.status
    then update_outbound_send_status i.key sending none none i.now l
    else update_outbound_send_status i.key sent (some (value_or reply.provider_message_id i.key))
        none i.now l

unfoldable pub close_not_sent : ConfirmInput → ConfirmReply → Ledger → Ledger
unfolding update_outbound_send_status
close_not_sent i reply l =
    update_outbound_send_status i.key failed none
      (some (reason (value_or reply.reason (ascii "not_sent")))) i.now l

abbrev pub is_ambiguous_error : Option ConfirmError → Bool
is_ambiguous_error (some ConfirmError.ambiguous) = true
is_ambiguous_error _ = false

-- The local id of a message that was sent now.
abbrev pub sent_id : Bool → Option Text → Option Text
sent_id true (some (c ∷ id)) = some (c ∷ id)
sent_id _ _ = none

unfoldable pub close_reply : ConfirmInput → ConfirmReply → Ledger → Ledger
unfolding close_sent close_ambiguous close_duplicate close_not_sent
close_reply i reply l = elim (sent_id reply.sent reply.message_local_id) [
  | some local_id ↦ close_sent i reply local_id l
  | none ↦
      if is_ambiguous_error reply.error
      then close_ambiguous i reply l
      else if reply.duplicate
      then close_duplicate i reply l
      else close_not_sent i reply l
]

-- `error.message.slice(0, 120)`
abbrev pub max_error : ℕ
max_error = 120

abbrev pub failure_text : Option Text → Text
failure_text none = ascii "send_failed"
failure_text (some message) = take max_error message

-- `confirmDraftSend`, from the response on. Where the call failed, the error goes on to the caller.
unfoldable pub close_send : ConfirmInput → DoResponse → Ledger → Ledger
unfolding close_reply update_outbound_send_status
close_send i (ok reply) l = close_reply i reply l
close_send i (not_ok status) l =
    update_outbound_send_status i.key failed none (some (http status)) i.now l
close_send i (unreachable message) l =
    update_outbound_send_status i.key failed none (some (reason (failure_text message))) i.now l
