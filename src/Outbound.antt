-- ===== src/Outbound.antt =====
-- The outbound_sends, message_index and ops_events functions of src/db/d1.ts: the ledger of confirmed
-- sends in D1.
pub mod Confirm
pub mod Closing
pub mod Order
pub mod Progress
pub mod Sweep
use reccado.Prelude.{
  ℕ, suc, ◌-◌, ◌*◌, Bool, true, false, ◌&&◌, Option, none, some, List, [], ◌∷◌, ◌++◌, take, find,
  keep, update_where, if◌then◌else◌, leb, ltb, length, ◌==◌,
}
use reccado.Text.{Text, ascii, ◌===◌}
use reccado.ApiKey.{Instant}
use reccado.Inbox.{MessageRow}
use reccado.Draft.{value_or}
use reccado.Draft.Confirm.{
  ReplyStatus, ConfirmReply, ConfirmError, ConfirmResult, replied, thrown, provider_threw,
  plain_reply,
}
use reccado.Draft.Flights.{confirm_http_status}

pub data SendStatus : Type 0 where
  pending_confirmation sending sent failed cancelled unknown : SendStatus

pub data ApprovalMode : Type 0 where
  human_confirmed telegram_confirmed preauthorized_transactional : ApprovalMode

-- `error_code`: a text, or `http_` and the number of a status
pub data SendErrorCode : Type 0 where
  reason : Text → SendErrorCode
  http : ℕ → SendErrorCode

pub record OutboundSendRow : Type 0 where
  pub id : Text
  pub mailbox_id : Text
  pub draft_id : Text
  pub idempotency_key : Text
  pub status : SendStatus
  pub provider_message_id : Option Text
  pub error_code : Option SendErrorCode
  pub approval_mode : ApprovalMode
  pub created_at : Instant
  pub updated_at : Instant

-- `message_index`, less the columns that are the same in every row of a sent message
pub record IndexRow : Type 0 where
  pub mailbox_id : Text
  pub message_local_id : Text
  pub thread_id : Text
  pub rfc_message_id : Option Text
  pub subject : Option Text
  pub from_addr : Text
  pub to : List Text
  pub snippet : Option Text
  pub received_at : Instant
  pub raw_sha256 : Text
  pub updated_at : Instant

pub data OpsEventType : Type 0 where
  send_confirmed send_ambiguous stale_reconciled : OpsEventType

pub record OpsEvent : Type 0 where
  pub event_type : OpsEventType
  pub subject : Text
  pub draft_id : Text
  pub idempotency_key : Text
  pub reason : Option Text

-- The tables of D1, and the threads whose Telegram cards are to be refreshed.
pub record Ledger : Type 0 where
  pub outbound_sends : List OutboundSendRow
  pub message_index : List IndexRow
  pub ops_events : List OpsEvent
  pub card_refreshes : List Text

abbrev pub has_send_key : Text → OutboundSendRow → Bool
has_send_key key row = row.idempotency_key === key

-- `getOutboundSendByIdempotency`
unfoldable pub get_outbound_send : Ledger → Text → Option OutboundSendRow
unfolding find ◌===◌
get_outbound_send l key = find (has_send_key key) l.outbound_sends

-- `createOutboundSendIfMissing`; the random id is new.
unfoldable pub create_outbound_send_if_missing : OutboundSendRow → Ledger → Ledger × Bool
create_outbound_send_if_missing row l = elim (get_outbound_send l row.idempotency_key) [
  | some old ↦ (l, false)
  | none ↦ (record l { outbound_sends = l.outbound_sends ++ row ∷ [] }, true)
]

abbrev pub coalesce : Option Text → Option Text → Option Text
coalesce none old = old
coalesce (some s) old = some s

abbrev pub with_outcome :
    SendStatus → Option Text → Option SendErrorCode → Instant → OutboundSendRow → OutboundSendRow
with_outcome status id code now row = record row {
  status = status;
  provider_message_id = coalesce id row.provider_message_id;
  error_code = code;
  updated_at = now;
}

-- `updateOutboundSendStatus`
unfoldable pub update_outbound_send_status :
    Text → SendStatus → Option Text → Option SendErrorCode → Instant → Ledger → Ledger
unfolding update_where ◌===◌
update_outbound_send_status key status id code now l = record l {
  outbound_sends =
      update_where (has_send_key key) (with_outcome status id code now) l.outbound_sends;
}

-- `insertOpsEvent`
unfoldable pub insert_ops_event : OpsEvent → Ledger → Ledger
insert_ops_event event l = record l { ops_events = l.ops_events ++ event ∷ [] }

abbrev pub is_indexed : Text → Text → IndexRow → Bool
is_indexed mailbox_id message_local_id row =
    row.mailbox_id === mailbox_id && row.message_local_id === message_local_id

-- `upsertMessageIndex`
unfoldable pub upsert_message_index : IndexRow → Ledger → Ledger
unfolding find update_where ◌===◌
upsert_message_index row l =
    let p = is_indexed row.mailbox_id row.message_local_id in
    elim (find p l.message_index) [
      | some old ↦ record l { message_index = update_where p (λ r. row) l.message_index }
      | none ↦ record l { message_index = l.message_index ++ row ∷ [] }
    ]
