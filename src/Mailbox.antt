-- ===== src/Mailbox.antt =====
-- src/do/mailbox-schema-content.ts: the tables of a mailbox's SQLite that the sending paths use, each the
-- list of its rows. A column with a CHECK constraint is an enumeration. `outbox` is not a table: it
-- lists what was handed to the provider, in order.
use reccado.Prelude.{ℕ, Bool, Option, List, []}
use reccado.Text.{Text}
use reccado.Template.{Variables}
use reccado.ApiKey.{ApiKeyRecord, Instant, KeyEnvironment, KeyScope}

pub data TemplateStatus : Type 0 where
  active archived : TemplateStatus

pub record TemplateRow : Type 0 where
  pub id : Text
  pub mailbox_id : Text
  pub subject : Text
  pub body_text : Option Text
  pub body_html : Option Text
  pub status : TemplateStatus
  pub created_at : Instant
  pub updated_at : Instant

pub data RequestStatus : Type 0 where
  pending sent duplicate rejected failed unknown : RequestStatus

-- The values that the code writes to `error_code`.
pub data ErrorCode : Type 0 where
  ambiguous permanent_failure stale_reconciled : ErrorCode

pub data DeliveryStatus : Type 0 where
  delivered deferred bounced rejected complained failed unknown : DeliveryStatus

-- `cf.email.sending.message.…`
pub data EventType : Type 0 where
  delivered deferred bounced rejected complained failed : EventType

-- The one value of `resolved_via`.
pub data Resolution : Type 0 where
  envelope_correlation : Resolution

pub record RequestRow : Type 0 where
  pub request_id : Text
  pub key_id : Text
  pub client_idempotency_key : Text
  pub payload_hash : Text
  pub status : RequestStatus
  pub to_addr : Text
  pub template_id : Text
  pub variables : Option Variables
  pub sender : Text
  pub provider_message_id : Option Text
  pub error_code : Option ErrorCode
  pub delivery_status : Option DeliveryStatus
  pub delivery_event_at : Option Instant
  pub resolved_via : Option Resolution
  pub created_at : Instant
  pub updated_at : Instant

-- `rate:minute:…` and `quota:daily:…`, by the number of the minute or day of the ISO text's prefix.
pub data WindowKey : Type 0 where
  rate_minute quota_daily : ℕ → WindowKey

pub record UsageRow : Type 0 where
  pub key_id : Text
  pub window_key : WindowKey
  pub value : ℕ
  pub updated_at : Instant

pub data SuppressionReason : Type 0 where
  hard_bounce complaint manual provider_rejected : SuppressionReason

pub record SuppressionRow : Type 0 where
  pub email : Text
  pub reason : SuppressionReason
  pub source_event_id : Option Text
  pub created_at : Instant
  pub updated_at : Instant
  pub expires_at : Option Instant

pub record DeliveryEventRow : Type 0 where
  pub event_id : Text
  pub request_id : Option Text
  pub provider_message_id : Text
  pub recipient : Text
  pub event_type : EventType
  pub terminal : Bool
  pub created_at : Instant

-- The texts stored under a send marker's key: `sending`, or the JSON of one of the objects that the
-- code writes; `other` is any other text.
pub data MarkerValue : Type 0 where
  sending : MarkerValue
  sent : Option Text → MarkerValue
  failed unknown : Option ErrorCode → MarkerValue
  other : MarkerValue

pub record MetaRow : Type 0 where
  pub key : Text
  pub value : MarkerValue
  pub updated_at : Instant

pub data KeyEventMetadata : Type 0 where
  created : KeyEnvironment → Text → List KeyScope → KeyEventMetadata
  revoked_for : Option Text → KeyEventMetadata
  rotated_to rotated_from : Text → KeyEventMetadata
  renamed : Option Text → Option Text → KeyEventMetadata

pub data KeyEventType : Type 0 where
  created revoked rotated sender_name_updated : KeyEventType

pub record KeyEventRow : Type 0 where
  pub id : Text
  pub key_id : Text
  pub event_type : KeyEventType
  pub metadata : KeyEventMetadata
  pub created_at : Instant

-- The argument of `email.send`.
pub record OutboundEmail : Type 0 where
  pub from : Text
  pub from_name : Option Text
  pub to : Text
  pub subject : Text
  pub text : Option Text
  pub html : Option Text

pub record Mailbox : Type 0 where
  pub api_keys : List ApiKeyRecord
  pub api_key_events : List KeyEventRow
  pub api_key_usage : List UsageRow
  pub templates : List TemplateRow
  pub transactional_requests : List RequestRow
  pub transactional_delivery_events : List DeliveryEventRow
  pub recipient_suppressions : List SuppressionRow
  pub mailbox_meta : List MetaRow
  pub outbox : List OutboundEmail

abbrev pub empty : Mailbox
empty = record {
  api_keys = [];
  api_key_events = [];
  api_key_usage = [];
  templates = [];
  transactional_requests = [];
  transactional_delivery_events = [];
  recipient_suppressions = [];
  mailbox_meta = [];
  outbox = [];
}
