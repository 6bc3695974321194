-- ===== src/Inbox.antt =====
-- src/do/mailbox-schema-content.ts: the tables of a mailbox's SQLite that hold its mail, each the list
-- of its rows. A `…_json` column is the list that it prints. Columns of `messages` that no modelled
-- code decides are left out: sizes, dates of the sender, and where the raw text is kept.
use reccado.Prelude.{ℕ, Bool, Option, List, []}
use reccado.Text.{Text}
use reccado.ApiKey.{Instant}

pub data DraftStatus : Type 0 where
  draft pending_confirmation sent cancelled : DraftStatus

-- `outbound_drafts`
pub record DraftRow : Type 0 where
  pub id : Text
  pub thread_id : Option Text
  pub parent_message_id : Option Text
  pub to : List Text
  pub cc : List Text
  pub bcc : List Text
  pub subject : Text
  pub body_text : Option Text
  pub body_html : Option Text
  pub status : DraftStatus
  pub created_by : Text
  pub created_at : Instant
  pub updated_at : Instant
  pub idempotency_key : Option Text

pub data Direction : Type 0 where
  inbound outbound : Direction

pub data MessageState : Type 0 where
  inbox archive trash sent : MessageState

-- `messages`
pub record MessageRow : Type 0 where
  pub id : Text
  pub idempotency_key : Text
  pub thread_id : Text
  pub rfc_message_id : Option Text
  pub in_reply_to : Option Text
  pub references : List Text
  pub direction : Direction
  pub state : MessageState
  pub from_addr : Text
  pub to : List Text
  pub cc : List Text
  pub bcc : List Text
  pub subject : Option Text
  pub snippet : Option Text
  pub received_at : Instant
  pub raw_sha256 : Text
  pub body_text : Option Text
  pub body_html_r2_key : Option Text
  pub is_read : Bool
  pub updated_at : Instant

-- `threads`
pub record ThreadRow : Type 0 where
  pub id : Text
  pub subject_norm : Option Text
  pub last_message_at : Instant
  pub message_count : ℕ
  pub unread_count : ℕ
  pub created_at : Instant
  pub updated_at : Instant

-- The values of `mailbox_meta`: a send marker, which is `sending` or the JSON of one of the objects
-- that the code writes, or any other text.
pub data MetaValue : Type 0 where
  sending : MetaValue
  sent : Option Text → MetaValue
  failed unknown : Option Text → MetaValue
  text : Text → MetaValue

pub record MetaRow : Type 0 where
  pub key : Text
  pub value : MetaValue
  pub updated_at : Instant

-- `ingest_events`; every row says `processed`.
pub record IngestRow : Type 0 where
  pub idempotency_key : Text
  pub raw_r2_key : Text
  pub raw_sha256 : Text
  pub message_local_id : Option Text
  pub error : Option Text
  pub created_at : Instant

-- `contacts`
pub record ContactRow : Type 0 where
  pub email : Text
  pub last_seen_at : Instant
  pub message_count : ℕ

-- `realtime_events`, which all say `message.created`
pub record RealtimeRow : Type 0 where
  pub seq : ℕ
  pub message_id : Text
  pub thread_id : Text

pub record Inbox : Type 0 where
  pub outbound_drafts : List DraftRow
  pub messages : List MessageRow
  pub threads : List ThreadRow
  pub mailbox_meta : List MetaRow
  pub ingest_events : List IngestRow
  pub contacts : List ContactRow
  pub realtime_events : List RealtimeRow

abbrev pub empty : Inbox
empty = record {
  outbound_drafts = [];
  messages = [];
  threads = [];
  mailbox_meta = [];
  ingest_events = [];
  contacts = [];
  realtime_events = [];
}
