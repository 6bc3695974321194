-- ===== src/Ingest/Rows.antt =====
-- src/do/mailbox-ingest.ts: a received mail, and the rows that a call of ingestInboundEmail writes of it.
use reccado.Prelude.{false, Option, none, some, List, [], ◌∷◌}
use reccado.Text.{Text}
use reccado.ApiKey.{Instant}
use reccado.Header.{normalize_message_id}
use reccado.Inbox.{MessageRow, inbox, IngestRow, inbound}
use reccado.Draft.{or_else}
use reccado.Draft.Confirm.{normal_ids}

-- The message of the queue, less the fields that are only stored.
pub record InboundMail : Type 0 where
  pub recipient : Text
  pub sender : Text
  pub raw_r2_key : Text
  pub raw_sha256 : Text
  pub message_id : Option Text
  pub subject : Option Text
  pub in_reply_to : Option Text
  pub references : List Text
  pub received_at : Instant
  pub idempotency_key : Text

-- What `parseMimeBytes` returns, and the snippet that is made of it.
pub record ParsedMail : Type 0 where
  pub from : Text
  pub to : List Text
  pub cc : List Text
  pub subject : Option Text
  pub in_reply_to : Option Text
  pub references : List Text
  pub text : Option Text
  pub html_key : Option Text
  pub snippet : Text

-- The mail is parsed and its parts are stored, or an error with a message comes, after
-- the parsing or before its end.
pub data Parse : Type 0 where
  parsed : ParsedMail → Parse
  failed : Option ParsedMail → Text → Parse

-- The random ids of a call, and its reading of the clock.
pub record IngestIds : Type 0 where
  pub message_local_id : Text
  pub new_thread_id : Text
  pub now : Instant

abbrev pub recipients_of : ParsedMail → Text → List Text
recipients_of p recipient = elim p.to [ [] ↦ recipient ∷ [] | a ∷ to ↦ a ∷ to ]

abbrev pub sender_of : ParsedMail → Text → Text
sender_of p sender = elim p.from [ [] ↦ sender | c ∷ from ↦ c ∷ from ]

-- The row of a mail that was parsed.
unfoldable pub parsed_row : InboundMail → ParsedMail → Text → IngestIds → MessageRow
unfolding normalize_message_id normal_ids
parsed_row mail p thread_id ids = record {
  id = ids.message_local_id;
  idempotency_key = mail.idempotency_key;
  thread_id = thread_id;
  rfc_message_id = mail.message_id;
  in_reply_to = or_else (normalize_message_id p.in_reply_to) mail.in_reply_to;
  references = normal_ids p.references;
  direction = inbound;
  state = inbox;
  from_addr = sender_of p mail.sender;
  to = recipients_of p mail.recipient;
  cc = p.cc;
  bcc = [];
  subject = or_else p.subject mail.subject;
  snippet = some p.snippet;
  received_at = mail.received_at;
  raw_sha256 = mail.raw_sha256;
  body_text = p.text;
  body_html_r2_key = p.html_key;
  is_read = false;
  updated_at = ids.now;
}

-- The row of a mail whose parsing or storing failed; what was parsed before the error is used. Its
-- snippet is the empty text.
unfoldable pub failed_row : InboundMail → Option ParsedMail → IngestIds → MessageRow
unfolding normalize_message_id normal_ids
failed_row mail none ids = record {
  id = ids.message_local_id;
  idempotency_key = mail.idempotency_key;
  thread_id = ids.new_thread_id;
  rfc_message_id = mail.message_id;
  in_reply_to = mail.in_reply_to;
  references = mail.references;
  direction = inbound;
  state = inbox;
  from_addr = mail.sender;
  to = mail.recipient ∷ [];
  cc = [];
  bcc = [];
  subject = mail.subject;
  snippet = some [];
  received_at = mail.received_at;
  raw_sha256 = mail.raw_sha256;
  body_text = none;
  body_html_r2_key = none;
  is_read = false;
  updated_at = ids.now;
}
failed_row mail (some p) ids = record {
  id = ids.message_local_id;
  idempotency_key = mail.idempotency_key;
  thread_id = ids.new_thread_id;
  rfc_message_id = mail.message_id;
  in_reply_to = or_else (normalize_message_id p.in_reply_to) mail.in_reply_to;
  references = normal_ids p.references;
  direction = inbound;
  state = inbox;
  from_addr = sender_of p mail.sender;
  to = recipients_of p mail.recipient;
  cc = [];
  bcc = [];
  subject = or_else p.subject mail.subject;
  snippet = some [];
  received_at = mail.received_at;
  raw_sha256 = mail.raw_sha256;
  body_text = none;
  body_html_r2_key = none;
  is_read = false;
  updated_at = ids.now;
}

abbrev pub event_of : InboundMail → IngestIds → Option Text → IngestRow
event_of mail ids error = record {
  idempotency_key = mail.idempotency_key;
  raw_r2_key = mail.raw_r2_key;
  raw_sha256 = mail.raw_sha256;
  message_local_id = some ids.message_local_id;
  error = error;
  created_at = ids.now;
}
