-- ===== src/Ingest.antt =====
-- src/do/mailbox-ingest.ts: ingestInboundEmail, in two halves, and applyMessageAction of
-- src/do/mailbox-do.ts. The call gives up control while it reads and parses the raw mail:
-- `check_ingest` is what it does before, `commit_ingest` what it does after.
pub mod Rows
pub mod Repeated
pub mod Subject
pub mod Threading
use reccado.Ingest.Rows.{
  InboundMail, ParsedMail, Parse, IngestIds, recipients_of, sender_of, parsed_row, failed_row,
  event_of, parsed, failed,
}
use reccado.Prelude.{
  is_some, ℕ, suc, Bool, true, false, ◌&&◌, ◌||◌, not, Option, none, some, List, [], ◌∷◌, ◌++◌, any,
  map, find, update_where, length, if◌then◌else◌,
}
use reccado.Text.{Text, ascii, ◌===◌, to_lower, includes}
use reccado.ApiKey.{Instant}
use reccado.Header.{normalize_message_id}
use reccado.Mime.{normalize_subject}
use reccado.Inbox.{
  Inbox, MessageRow, MessageState, inbox, archive, trash, ThreadRow, IngestRow, ContactRow, inbound,
}
use reccado.Draft.{value_or, or_else}
use reccado.Draft.Confirm.{normal_ids}
use reccado.Draft.Settle.{has_thread_id, find_thread, clashes, add_message, record_realtime_event}
use reccado.Ingest.Threading.{ThreadInput, text_of, resolve_thread_id}

pub data IngestStatus : Type 0 where
  inserted duplicate conflict : IngestStatus

pub record IngestResult : Type 0 where
  pub status : IngestStatus
  pub message_count : ℕ
  pub message_local_id : Text
  pub thread_id : Option Text

unfoldable pub find_ingest : Inbox → Text → Option IngestRow
unfolding find ◌===◌
find_ingest m key = find (λ row. row.idempotency_key === key) m.ingest_events

abbrev pub result : IngestStatus → Inbox → Text → Option Text → IngestResult
result status m local_id thread_id = record {
  status = status;
  message_count = length m.messages;
  message_local_id = local_id;
  thread_id = thread_id;
}

-- `row.raw_sha256 && row.raw_sha256 !== message.rawSha256`
abbrev pub differs : Text → Text → Bool
differs stored raw_sha256 = not (stored === []) && not (stored === raw_sha256)

abbrev pub duplicate_of : Inbox → Option Text → Option IngestResult
duplicate_of m none = none
duplicate_of m (some []) = none
duplicate_of m (some (c ∷ id)) = some (result duplicate m (c ∷ id) none)

-- `ingestInboundEmail`, up to the reading of the raw mail: an answer, or none to go on.
unfoldable pub check_ingest : Inbox → InboundMail → Option IngestResult
unfolding find_ingest
check_ingest m mail = elim (find_ingest m mail.idempotency_key) [
  | none ↦ none
  | some row ↦
      if differs row.raw_sha256 mail.raw_sha256
      then some (result conflict m [] none)
      else duplicate_of m row.message_local_id
]

-- `resolveConcurrentIdempotencyConflict`
unfoldable pub resolve_concurrent : Inbox → InboundMail → IngestResult
unfolding find_ingest
resolve_concurrent m mail = elim (find_ingest m mail.idempotency_key) [
  | none ↦ result conflict m [] none
  | some row ↦
      if differs row.raw_sha256 mail.raw_sha256
      then result conflict m [] none
      else result duplicate m (text_of row.message_local_id) none
]

-- `INSERT INTO threads … ON CONFLICT(id) DO UPDATE`, for a message that is not read yet
unfoldable pub bump_unread_thread : Text → Option Text → Instant → Instant → Inbox → Inbox
unfolding find_thread update_where
bump_unread_thread id subject_norm last_message_at now m = elim (find_thread m id) [
  | some t ↦ record m {
    threads =
        update_where (has_thread_id id)
          (λ t. record t {
            last_message_at = last_message_at;
            message_count = suc t.message_count;
            unread_count = suc t.unread_count;
            updated_at = now;
          })
          m.threads;
  }
  | none ↦ record m {
    threads =
        m.threads
        ++ record {
          id = id;
          subject_norm = subject_norm;
          last_message_at = last_message_at;
          message_count = 1;
          unread_count = 1;
          created_at = now;
          updated_at = now;
        }
          ∷ [];
  }
]

unfoldable pub add_ingest_event : IngestRow → Inbox → Inbox
add_ingest_event row m = record m { ingest_events = m.ingest_events ++ row ∷ [] }

-- `bumpContact`
unfoldable pub bump_contact : Text → Instant → Inbox → Inbox
unfolding find update_where ◌===◌
bump_contact email now m = elim (find (λ c. c.email === email) m.contacts) [
  | some c ↦ record m {
    contacts =
        update_where (λ c. c.email === email)
          (λ c. record c { last_seen_at = now; message_count = suc c.message_count }) m.contacts;
  }
  | none ↦ record m {
    contacts = m.contacts ++ record { email = email; last_seen_at = now; message_count = 1 } ∷ [];
  }
]

abbrev pub thread_input : InboundMail → ParsedMail → ThreadInput
thread_input mail p = record {
  in_reply_to = or_else (normalize_message_id p.in_reply_to) mail.in_reply_to;
  references = normal_ids p.references;
  subject_norm = normalize_subject (or_else p.subject mail.subject);
  from_addr = sender_of p mail.sender;
  recipients = recipients_of p mail.recipient ++ p.cc;
  delivered_to = mail.recipient;
  received_at = mail.received_at;
}

-- Whether an INSERT of the transaction meets a row with its primary key or its unique key.
unfoldable pub violates : Inbox → InboundMail → MessageRow → Bool
unfolding any find_ingest ◌===◌
violates m mail row = any (clashes row) m.messages || is_some (find_ingest m mail.idempotency_key)

-- The transaction for a mail that was parsed.
unfoldable pub store_parsed : InboundMail → ParsedMail → IngestIds → Inbox → Inbox × IngestResult
unfolding resolve_thread_id parsed_row violates resolve_concurrent bump_unread_thread add_message
    add_ingest_event bump_contact record_realtime_event normalize_subject
store_parsed mail p ids m =
    let thread_id = resolve_thread_id m (thread_input mail p) ids.new_thread_id in
    let row = parsed_row mail p thread_id ids in
    if violates m mail row
    then (m, resolve_concurrent m mail)
    else (let n = record_realtime_event row.id thread_id (
          bump_contact row.from_addr ids.now (
            add_ingest_event (event_of mail ids none) (
              add_message row (
                bump_unread_thread thread_id (normalize_subject row.subject) mail.received_at
                  ids.now m)))) in
        (n, result inserted n row.id (some thread_id)))

-- The transaction for a mail that was not parsed, in a new thread without a subject.
unfoldable pub store_failed :
    InboundMail → Option ParsedMail → Text → IngestIds → Inbox → Inbox × IngestResult
unfolding failed_row violates resolve_concurrent bump_unread_thread add_message add_ingest_event
    find_thread
store_failed mail p message ids m =
    let row = failed_row mail p ids in
    if is_some (find_thread m ids.new_thread_id) || violates m mail row
    then (m, resolve_concurrent m mail)
    else (let n = add_ingest_event (event_of mail ids (some message)) (
          add_message row (bump_unread_thread ids.new_thread_id none mail.received_at ids.now m)) in
        (n, result inserted n row.id (some ids.new_thread_id)))

-- `isUniqueConstraintViolation`
unfoldable pub is_unique_constraint_violation : Text → Bool
unfolding includes to_lower
is_unique_constraint_violation message =
    includes (to_lower message) (ascii "unique") && includes (to_lower message) (ascii "constraint")

-- `ingestInboundEmail`, from the parsed mail on
unfoldable pub commit_ingest : InboundMail → Parse → IngestIds → Inbox → Inbox × IngestResult
unfolding store_parsed store_failed is_unique_constraint_violation resolve_concurrent
commit_ingest mail (parsed p) ids m = store_parsed mail p ids m
commit_ingest mail (failed p message) ids m =
    if is_unique_constraint_violation message
    then (m, resolve_concurrent m mail)
    else store_failed mail p message ids m

-- The actions that a user can take on a message; the code does nothing on any other text.
pub data MessageAction : Type 0 where
  mark_read mark_unread to_archive to_trash restore_inbox : MessageAction

abbrev pub acted : MessageAction → Instant → MessageRow → MessageRow
acted mark_read now r = record r { is_read = true; updated_at = now }
acted mark_unread now r = record r { is_read = false; updated_at = now }
acted to_archive now r = record r { state = archive; updated_at = now }
acted to_trash now r = record r { state = trash; updated_at = now }
acted restore_inbox now r = record r { state = inbox; updated_at = now }

-- `applyMessageAction`
unfoldable pub apply_message_action : Text → MessageAction → Instant → Inbox → Inbox
unfolding update_where ◌===◌
apply_message_action message_id action now m = record m {
  messages = update_where (λ r. r.id === message_id) (acted action now) m.messages;
}

-- `messageCount`
unfoldable pub message_count : Inbox → ℕ
message_count m = length m.messages
