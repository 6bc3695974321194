-- ===== src/Draft/Settle.antt =====
-- src/do/mailbox-do.ts: confirmSendDraft, from the provider's answer on.
use reccado.Prelude.{
  ℕ, suc, Bool, true, ◌||◌, Option, none, some, List, [], ◌∷◌, ◌++◌, any, take, find, update_where,
  if◌then◌else◌, ltb,
}
use reccado.Text.{Text, ascii, ◌===◌}
use reccado.ApiKey.{Instant}
use reccado.Dispatch.{
  ProviderReply, error_with_message, extract_provider_message_id, is_ambiguous_provider_error,
}
use reccado.Header.{normalize_message_id}
use reccado.Mime.{normalize_subject}
use reccado.Inbox.{
  Inbox, RealtimeRow, DraftRow, DraftStatus, MessageRow, MessageState, ThreadRow, MetaValue,
  outbound,
}
use reccado.Draft.{constraint_failed, update_drafts, with_status, value_or}
use reccado.Draft.Confirm.{
  ReplyStatus, ConfirmReply, ConfirmResult, replied, thrown, provider_threw, ambiguous, plain_reply,
  Flight, draft_gate, set_meta, delete_meta,
}

-- What `email.send` throws. `AmbiguousSendError` has a message too.
pub data SendError : Type 0 where
  ambiguous_send_error : Text → SendError
  error : Text → SendError
  not_an_error : SendError

-- `error instanceof AmbiguousSendError || isAmbiguousProviderError(error)`
unfoldable pub is_ambiguous : SendError → Bool
is_ambiguous (ambiguous_send_error message) = true
is_ambiguous (error message) = is_ambiguous_provider_error (error_with_message message)
is_ambiguous not_an_error = true

-- `error instanceof Error ? error.message : "send_failed"`
unfoldable pub error_message : SendError → Text
error_message (ambiguous_send_error message) = message
error_message (error message) = message
error_message not_an_error = ascii "send_failed"

pub data SendOutcome : Type 0 where
  returned : ProviderReply → SendOutcome
  threw : SendError → SendOutcome

-- What the end of a call takes from outside: a new id, the readings of the clock, the key under
-- which the HTML went to R2, if it did, and the digest of what was sent.
pub record Ending : Type 0 where
  pub message_local_id : Text
  pub failed_at : Instant
  pub body_html_r2_key : Option Text
  pub raw_sha256 : Text

abbrev pub max_snippet : ℕ
max_snippet = 200

-- `(draft.body_text ?? draft.subject).slice(0, 200)`
unfoldable pub draft_snippet : DraftRow → Text
draft_snippet d = take max_snippet (value_or d.body_text d.subject)

-- The row of `messages` for the sent copy.
unfoldable pub sent_copy : Flight → Option Text → Ending → MessageRow
sent_copy f provider_message_id e = record {
  id = e.message_local_id;
  idempotency_key = f.key;
  thread_id = f.thread_id;
  rfc_message_id = normalize_message_id provider_message_id;
  in_reply_to = f.in_reply_to;
  references = f.references;
  direction = outbound;
  state = MessageState.sent;
  from_addr = f.identity.from;
  to = f.draft.to;
  cc = f.draft.cc;
  bcc = f.draft.bcc;
  subject = some f.draft.subject;
  snippet = some (draft_snippet f.draft);
  received_at = f.now;
  raw_sha256 = e.raw_sha256;
  body_text = f.draft.body_text;
  body_html_r2_key = e.body_html_r2_key;
  is_read = true;
  updated_at = f.now;
}

abbrev pub has_thread_id : Text → ThreadRow → Bool
has_thread_id id t = t.id === id

unfoldable pub find_thread : Inbox → Text → Option ThreadRow
unfolding find ◌===◌
find_thread m id = find (has_thread_id id) m.threads

-- `INSERT INTO threads … ON CONFLICT(id) DO UPDATE`, for a message that is read already
unfoldable pub bump_thread : Text → Option Text → Instant → Instant → Inbox → Inbox
unfolding find_thread update_where
bump_thread id subject_norm last_message_at now m = elim (find_thread m id) [
  | some t ↦ record m {
    threads =
        update_where (has_thread_id id)
          (λ t. record t {
            last_message_at = last_message_at;
            message_count = suc t.message_count;
            updated_at = now;
          })
          m.threads;
  }
  | none ↦ record m {
    threads =
        m.threads
        ++ record {
          id = id;
          subject_norm = subject_norm;
          last_message_at = last_message_at;
          message_count = 1;
          unread_count = 0;
          created_at = now;
          updated_at = now;
        }
          ∷ [];
  }
]

-- `COALESCE(MAX(seq), 0)`
unfoldable pub last_seq : List RealtimeRow → ℕ
last_seq [] = 0
last_seq (row ∷ rows) = let rest = last_seq rows in if ltb rest row.seq then row.seq else rest

-- `recordRealtimeEvent`
unfoldable pub record_realtime_event : Text → Text → Inbox → Inbox
unfolding last_seq
record_realtime_event message_id thread_id m = record m {
  realtime_events =
      m.realtime_events
      ++ record {
        seq = suc (last_seq m.realtime_events);
        message_id = message_id;
        thread_id = thread_id;
      }
        ∷ [];
}

-- The primary key and the unique idempotency key of `messages`.
abbrev pub clashes : MessageRow → MessageRow → Bool
clashes row other = row.id === other.id || row.idempotency_key === other.idempotency_key

unfoldable pub add_message : MessageRow → Inbox → Inbox
add_message row m = record m { messages = m.messages ++ row ∷ [] }

abbrev pub sent_answer : Flight → Option Text → Ending → MessageRow → ConfirmReply
sent_answer f provider_message_id e row = record (plain_reply f.draft.id ReplyStatus.sent) {
  sent = true;
  provider_message_id = provider_message_id;
  message_local_id = some e.message_local_id;
  thread_id = some f.thread_id;
  copy = some row;
}

abbrev pub doubt_answer : Flight → Text → ConfirmReply
doubt_answer f message = record (plain_reply f.draft.id ReplyStatus.failed) {
  error = some ambiguous;
  reason = some message;
}

-- The transaction after a send, the event for the clients, and the answer. A row of `messages` that clashes undoes it all.
unfoldable pub record_sent : Flight → Option Text → Ending → Inbox → Inbox × ConfirmResult
unfolding set_meta update_drafts delete_meta bump_thread add_message sent_copy draft_gate
    normalize_subject record_realtime_event
record_sent f provider_message_id e m =
    let row = sent_copy f provider_message_id e in
    if any (clashes row) m.messages then (m, thrown constraint_failed) else (
      record_realtime_event row.id f.thread_id (
          add_message row (
            bump_thread f.thread_id (normalize_subject (some f.draft.subject)) f.now f.now (
              delete_meta (draft_gate f.draft.id) (
                update_drafts f.draft.id (with_status DraftStatus.sent f.now)
                  (set_meta f.key (MetaValue.sent provider_message_id) f.now m))))),
      replied (sent_answer f provider_message_id e row),
    )

-- The provider may have taken the message: the marker says so, and the gate stays.
unfoldable pub record_doubt : Flight → Text → Instant → Inbox → Inbox × ConfirmResult
record_doubt f message failed_at m = (
  set_meta f.key (MetaValue.unknown (some message)) failed_at m,
  replied (record (plain_reply f.draft.id ReplyStatus.failed) {
    error = some ambiguous;
    reason = some message;
  }),
)

-- The provider did not take it: the marker and the gate go, and the error goes on to the caller.
unfoldable pub record_refusal : Flight → Text → Inbox → Inbox × ConfirmResult
record_refusal f message m =
    (delete_meta (draft_gate f.draft.id) (delete_meta f.key m), provider_threw message)

-- `confirmSendDraft`, from `email.send` on
unfoldable pub settle_confirm : Flight → SendOutcome → Ending → Inbox → Inbox × ConfirmResult
settle_confirm f (returned reply) e m = record_sent f (extract_provider_message_id reply) e m
settle_confirm f (threw failure) e m =
    if is_ambiguous failure
    then record_doubt f (error_message failure) e.failed_at m
    else record_refusal f (error_message failure) m
