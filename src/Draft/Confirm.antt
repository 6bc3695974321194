-- ===== src/Draft/Confirm.antt =====
-- src/do/mailbox-do.ts: confirmSendDraft, in two halves. The call gives up control at the provider's
-- answer: `begin_confirm` is what it does before, `settle_confirm` what it does after.
use reccado.Prelude.{
  ℕ, ◌+◌, Bool, true, false, not, Option, none, some, List, [], ◌∷◌, ◌++◌, find, update_where,
  delete_where, length, ltb, if◌then◌else◌,
}
use reccado.Text.{Text, ascii, ◌===◌}
use reccado.ApiKey.{Instant}
use reccado.Header.{
  non_empty, normalize_message_id, build_references, message_id_header, references_header,
}
use reccado.Identity.{SenderIdentity}
use reccado.Inbox.{Inbox, DraftRow, DraftStatus, MessageRow, MetaRow, MetaValue}
use reccado.Draft.{DraftError, draft_not_found, find_draft, value_or}
use reccado.Draft.Thread.{truthy, find_thread_parent}

-- The texts of `status` in an answer.
pub data ReplyStatus : Type 0 where
  draft pending_confirmation sent cancelled sending failed unknown : ReplyStatus

abbrev pub draft_reply_status : DraftStatus → ReplyStatus
draft_reply_status DraftStatus.draft = draft
draft_reply_status DraftStatus.pending_confirmation = pending_confirmation
draft_reply_status DraftStatus.sent = sent
draft_reply_status DraftStatus.cancelled = cancelled

pub data ConfirmError : Type 0 where
  ambiguous : ConfirmError
  too_many_recipients : ℕ → ConfirmError

-- What `confirmSendDraft` answers. A flag that is left out is false, any other field `none`; the fields that
-- repeat columns of the sent copy's row are that row, `copy`.
pub record ConfirmReply : Type 0 where
  pub id : Text
  pub status : ReplyStatus
  pub sent : Bool
  pub duplicate : Bool
  pub error : Option ConfirmError
  pub reason : Option Text
  pub provider_message_id : Option Text
  pub message_local_id : Option Text
  pub thread_id : Option Text
  pub copy : Option MessageRow

abbrev pub plain_reply : Text → ReplyStatus → ConfirmReply
plain_reply draft_id status = record {
  id = draft_id;
  status = status;
  sent = false;
  duplicate = false;
  error = none;
  reason = none;
  provider_message_id = none;
  message_local_id = none;
  thread_id = none;
  copy = none;
}

-- A call ends with an answer, or throws its own error or the provider's, which is its message.
pub data ConfirmResult : Type 0 where
  replied : ConfirmReply → ConfirmResult
  thrown : DraftError → ConfirmResult
  provider_threw : Text → ConfirmResult

unfoldable pub find_meta : Inbox → Text → Option MetaRow
unfolding find ◌===◌
find_meta m key = find (λ row. row.key === key) m.mailbox_meta

unfoldable pub insert_meta : Text → MetaValue → Instant → Inbox → Inbox
insert_meta key value now m = record m {
  mailbox_meta = m.mailbox_meta ++ record { key = key; value = value; updated_at = now } ∷ [];
}

unfoldable pub set_meta : Text → MetaValue → Instant → Inbox → Inbox
unfolding update_where ◌===◌
set_meta key value now m = record m {
  mailbox_meta =
      update_where (λ row. row.key === key) (λ row. record row { value = value; updated_at = now })
        m.mailbox_meta;
}

unfoldable pub delete_meta : Text → Inbox → Inbox
unfolding delete_where ◌===◌
delete_meta key m = record m { mailbox_meta = delete_where (λ row. row.key === key) m.mailbox_meta }

-- `draft_sending:…`
unfoldable pub draft_gate : Text → Text
draft_gate draft_id = ascii "draft_sending:" ++ draft_id

-- `readSendMarker` and the early returns on a marker; a text that is none of ours is a completed send.
unfoldable pub marker_reply : Text → MetaValue → ConfirmReply
marker_reply draft_id (MetaValue.failed e) = record (plain_reply draft_id failed) {
  duplicate = true;
  error = some ambiguous;
  reason = some (value_or e (ascii "ambiguous"));
}
marker_reply draft_id (MetaValue.unknown e) = record (plain_reply draft_id unknown) {
  duplicate = true;
  error = some ambiguous;
  reason = some (value_or e (ascii "unknown"));
}
marker_reply draft_id MetaValue.sending = record (plain_reply draft_id sending) {
  duplicate = true;
  reason = some (ascii "send_in_progress");
}
marker_reply draft_id (MetaValue.sent id) = record (plain_reply draft_id sent) {
  duplicate = true;
  provider_message_id = id;
}
marker_reply draft_id (MetaValue.text s) = record (plain_reply draft_id sent) { duplicate = true }

-- A call that waits for the provider.
pub record Flight : Type 0 where
  pub draft : DraftRow
  pub key : Text
  pub thread_id : Text
  pub in_reply_to : Option Text
  pub references : List Text
  pub identity : SenderIdentity
  pub now : Instant

-- The argument of `email.send`; an empty `cc` or `bcc` is left out.
pub record DraftEmail : Type 0 where
  pub from : Text
  pub from_name : Option Text
  pub to : List Text
  pub cc : List Text
  pub bcc : List Text
  pub reply_to : Option Text
  pub subject : Text
  pub text : Option Text
  pub html : Option Text
  pub in_reply_to : Option Text
  pub references : Option Text

abbrev pub reply_header : Option Text → Option Text
reply_header none = none
reply_header (some id) = some (message_id_header id)

abbrev pub references_of : Option Text → List Text → Option Text
references_of none references = none
references_of (some id) references = some (references_header references)

unfoldable pub email_of : Flight → DraftEmail
unfolding non_empty message_id_header references_header
email_of f = record {
  from = f.identity.from;
  from_name = truthy f.identity.from_name;
  to = f.draft.to;
  cc = f.draft.cc;
  bcc = f.draft.bcc;
  reply_to = f.identity.reply_to;
  subject = f.draft.subject;
  text = f.draft.body_text;
  html = f.draft.body_html;
  in_reply_to = reply_header f.in_reply_to;
  references = references_of f.in_reply_to f.references;
}

pub data Begun : Type 0 where
  done : ConfirmResult → Begun
  departed : Flight → Begun

unfoldable pub recipient_count : DraftRow → ℕ
recipient_count d = length d.to + length d.cc + length d.bcc

abbrev pub max_recipients : ℕ
max_recipients = 50

unfoldable pub normal_ids : List Text → List Text
normal_ids [] = []
normal_ids (s ∷ ids) =
    let rest = normal_ids ids in
    elim (normalize_message_id (some s)) [ none ↦ rest | some id ↦ id ∷ rest ]

-- The threading of the mail, from the message it answers.
abbrev pub flight_for :
    DraftRow → Text → Text → SenderIdentity → Instant → Option MessageRow → Flight
flight_for d key new_thread_id identity now none = record {
  draft = d;
  key = key;
  thread_id = value_or d.thread_id new_thread_id;
  in_reply_to = none;
  references = [];
  identity = identity;
  now = now;
}
flight_for d key new_thread_id identity now (some parent) = record {
  draft = d;
  key = key;
  thread_id = value_or d.thread_id new_thread_id;
  in_reply_to = normalize_message_id parent.rfc_message_id;
  references =
      build_references (normal_ids parent.references) (normalize_message_id parent.rfc_message_id);
  identity = identity;
  now = now;
}

-- The two INSERTs before the send. The marker's row is absent here; a gate that another key holds
-- makes the second one fail, and the marker goes again.
unfoldable pub claim_gate : Flight → Instant → Inbox → Inbox × Begun
unfolding find_meta insert_meta delete_meta draft_gate
claim_gate f claimed_at m =
    let marked = insert_meta f.key MetaValue.sending f.now m in
    elim (find_meta marked (draft_gate f.draft.id)) [
      | some gate ↦ (
        delete_meta f.key marked,
        done (
            replied (record (plain_reply f.draft.id sent) {
              duplicate = true;
              reason = some (ascii "already_sending");
            })),
      )
      | none ↦
          (insert_meta (draft_gate f.draft.id) (MetaValue.text f.key) claimed_at marked, departed f)
    ]

abbrev pub is_pending : DraftStatus → Bool
is_pending DraftStatus.pending_confirmation = true
is_pending _ = false

unfoldable pub confirm_unmarked :
    SenderIdentity → DraftRow → Text → Text → Instant → Instant → Inbox → Inbox × Begun
unfolding recipient_count
confirm_unmarked identity d key new_thread_id now claimed_at m =
    if not (is_pending d.status)
    then (
      m,
      done (
          replied (record (plain_reply d.id (draft_reply_status d.status)) {
            reason = some (ascii "not_pending_confirmation");
          })),
    )
    else if ltb max_recipients (recipient_count d)
    then (
      m,
      done (
          replied (record (plain_reply d.id (draft_reply_status d.status)) {
            error = some (too_many_recipients (recipient_count d));
          })),
    )
    else claim_gate
        (flight_for d key new_thread_id identity now
          (find_thread_parent m d.thread_id d.parent_message_id))
        claimed_at m

-- `confirmSendDraft`, up to `email.send`
unfoldable pub begin_confirm :
    SenderIdentity → Text → Text → Text → Instant → Instant → Inbox → Inbox × Begun
begin_confirm identity draft_id key new_thread_id now claimed_at m = elim (find_draft m draft_id) [
  | none ↦ (m, done (thrown draft_not_found))
  | some d ↦ elim (find_meta m key) [
    | some marker ↦ (m, done (replied (marker_reply draft_id marker.value)))
    | none ↦ confirm_unmarked identity d key new_thread_id now claimed_at m
  ]
]
