-- ===== src/Mail/Counted.antt =====
-- src/do/mailbox-do.ts and src/do/mailbox-ingest.ts: every operation keeps the counters of the threads.
use reccado.Prelude.{
  is_some, ◌+◌, ◌≡◌, refl, sym, ◌∙◌, ap, Bool, ◌||◌, Option, none, some, List, [], ◌∷◌, ◌++◌, any,
  arith, Option-cases, Bool-cases, inl, inr, update_where, keep, find,
}
use reccado.Text.{Text, ascii, ◌===◌}
use reccado.ApiKey.{Instant}
use reccado.Header.{outbound_send_idempotency_key}
use reccado.Mime.{normalize_subject}
use reccado.Inbox.{Inbox, DraftStatus, MessageRow, MetaValue, empty}
use reccado.Draft.{
  DraftInput, add_draft, create_draft, update_drafts, update_draft, request_send_draft,
  cancel_draft, with_status,
}
use reccado.Draft.Thread.{resolve_reply_identity}
use reccado.Draft.Confirm.{Begun, Flight, insert_meta, set_meta, delete_meta, draft_gate}
use reccado.Draft.Begin.{Beginning, stays, departs, begin_confirm-Beginning}
use reccado.Draft.Settle.{
  SendOutcome, returned, threw, Ending, is_ambiguous, sent_copy, clashes, add_message,
  record_realtime_event, bump_thread, record_sent, record_doubt, record_refusal, settle_confirm,
  find_thread,
}
use reccado.Draft.Flights.{
  System, Operation, create, edit, request_send, cancel, confirm, settle, ConfirmRequest, started,
  apply, after_begin, flight_at, address_candidate, name_candidate, put_meta, remember,
  confirm_send, resolve_mailbox_address, resolve_mailbox_display_name,
}
use reccado.Ingest.{
  MessageAction, acted, violates, thread_input, bump_unread_thread, add_ingest_event, bump_contact,
  store_parsed, store_failed, is_unique_constraint_violation, commit_ingest, apply_message_action,
}
use reccado.Ingest.Rows.{
  InboundMail, ParsedMail, Parse, parsed, failed, IngestIds, event_of, parsed_row, failed_row,
}
use reccado.Ingest.Threading.{resolve_thread_id}
use reccado.Mail.{
  MailStep, draft_step, receive, act, apply_step, apply_steps, thread_count, messages_in,
}
use reccado.Mail.Counters.{
  IsCounted, one_if, bump_thread-counts, bump_unread_thread-counts, messages_in-append, same-count,
  same-IsCounted,
}

-- Nothing of the threads or of the messages changes.
abbrev Quiet : Inbox → Inbox → Type 0
Quiet m n = (n.threads ≡ m.threads) × (n.messages ≡ m.messages)

put_meta-Quiet :
    (key : Text) (value : MetaValue) (now : Instant) (m : Inbox)
    → Quiet m (put_meta key value now m)
unfolding put_meta set_meta insert_meta
put_meta-Quiet key value now m = ground arith

remember-Quiet :
    (key : Text) (s : Option Text) (now : Instant) (m : Inbox) → Quiet m (remember key s now m).0
remember-Quiet key none now m = (refl, refl)
remember-Quiet key (some s) now m = put_meta-Quiet key _ now m

create-Quiet :
    (body : DraftInput) (id : Text) (now : Instant) (m : Inbox)
    → Quiet m (create_draft body id now m).0
unfolding create_draft add_draft
create-Quiet body id now m = ground arith

edit-Quiet :
    (id : Text) (body : DraftInput) (now : Instant) (m : Inbox)
    → Quiet m (update_draft id body now m).0
unfolding update_draft update_drafts
edit-Quiet id body now m = ground arith

request-Quiet : (id : Text) (now : Instant) (m : Inbox) → Quiet m (request_send_draft id now m).0
unfolding request_send_draft update_drafts
request-Quiet id now m = ground arith

begin-Quiet :
    (id key : Text) (at : Instant) (m : Inbox) (answer : Inbox × Begun) (s : System)
    → Beginning id key at m answer
    → Quiet m (after_begin s answer).inbox
unfolding insert_meta
begin-Quiet id key at m answer s (stays r e) = rw e (refl, refl)
begin-Quiet id key at m answer s (departs f n e dep) = rw (e, dep.claims) (refl, refl)

-- A message is added, and its thread counts one more.
added-IsCounted :
    (m n : Inbox) (row : MessageRow)
    → ((id : Text) → thread_count n id ≡ thread_count m id + one_if (row.thread_id === id))
    → n.messages ≡ m.messages ++ row ∷ []
    → IsCounted m
    → IsCounted n
added-IsCounted m n row counts messages counted id = omega (
  arith,
  counts id,
  counted id,
  ap (messages_in id) messages,
  messages_in-append id m.messages row,
)

bump_thread-messages :
    (id : Text) (subject : Option Text) (at now : Instant) (m : Inbox)
    → (bump_thread id subject at now m).messages ≡ m.messages
unfolding bump_thread
bump_thread-messages id subject at now m = ground arith

bump_unread_thread-messages :
    (id : Text) (subject : Option Text) (at now : Instant) (m : Inbox)
    → (bump_unread_thread id subject at now m).messages ≡ m.messages
unfolding bump_unread_thread
bump_unread_thread-messages id subject at now m = ground arith

bump_contact-Quiet : (email : Text) (now : Instant) (m : Inbox) → Quiet m (bump_contact email now m)
unfolding bump_contact
bump_contact-Quiet email now m = ground arith

sent-IsCounted :
    (f : Flight) (id : Option Text) (e : Ending) (m : Inbox)
    → IsCounted m
    → IsCounted (record_sent f id e m).0
unfolding record_sent add_message record_realtime_event delete_meta update_drafts set_meta sent_copy
sent-IsCounted f id e m counted = elim (Bool-cases (any (clashes (sent_copy f id e)) m.messages)) [
  | inl h ↦ rw (h, record_sent) counted
  | inr h ↦
      let m3 : Inbox = delete_meta (draft_gate f.draft.id) (
        update_drafts f.draft.id (with_status DraftStatus.sent f.now)
          (set_meta f.key (MetaValue.sent id) f.now m)) in
      let subject : Option Text = normalize_subject (some f.draft.subject) in
      rw (h, record_sent)
        (added-IsCounted m _ (sent_copy f id e)
          (λ other.
            same-count (bump_thread f.thread_id subject f.now f.now m3) _ other refl
            ∙ bump_thread-counts f.thread_id subject f.now f.now m3 other
            ∙ ap (λ n. n + one_if (f.thread_id === other)) (same-count m m3 other refl))
          (ap (λ rows. rows ++ sent_copy f id e ∷ [])
            (bump_thread-messages f.thread_id subject f.now f.now m3))
          counted)
]

settle-IsCounted :
    (f : Flight) (outcome : SendOutcome) (e : Ending) (m : Inbox)
    → IsCounted m
    → IsCounted (settle_confirm f outcome e m).0
unfolding settle_confirm record_doubt record_refusal set_meta delete_meta
settle-IsCounted f (returned reply) e m counted = sent-IsCounted f _ e m counted
settle-IsCounted f (threw failure) e m counted = elim (Bool-cases (is_ambiguous failure)) [
  | inl h ↦ rw (h, settle_confirm) (same-IsCounted m _ refl refl counted)
  | inr h ↦ rw (h, settle_confirm) (same-IsCounted m _ refl refl counted)
]

confirm-Quiet :
    (r : ConfirmRequest) (id key : Text) (s : System)
    → Quiet s.inbox (after_begin s (confirm_send r id key s.inbox)).inbox
unfolding confirm_send resolve_mailbox_address resolve_mailbox_display_name
confirm-Quiet r id key s =
    let (m1, address) = resolve_mailbox_address r.mailbox_address r.now s.inbox in
    let (m2, name) = resolve_mailbox_display_name r.display_name r.now m1 in
    let a =
      remember-Quiet (ascii "primary_address") (address_candidate r.mailbox_address) r.now
        s.inbox in
    let b = remember-Quiet (ascii "display_name") (name_candidate r.display_name) r.now m1 in
    let c = begin-Quiet id key r.claimed_at m2 _ s (
      begin_confirm-Beginning id key r.claimed_at m2
        (resolve_reply_identity r.env m2 id address name) r.new_thread_id r.now) in
    (c.0 ∙ b.0 ∙ a.0, c.1 ∙ b.1 ∙ a.1)

draft-IsCounted : (o : Operation) (s : System) → IsCounted s.inbox → IsCounted (apply o s).inbox
unfolding apply cancel_draft update_drafts
draft-IsCounted (create body id now) s c =
    let q = create-Quiet body id now s.inbox in same-IsCounted s.inbox _ q.0 q.1 c
draft-IsCounted (edit id body now) s c =
    let q = edit-Quiet id body now s.inbox in same-IsCounted s.inbox _ q.0 q.1 c
draft-IsCounted (request_send id now) s c =
    let q = request-Quiet id now s.inbox in same-IsCounted s.inbox _ q.0 q.1 c
draft-IsCounted (cancel id now) s c = same-IsCounted s.inbox _ refl refl c
draft-IsCounted (confirm r id attempt_key) s c =
    let q = confirm-Quiet r id (outbound_send_idempotency_key id attempt_key) s in
    same-IsCounted s.inbox _ q.0 q.1 c
draft-IsCounted (settle n outcome e) s c = elim (Option-cases (flight_at n s.in_flight)) [
  | inl gone ↦ rw gone c
  | inr (f, at) ↦ rw at (settle-IsCounted f outcome e s.inbox c)
]

parsed-IsCounted :
    (mail : InboundMail) (p : ParsedMail) (ids : IngestIds) (m : Inbox)
    → IsCounted m
    → IsCounted (store_parsed mail p ids m).0
unfolding store_parsed add_message add_ingest_event record_realtime_event parsed_row
parsed-IsCounted mail p ids m counted =
    let thread_id : Text = resolve_thread_id m (thread_input mail p) ids.new_thread_id in
    let row : MessageRow = parsed_row mail p thread_id ids in
    let subject : Option Text = normalize_subject row.subject in
    let m1 : Inbox = bump_unread_thread thread_id subject mail.received_at ids.now m in
    let m2 : Inbox = add_ingest_event (event_of mail ids none) (add_message row m1) in
    let quiet = bump_contact-Quiet row.from_addr ids.now m2 in
    elim (Bool-cases (violates m mail row)) [
      | inl h ↦ rw (h, store_parsed) counted
      | inr h ↦
          rw (h, store_parsed)
            (added-IsCounted m _ row
              (λ other.
                same-count m1 _ other quiet.0
                ∙ bump_unread_thread-counts thread_id subject mail.received_at ids.now m other)
              (quiet.1
                ∙ ap (λ rows. rows ++ row ∷ [])
                    (bump_unread_thread-messages thread_id subject mail.received_at ids.now m))
              counted)
    ]

failed_row-thread :
    (mail : InboundMail) (p : Option ParsedMail) (ids : IngestIds)
    → (failed_row mail p ids).thread_id ≡ ids.new_thread_id
unfolding failed_row
failed_row-thread mail none ids = refl
failed_row-thread mail (some p) ids = refl

failed-IsCounted :
    (mail : InboundMail) (p : Option ParsedMail) (message : Text) (ids : IngestIds) (m : Inbox)
    → IsCounted m
    → IsCounted (store_failed mail p message ids m).0
unfolding store_failed add_message add_ingest_event
failed-IsCounted mail p message ids m counted =
    let row : MessageRow = failed_row mail p ids in
    let m1 : Inbox = bump_unread_thread ids.new_thread_id none mail.received_at ids.now m in
    elim (Bool-cases (is_some (find_thread m ids.new_thread_id) || violates m mail row)) [
      | inl h ↦ rw (h, store_failed) counted
      | inr h ↦
          rw (h, store_failed)
            (added-IsCounted m _ row
              (λ other.
                same-count m1 _ other refl
                ∙ bump_unread_thread-counts ids.new_thread_id none mail.received_at ids.now m other
                ∙ ap (λ id. thread_count m other + one_if (id === other))
                    (sym (failed_row-thread mail p ids)))
              (ap (λ rows. rows ++ row ∷ [])
                (bump_unread_thread-messages ids.new_thread_id none mail.received_at ids.now m))
              counted)
    ]

ingest-IsCounted :
    (mail : InboundMail) (parse : Parse) (ids : IngestIds) (m : Inbox)
    → IsCounted m
    → IsCounted (commit_ingest mail parse ids m).0
unfolding commit_ingest
ingest-IsCounted mail (parsed p) ids m counted = parsed-IsCounted mail p ids m counted
ingest-IsCounted mail (failed p message) ids m counted =
    elim (Bool-cases (is_unique_constraint_violation message)) [
      | inl h ↦ rw (h, commit_ingest) counted
      | inr h ↦ rw (h, commit_ingest) (failed-IsCounted mail p message ids m counted)
    ]

acted-thread :
    (action : MessageAction) (now : Instant) (r : MessageRow)
    → (acted action now r).thread_id ≡ r.thread_id
acted-thread action now r = ground arith

acted-messages :
    (q : MessageRow → Bool) (action : MessageAction) (now : Instant) (id : Text)
    (rows : List MessageRow)
    → messages_in id (update_where q (acted action now) rows) ≡ messages_in id rows
unfolding messages_in update_where keep
acted-messages q action now id [] = refl
acted-messages q action now id (r ∷ rows) =
    ground (arith, acted-messages q action now id rows, acted-thread action now r)

act-IsCounted :
    (id : Text) (action : MessageAction) (now : Instant) (m : Inbox)
    → IsCounted m
    → IsCounted (apply_message_action id action now m)
unfolding apply_message_action
act-IsCounted id action now m counted other =
    same-count m _ other refl
    ∙ counted other
    ∙ sym (acted-messages (λ r. r.id === id) action now other m.messages)

step-IsCounted :
    (step : MailStep) (s : System) → IsCounted s.inbox → IsCounted (apply_step step s).inbox
unfolding apply_step
step-IsCounted (draft_step o) s c = draft-IsCounted o s c
step-IsCounted (receive mail parse ids) s c = ingest-IsCounted mail parse ids s.inbox c
step-IsCounted (act id action now) s c = act-IsCounted id action now s.inbox c

steps-IsCounted :
    (steps : List MailStep) (s : System) → IsCounted s.inbox → IsCounted (apply_steps steps s).inbox
unfolding apply_steps
steps-IsCounted [] s c = c
steps-IsCounted (step ∷ steps) s c =
    steps-IsCounted steps (apply_step step s) (step-IsCounted step s c)

empty-IsCounted : IsCounted empty
unfolding thread_count find_thread find messages_in keep
empty-IsCounted id = refl

-- In a mailbox that starts empty, however mail is received, filed and read, and drafts are written
-- and sent, also with sends and deliveries that run at the same time: for every id, the thread's
-- counter is the number of the messages in it, and no message is in a thread that is not there.
pub apply_steps-IsCounted :
    (steps : List MailStep) → IsCounted (apply_steps steps (started empty)).inbox
apply_steps-IsCounted steps = steps-IsCounted steps (started empty) empty-IsCounted
