-- ===== src/Ingest/Repeated.antt =====
-- src/do/mailbox-ingest.ts: a mail that is delivered more than once, also by calls that run at once.
use reccado.Prelude.{
  ◌≡◌, ◌≢◌, refl, sym, ◌∙◌, ap, false, ◌||◌, Option, none, some, List, [], ◌∷◌, ◌++◌, find, arith,
  if◌then◌else◌, find-append_none, find-append_some, Option-cases, Bool-cases, inl, inr,
}
use reccado.Text.{Text, ◌===◌, ===_refl}
use reccado.ApiKey.{Instant}
use reccado.Mime.{normalize_subject}
use reccado.Inbox.{Inbox, IngestRow, MessageRow}
use reccado.Draft.Settle.{find_thread, add_message, record_realtime_event}
use reccado.Ingest.{
  IngestResult, inserted, duplicate, conflict, find_ingest, result, differs, check_ingest,
  resolve_concurrent, bump_unread_thread, add_ingest_event, bump_contact, violates, store_parsed,
  store_failed, is_unique_constraint_violation, commit_ingest, is_some, thread_input,
}
use reccado.Ingest.Rows.{
  InboundMail, ParsedMail, Parse, parsed, failed, IngestIds, event_of, parsed_row, failed_row,
}
use reccado.Ingest.Threading.{resolve_thread_id}

-- The mail under the key is stored, with the digest, as the message.
pub data Ingested (key raw_sha256 local_id : Text) (m : Inbox) : Type 0 where
  stored :
      (row : IngestRow)
      → find_ingest m key ≡ some row
      → row.raw_sha256 ≡ raw_sha256
      → row.message_local_id ≡ some local_id
      → Ingested key raw_sha256 local_id m

bump_contact-events :
    (email : Text) (now : Instant) (m : Inbox)
    → (bump_contact email now m).ingest_events ≡ m.ingest_events
unfolding bump_contact
bump_contact-events email now m = ground arith

bump_thread-events :
    (id : Text) (subject : Option Text) (at now : Instant) (m : Inbox)
    → (bump_unread_thread id subject at now m).ingest_events ≡ m.ingest_events
unfolding bump_unread_thread
bump_thread-events id subject at now m = ground arith

-- What a call does: it stores the mail, or it changes nothing and resolves the clash.
pub data Committed (mail : InboundMail) (ids : IngestIds) (m : Inbox)
    (answer : Inbox × IngestResult) : Type 0 where
  clashed : answer ≡ (m, resolve_concurrent m mail) → Committed mail ids m answer
  added :
      (n : Inbox) (error thread_id : Option Text)
      → find_ingest m mail.idempotency_key ≡ none
      → answer ≡ (n, result inserted n ids.message_local_id thread_id)
      → n.ingest_events ≡ m.ingest_events ++ event_of mail ids error ∷ []
      → Committed mail ids m answer

none_there :
    (m : Inbox) (key : Text) → is_some (find_ingest m key) ≡ false → find_ingest m key ≡ none
none_there m key h = elim (Option-cases (find_ingest m key)) [
  | inl e ↦ e
  | inr (row, e) ↦ ground (arith, e)
]

unviolated :
    (m : Inbox) (mail : InboundMail) (row : MessageRow)
    → violates m mail row ≡ false
    → find_ingest m mail.idempotency_key ≡ none
unfolding violates
unviolated m mail row h = none_there m mail.idempotency_key (ground arith)

stored-events :
    (mail : InboundMail) (ids : IngestIds) (error : Option Text) (row : MessageRow) (id : Text)
    (subject : Option Text) (m : Inbox)
    → (add_ingest_event
        (event_of mail ids error)
        (add_message row (bump_unread_thread id subject mail.received_at ids.now m))).ingest_events
      ≡ m.ingest_events ++ event_of mail ids error ∷ []
unfolding add_ingest_event add_message
stored-events mail ids error row id subject m =
    ap (λ rows. rows ++ event_of mail ids error ∷ [])
      (bump_thread-events id subject mail.received_at ids.now m)

parsed-Committed :
    (mail : InboundMail) (p : ParsedMail) (ids : IngestIds) (m : Inbox)
    → Committed mail ids m (store_parsed mail p ids m)
unfolding store_parsed record_realtime_event parsed_row
parsed-Committed mail p ids m =
    let thread_id : Text = resolve_thread_id m (thread_input mail p) ids.new_thread_id in
    let row : MessageRow = parsed_row mail p thread_id ids in
    elim (Bool-cases (violates m mail row)) [
      | inl h ↦ rw (h, store_parsed) (clashed refl)
      | inr h ↦
          rw (h, store_parsed)
            (added _ none (some thread_id) (unviolated m mail row h) refl (
              bump_contact-events row.from_addr ids.now _
              ∙ stored-events mail ids none row thread_id (normalize_subject row.subject) m))
    ]

failed_row-id :
    (mail : InboundMail) (p : Option ParsedMail) (ids : IngestIds)
    → (failed_row mail p ids).id ≡ ids.message_local_id
unfolding failed_row
failed_row-id mail none ids = refl
failed_row-id mail (some p) ids = refl

failed-Committed :
    (mail : InboundMail) (p : Option ParsedMail) (message : Text) (ids : IngestIds) (m : Inbox)
    → Committed mail ids m (store_failed mail p message ids m)
unfolding store_failed
failed-Committed mail p message ids m =
    let row : MessageRow = failed_row mail p ids in
    elim (Bool-cases (is_some (find_thread m ids.new_thread_id) || violates m mail row)) [
      | inl h ↦ rw (h, store_failed) (clashed refl)
      | inr h ↦
          let n : Inbox = add_ingest_event (event_of mail ids (some message)) (
            add_message row
              (bump_unread_thread ids.new_thread_id none mail.received_at ids.now m)) in
          rw (h, store_failed)
            (added n (some message) (some ids.new_thread_id) (unviolated m mail row (ground arith))
              (ap (λ id. (n, result inserted n id (some ids.new_thread_id)))
                (failed_row-id mail p ids))
              (stored-events mail ids (some message) row ids.new_thread_id none m))
    ]

commit-Committed :
    (mail : InboundMail) (parse : Parse) (ids : IngestIds) (m : Inbox)
    → Committed mail ids m (commit_ingest mail parse ids m)
unfolding commit_ingest
commit-Committed mail (parsed p) ids m = parsed-Committed mail p ids m
commit-Committed mail (failed p message) ids m =
    elim (Bool-cases (is_unique_constraint_violation message)) [
      | inl h ↦ rw (h, commit_ingest) (clashed refl)
      | inr h ↦ rw (h, commit_ingest) (failed-Committed mail p message ids m)
    ]

module _ (key raw_sha256 local_id : Text) where
  events-Ingested :
      (m n : Inbox) (row : IngestRow)
      → n.ingest_events ≡ m.ingest_events ++ row ∷ []
      → Ingested key raw_sha256 local_id m
      → Ingested key raw_sha256 local_id n
  unfolding find_ingest
  events-Ingested m n row e (stored old found sha id) =
      stored old
        (rw e
          (find-append_some (λ r. r.idempotency_key === key) m.ingest_events (row ∷ []) old found))
        sha id

  committed-Ingested :
      (mail : InboundMail) (ids : IngestIds) (m : Inbox) (answer : Inbox × IngestResult)
      → Committed mail ids m answer
      → Ingested key raw_sha256 local_id m
      → Ingested key raw_sha256 local_id answer.0
  committed-Ingested mail ids m answer (clashed e) h = rw e h
  committed-Ingested mail ids m answer (added n error thread_id new e events) h =
      rw e (events-Ingested m n (event_of mail ids error) events h)

not_inserted : (m : Inbox) (mail : InboundMail) → (resolve_concurrent m mail).status ≢ inserted
unfolding resolve_concurrent
not_inserted m mail h = ground (arith, h)

new-Ingested :
    (mail : InboundMail) (ids : IngestIds) (m : Inbox) (answer : Inbox × IngestResult)
    → Committed mail ids m answer
    → answer.1.status ≡ inserted
    → Ingested mail.idempotency_key mail.raw_sha256 ids.message_local_id answer.0
unfolding find_ingest find
new-Ingested mail ids m answer (clashed e) h =
    absurd (not_inserted m mail (sym (ap (λ a. a.1.status) e) ∙ h))
new-Ingested mail ids m answer (added n error thread_id new e events) h = rw e (
    stored (event_of mail ids error)
      (rw events (
        find-append_none (λ r. r.idempotency_key === mail.idempotency_key) m.ingest_events _ new
        ∙ ap (λ b. if b then some (event_of mail ids error) else none)
            (===_refl mail.idempotency_key)))
      refl refl)

-- A delivery: the mail, what came of its parsing, and the ids of the call.
pub record Delivery : Type 0 where
  pub mail : InboundMail
  pub parse : Parse
  pub ids : IngestIds

unfoldable pub commit_all : List Delivery → Inbox → Inbox
commit_all [] m = m
commit_all (d ∷ deliveries) m = commit_all deliveries (commit_ingest d.mail d.parse d.ids m).0

all-Ingested :
    (key raw_sha256 local_id : Text) (deliveries : List Delivery) (m : Inbox)
    → Ingested key raw_sha256 local_id m
    → Ingested key raw_sha256 local_id (commit_all deliveries m)
unfolding commit_all
all-Ingested key raw_sha256 local_id [] m h = h
all-Ingested key raw_sha256 local_id (d ∷ deliveries) m h =
    all-Ingested key raw_sha256 local_id deliveries _ (
      committed-Ingested key raw_sha256 local_id d.mail d.ids m _
        (commit-Committed d.mail d.parse d.ids m) h)

-- What a mail under the key of a stored one is answered: it is the same mail, or another one.
abbrev pub told_of : Inbox → Text → Text → InboundMail → IngestResult
told_of m raw_sha256 local_id mail =
    if differs raw_sha256 mail.raw_sha256
    then result conflict m [] none
    else result duplicate m local_id none

stored-told :
    (mail : InboundMail) (raw_sha256 local_id : Text) (m : Inbox)
    → local_id ≢ []
    → Ingested mail.idempotency_key raw_sha256 local_id m
    → (check_ingest m mail ≡ some (told_of m raw_sha256 local_id mail))
      × (resolve_concurrent m mail ≡ told_of m raw_sha256 local_id mail)
unfolding check_ingest resolve_concurrent
stored-told mail raw_sha256 [] m named h = absurd (named refl)
stored-told mail raw_sha256 (c ∷ id) m named (stored row found sha local) =
    elim (Bool-cases (differs raw_sha256 mail.raw_sha256)) [
      | inl d ↦ (rw (found, check_ingest, sha, d) refl, rw (found, resolve_concurrent, sha, d) refl)
      | inr d ↦ (
        rw (found, check_ingest, sha, d, local) refl,
        rw (found, resolve_concurrent, sha, d, local) refl,
      )
    ]

stored-clashes :
    (mail : InboundMail) (ids : IngestIds) (raw_sha256 local_id : Text) (m : Inbox)
    (answer : Inbox × IngestResult)
    → Committed mail ids m answer
    → Ingested mail.idempotency_key raw_sha256 local_id m
    → answer ≡ (m, resolve_concurrent m mail)
stored-clashes mail ids raw_sha256 local_id m answer (clashed e) h = e
stored-clashes mail ids raw_sha256 local_id m answer (added n error t new e events)
      (stored row found sha local) =
    ground (arith, new, found)

-- Once a mail is stored, whatever is delivered then, a further delivery under its key stores
-- nothing: both a call that comes later and one that ran at the same time and commits late are told
-- of the stored message, where the raw mail has the same digest, and of a conflict, where it has not.
pub commit_ingest-once :
    (d : Delivery) (m : Inbox) (deliveries : List Delivery) (mail : InboundMail) (parse : Parse)
    (ids : IngestIds)
    → (commit_ingest d.mail d.parse d.ids m).1.status ≡ inserted
    → d.ids.message_local_id ≢ []
    → mail.idempotency_key ≡ d.mail.idempotency_key
    → let n = commit_all deliveries (commit_ingest d.mail d.parse d.ids m).0 in
      let told = told_of n d.mail.raw_sha256 d.ids.message_local_id mail in
      (check_ingest n mail ≡ some told) × (commit_ingest mail parse ids n ≡ (n, told))
commit_ingest-once d m deliveries mail parse ids new named same =
    let first = new-Ingested d.mail d.ids m _ (commit-Committed d.mail d.parse d.ids m) new in
    let n : Inbox = commit_all deliveries (commit_ingest d.mail d.parse d.ids m).0 in
    let still : Ingested mail.idempotency_key d.mail.raw_sha256 d.ids.message_local_id n = rw same (
      all-Ingested d.mail.idempotency_key d.mail.raw_sha256 d.ids.message_local_id deliveries _
        first) in
    let told = stored-told mail d.mail.raw_sha256 d.ids.message_local_id n named still in
    (
      told.0,
      stored-clashes mail ids d.mail.raw_sha256 d.ids.message_local_id n _
            (commit-Committed mail parse ids n) still
          ∙ ap (λ r. (n, r)) told.1,
    )
