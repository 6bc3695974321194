-- ===== src/Draft.antt =====
-- src/do/mailbox-do.ts: the drafts of a mailbox and their statuses. The routes take an id from the
-- path, where it is not empty.
pub mod Again
pub mod Answered
pub mod Begin
pub mod Confirm
pub mod Flights
pub mod Gate
pub mod Kept
pub mod Moves
pub mod Once
pub mod Settle
pub mod Single
pub mod Stage
pub mod Thread
use reccado.Prelude.{
  Bool, true, false, ◌&&◌, ◌||◌, Option, none, some, List, [], ◌∷◌, ◌++◌, any, find, update_where,
  if◌then◌else◌, leb,
}
use reccado.Text.{Text, ascii, ◌===◌}
use reccado.ApiKey.{Instant}
use reccado.Inbox.{Inbox, DraftRow, DraftStatus, draft, pending_confirmation, sent, cancelled}

-- The errors that the handlers throw.
pub data DraftError : Type 0 where
  draft_not_found draft_idempotency_conflict_unresolved constraint_failed : DraftError

pub data Answer {ℓ} (A : Type ℓ) : Type ℓ where
  ok : A → Answer A
  thrown : DraftError → Answer A

abbrev pub has_id : Text → DraftRow → Bool
has_id draft_id d = d.id === draft_id

unfoldable pub find_draft : Inbox → Text → Option DraftRow
unfolding find ◌===◌
find_draft m draft_id = find (has_id draft_id) m.outbound_drafts

unfoldable pub update_drafts : Text → (DraftRow → DraftRow) → Inbox → Inbox
unfolding update_where ◌===◌
update_drafts draft_id f m = record m {
  outbound_drafts = update_where (has_id draft_id) f m.outbound_drafts;
}

-- `getDraft`
unfoldable pub get_draft : Inbox → Text → Answer DraftRow
get_draft m draft_id = elim (find_draft m draft_id) [
  | none ↦ thrown draft_not_found
  | some d ↦ ok d
]

-- Latest update first.
unfoldable pub insert_draft : DraftRow → List DraftRow → List DraftRow
insert_draft d [] = d ∷ []
insert_draft d (e ∷ drafts) =
    let rest = insert_draft d drafts in
    if leb e.updated_at d.updated_at then d ∷ e ∷ drafts else e ∷ rest

unfoldable pub latest_first : List DraftRow → List DraftRow
unfolding insert_draft
latest_first [] = []
latest_first (d ∷ drafts) = insert_draft d (latest_first drafts)

-- `listDrafts`
unfoldable pub list_drafts : Inbox → List DraftRow
unfolding latest_first
list_drafts m = latest_first m.outbound_drafts

-- The body of a request; what it leaves out is `none`.
pub record DraftInput : Type 0 where
  pub thread_id : Option Text
  pub parent_message_id : Option Text
  pub to : Option (List Text)
  pub cc : Option (List Text)
  pub bcc : Option (List Text)
  pub subject : Option Text
  pub body_text : Option Text
  pub body_html : Option Text
  pub created_by : Option Text
  pub idempotency_key : Option Text

-- `o ?? a`
abbrev pub value_or {ℓ} : {A : Type ℓ} → Option A → A → A
value_or none a = a
value_or (some b) a = b

-- `o ?? p`, where `p` may be null too
abbrev pub or_else {ℓ} : {A : Type ℓ} → Option A → Option A → Option A
or_else none p = p
or_else (some b) p = some b

-- What `createDraft` answers; `duplicate` is left out without an idempotency key.
pub record Created : Type 0 where
  pub id : Text
  pub duplicate : Option Bool

abbrev pub new_draft : DraftInput → Text → Instant → Option Text → Text → DraftRow
new_draft body id now key subject = record {
  id = id;
  thread_id = body.thread_id;
  parent_message_id = body.parent_message_id;
  to = value_or body.to [];
  cc = value_or body.cc [];
  bcc = value_or body.bcc [];
  subject = subject;
  body_text = body.body_text;
  body_html = body.body_html;
  status = draft;
  created_by = value_or body.created_by (ascii "user");
  created_at = now;
  updated_at = now;
  idempotency_key = key;
}

abbrev pub has_key : Text → DraftRow → Bool
has_key key d = elim d.idempotency_key [ none ↦ false | some k ↦ k === key ]

unfoldable pub find_by_key : Inbox → Text → Option DraftRow
unfolding find ◌===◌
find_by_key m key = find (has_key key) m.outbound_drafts

unfoldable pub add_draft : DraftRow → Inbox → Inbox
add_draft d m = record m { outbound_drafts = m.outbound_drafts ++ d ∷ [] }

-- `INSERT`: the primary key and NOT NULL of the subject are what can refuse it.
abbrev pub insert_plain : DraftInput → Text → Instant → Inbox → Option Text → Inbox × Answer Created
insert_plain body id now m none = (m, thrown constraint_failed)
insert_plain body id now m (some subject) = elim (find_draft m id) [
  | some d ↦ (m, thrown constraint_failed)
  | none ↦
      (add_draft (new_draft body id now none subject) m, ok (record { id = id; duplicate = none }))
]

-- `INSERT OR IGNORE` wrote no row.
abbrev pub existing_draft : Inbox → Text → Inbox × Answer Created
existing_draft m key = elim (find_by_key m key) [
  | some d ↦ (m, ok (record { id = d.id; duplicate = some true }))
  | none ↦ (m, thrown draft_idempotency_conflict_unresolved)
]

abbrev pub insert_keyed :
    DraftInput → Text → Instant → Inbox → Text → Option Text → Inbox × Answer Created
insert_keyed body id now m key none = existing_draft m key
insert_keyed body id now m key (some subject) = elim (find_draft m id) [
  | some d ↦ existing_draft m key
  | none ↦ elim (find_by_key m key) [
    | some d ↦ existing_draft m key
    | none ↦ (
      add_draft (new_draft body id now (some key) subject) m,
      ok (record { id = id; duplicate = some false }),
    )
  ]
]

abbrev pub create_with : DraftInput → Text → Instant → Inbox → Option Text → Inbox × Answer Created
create_with body id now m none = insert_plain body id now m body.subject
create_with body id now m (some []) = insert_plain body id now m body.subject
create_with body id now m (some (c ∷ key)) = insert_keyed body id now m (c ∷ key) body.subject

-- `createDraft`, with the random id
unfoldable pub create_draft : DraftInput → Text → Instant → Inbox → Inbox × Answer Created
create_draft body id now m = create_with body id now m body.idempotency_key

abbrev pub edited : DraftInput → Instant → DraftRow → DraftRow
edited body now d = record d {
  to = value_or body.to d.to;
  cc = value_or body.cc d.cc;
  bcc = value_or body.bcc d.bcc;
  subject = value_or body.subject d.subject;
  body_text = or_else body.body_text d.body_text;
  body_html = or_else body.body_html d.body_html;
  updated_at = now;
}

-- The id and the status of an answer.
pub record DraftState : Type 0 where
  pub id : Text
  pub status : DraftStatus

-- `updateDraft`; it answers the status `draft` whatever the row's is.
unfoldable pub update_draft : Text → DraftInput → Instant → Inbox → Inbox × Answer DraftState
update_draft draft_id body now m = elim (find_draft m draft_id) [
  | none ↦ (m, thrown draft_not_found)
  | some d ↦
      (update_drafts draft_id (edited body now) m, ok (record { id = draft_id; status = draft }))
]

-- `status IN ('draft', 'pending_confirmation')`
abbrev pub is_open : DraftStatus → Bool
is_open draft = true
is_open pending_confirmation = true
is_open sent = false
is_open cancelled = false

abbrev pub armed : Instant → DraftRow → DraftRow
armed now d =
    if is_open d.status then record d { status = pending_confirmation; updated_at = now } else d

-- `requestSendDraft`
unfoldable pub request_send_draft : Text → Instant → Inbox → Inbox × Answer DraftState
request_send_draft draft_id now m =
    let n = update_drafts draft_id (armed now) m in
    elim (find_draft n draft_id) [
      | none ↦ (n, thrown draft_not_found)
      | some d ↦ (n, ok (record { id = draft_id; status = d.status }))
    ]

abbrev pub with_status : DraftStatus → Instant → DraftRow → DraftRow
with_status status now d = record d { status = status; updated_at = now }

-- `cancelDraft`; it does not look at the row.
unfoldable pub cancel_draft : Text → Instant → Inbox → Inbox × DraftState
cancel_draft draft_id now m = (
  update_drafts draft_id (with_status cancelled now) m,
  record { id = draft_id; status = cancelled },
)
