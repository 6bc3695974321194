-- ===== src/Draft/Thread.antt =====
-- src/do/mailbox-do.ts: the message that a draft answers, and the identity it goes out under.
use reccado.Prelude.{
  ◌&&◌, Bool, true, false, Option, none, some, List, [], ◌∷◌, ◌++◌, map, find, ltb, if◌then◌else◌,
}
use reccado.Text.{Text, ◌===◌}
use reccado.Header.{non_empty}
use reccado.Identity.{SenderEnv, SenderIdentity, resolve_delivered_alias, resolve_sender_identity}
use reccado.Inbox.{Inbox, MessageRow}
use reccado.Draft.{find_draft, or_else}

-- A nullable string as a condition: null and the empty text are false.
abbrev pub truthy : Option Text → Option Text
truthy none = none
truthy (some s) = non_empty s

abbrev pub is_present {ℓ} : {A : Type ℓ} → Option A → Bool
is_present none = false
is_present (some a) = true

unfoldable pub find_message : Inbox → Text → Option MessageRow
unfolding find ◌===◌
find_message m id = find (λ row. row.id === id) m.messages

-- `thread_id = ? AND rfc_message_id IS NOT NULL`
abbrev pub is_threaded : Text → MessageRow → Bool
is_threaded thread_id row = row.thread_id === thread_id && is_present row.rfc_message_id

abbrev pub later : MessageRow → Option MessageRow → MessageRow
later row none = row
later row (some best) = if ltb row.received_at best.received_at then best else row

-- `ORDER BY received_at DESC LIMIT 1`
unfoldable pub newest_threaded : Text → List MessageRow → Option MessageRow
unfolding ◌===◌
newest_threaded thread_id [] = none
newest_threaded thread_id (row ∷ rows) =
    let best = newest_threaded thread_id rows in
    if is_threaded thread_id row then some (later row best) else best

abbrev pub newest_of : Inbox → Option Text → Option MessageRow
newest_of m none = none
newest_of m (some thread_id) = newest_threaded thread_id m.messages

-- The named parent, where it has an id for the headers or there is no thread to look in.
abbrev pub named_parent : Option MessageRow → Option Text → Option MessageRow
named_parent none thread_id = none
named_parent (some row) none = some row
named_parent (some row) (some t) = if is_present (truthy row.rfc_message_id) then some row else none

abbrev pub parent_by_id : Inbox → Option Text → Option MessageRow
parent_by_id m none = none
parent_by_id m (some id) = find_message m id

-- `findThreadParent`
unfoldable pub find_thread_parent : Inbox → Option Text → Option Text → Option MessageRow
unfolding newest_threaded find_message non_empty
find_thread_parent m thread_id parent_message_id =
    or_else (named_parent (parent_by_id m (truthy parent_message_id)) (truthy thread_id))
      (newest_of m (truthy thread_id))

-- `resolveDraftAlias`
unfoldable pub resolve_draft_alias : SenderEnv → Inbox → Text → Option Text → Option Text
unfolding find_thread_parent resolve_delivered_alias find_draft
resolve_draft_alias env m draft_id primary_address = elim (find_draft m draft_id) [
  | none ↦ none
  | some d ↦ elim (find_thread_parent m d.thread_id d.parent_message_id) [
    | none ↦ none
    | some parent ↦ resolve_delivered_alias env (map some (parent.to ++ parent.cc)) primary_address
  ]
]

-- `resolveReplyIdentity`
unfoldable pub resolve_reply_identity :
    SenderEnv → Inbox → Text → Option Text → Option Text → SenderIdentity
unfolding resolve_draft_alias resolve_sender_identity
resolve_reply_identity env m draft_id primary_address display_name =
    resolve_sender_identity env
      (or_else (resolve_draft_alias env m draft_id primary_address) primary_address) display_name
