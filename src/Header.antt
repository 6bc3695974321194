-- ===== src/Header.antt =====
-- src/lib/email-headers.ts, normalizeMessageId of src/lib/email-metadata.ts and
-- outboundSendIdempotencyKey of src/lib/idempotency.ts: the headers of a reply.
pub mod MessageId
pub mod References
pub mod Subject
use reccado.Prelude.{
  ℕ, suc, ◌-◌, Bool, true, false, ◌||◌, not, Option, none, some, List, [], ◌∷◌, ◌++◌, map, reverse,
  length, drop, leb, ◌==◌, if◌then◌else◌,
}
use reccado.Text.{Text, ascii, trim, to_lower, starts_with, contains}

-- `s || null`
unfoldable pub non_empty : Text → Option Text
non_empty [] = none
non_empty (c ∷ s) = some (c ∷ s)

-- `s.lastIndexOf(c)`, where none is -1
unfoldable pub last_index_of : Text → ℕ → Option ℕ
last_index_of [] c = none
last_index_of (d ∷ s) c = elim (last_index_of s c) [
  | some i ↦ some (suc i)
  | none ↦ if d == c then some 0 else none
]

-- `domainFromAddress`
unfoldable pub domain_from_address : Text → Option Text
unfolding last_index_of non_empty
domain_from_address address = elim (last_index_of address b'@') [
  | none ↦ none
  | some at ↦
      if at == 0 || suc at == length address
      then none
      else non_empty (to_lower (trim (drop (suc at) address)))
]

-- Drops the first code unit where it is `c`.
unfoldable pub strip_start : ℕ → Text → Text
strip_start c [] = []
strip_start c (d ∷ s) = if d == c then s else d ∷ s

-- `trimmed.replace(/^<|>$/g, "")`
unfoldable pub strip_brackets : Text → Text
unfolding strip_start
strip_brackets s = reverse (strip_start b'>' (reverse (strip_start b'<' s)))

-- `normalizeMessageId`
unfoldable pub normalize_message_id : Option Text → Option Text
unfolding strip_brackets non_empty
normalize_message_id none = none
normalize_message_id (some value) = non_empty (strip_brackets (trim value))

-- `messageIdHeader`
unfoldable pub message_id_header : Text → Text
message_id_header bare_message_id = b'<' ∷ bare_message_id ++ b'>' ∷ []

abbrev pub max_references : ℕ
max_references = 20

-- Whether `references` has the id in some case.
unfoldable pub has_reference : List Text → Text → Bool
unfolding contains
has_reference references id = contains (map to_lower references) (to_lower id)

unfoldable pub with_parent : List Text → Option Text → List Text
unfolding has_reference
with_parent references none = references
with_parent references (some []) = references
with_parent references (some (c ∷ id)) =
    if has_reference references (c ∷ id) then references else references ++ (c ∷ id) ∷ []

-- The first of the chain, and its last 19.
unfoldable pub cut_references : List Text → List Text
cut_references [] = []
cut_references (root ∷ chain) =
    if leb (suc (length chain)) max_references
    then root ∷ chain
    else root ∷ drop (suc (length chain) - (max_references - 1)) (root ∷ chain)

-- `buildReferences`
unfoldable pub build_references : List Text → Option Text → List Text
unfolding with_parent cut_references
build_references parent_references parent_message_id =
    cut_references (with_parent parent_references parent_message_id)

-- `list.join(sep)`, for a separator of one code unit
unfoldable pub join : ℕ → List Text → Text
join sep [] = []
join sep (s ∷ []) = s
join sep (s ∷ t ∷ rest) = s ++ (sep ∷ join sep (t ∷ rest))

-- `referencesHeader`
unfoldable pub references_header : List Text → Text
unfolding join message_id_header
references_header references = join b' ' (map message_id_header references)

-- `/^re:/i.test(trimmed)`
unfoldable pub is_reply_subject : Text → Bool
unfolding to_lower starts_with
is_reply_subject s = starts_with (to_lower s) (ascii "re:")

unfoldable pub with_re : Text → Text
unfolding is_reply_subject
with_re [] = ascii "Re:"
with_re (c ∷ s) = if is_reply_subject (c ∷ s) then c ∷ s else ascii "Re: " ++ c ∷ s

-- `replySubject`
unfoldable pub reply_subject : Option Text → Text
unfolding with_re
reply_subject none = with_re []
reply_subject (some subject) = with_re (trim subject)

-- `outboundSendIdempotencyKey`
unfoldable pub outbound_send_idempotency_key : Text → Text → Text
outbound_send_idempotency_key draft_id attempt_key =
    ascii "send:v1:" ++ draft_id ++ (b':' ∷ attempt_key)
