-- ===== src/Header/MessageId.antt =====
-- src/lib/email-metadata.ts and src/lib/email-headers.ts: message ids with and without brackets.
use reccado.Prelude.{◌≡◌, refl, some, [], ◌∷◌, reverse-append, reverse-reverse}
use reccado.Text.{Text, trim, is_space}
use reccado.Text.Trimming.{trim-kept}
use reccado.Header.{non_empty, strip_start, strip_brackets, normalize_message_id, message_id_header}

trim-header : (id : Text) → trim (message_id_header id) ≡ message_id_header id
unfolding is_space message_id_header
trim-header id = trim-kept b'<' id b'>' refl refl

strip-header : (id : Text) → strip_brackets (message_id_header id) ≡ id
unfolding strip_brackets strip_start message_id_header
strip-header id = rw (reverse-append id (b'>' ∷ [])) (reverse-reverse id)

-- A message id that went into a header comes back: normalizing the bracketed form of an id gives
-- the id, or null for the empty id.
pub normalize-message_id_header :
    (id : Text) → normalize_message_id (some (message_id_header id)) ≡ non_empty id
unfolding normalize_message_id
normalize-message_id_header id = rw (trim-header id, strip-header id) refl
