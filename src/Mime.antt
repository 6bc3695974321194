-- ===== src/Mime.antt =====
-- src/lib/mime.ts: normalizeSubject, the subject by which mail without reply headers is threaded.
pub mod Subject
use reccado.Prelude.{ℕ, zero, suc, Option, none, some, List, [], ◌∷◌, drop, length, if◌then◌else◌}
use reccado.Text.{Text, ascii, ◌===◌, trim, trim_start, to_lower, starts_with}
use reccado.Header.{non_empty}

-- `s.replace(/^(?:re|fwd):\s*/i, "")`
unfoldable pub strip_reply_prefix : Text → Text
unfolding starts_with to_lower trim_start
strip_reply_prefix s =
    if starts_with (to_lower s) (ascii "re:")
    then trim_start (drop 3 s)
    else if starts_with (to_lower s) (ascii "fwd:")
    then trim_start (drop 4 s)
    else s

-- The body of the loop.
unfoldable pub strip_once : Text → Text
unfolding strip_reply_prefix trim
strip_once s = trim (strip_reply_prefix s)

-- The loop, for at most `fuel` rounds.
unfoldable pub strip_loop : ℕ → Text → Text
unfolding strip_once ◌===◌
strip_loop zero result = result
strip_loop (suc fuel) result =
    let rest = strip_loop fuel (strip_once result) in
    if strip_once result === result then strip_once result else rest

-- `normalizeSubject`; each round but the last makes the text shorter.
unfoldable pub normalize_subject : Option Text → Option Text
unfolding strip_loop to_lower non_empty
normalize_subject none = none
normalize_subject (some subject) =
    non_empty (to_lower (strip_loop (suc (length (trim subject))) (trim subject)))
