-- ===== src/Header/Subject.antt =====
-- src/lib/email-headers.ts: the subject of a reply.
use reccado.Prelude.{◌≡◌, refl, Bool-cases, inl, inr, Option, none, some, [], ◌∷◌}
use reccado.Text.{Text, ascii, trim, is_space, trim_start, starts_with, to_lower}
use reccado.Text.Trimming.{trim-trim, trim-after}
use reccado.Header.{is_reply_subject, with_re, reply_subject}

re_trimmed : (s : Text) → trim s ≡ s → with_re (trim (with_re s)) ≡ with_re s
unfolding with_re is_reply_subject starts_with to_lower trim trim_start is_space
re_trimmed [] e = refl
re_trimmed (c ∷ s) e = elim (Bool-cases (is_reply_subject (c ∷ s))) [
  | inl h ↦ rw (h, e, h) refl
  | inr h ↦ rw (h, trim-after b'R' (ascii "e: ") c s refl e) refl
]

-- A reply to a reply has the subject of the reply: a second "Re:" is not added, in any case of the
-- letters and whatever the white space around the subject.
pub reply_subject-again :
    (subject : Option Text) → reply_subject (some (reply_subject subject)) ≡ reply_subject subject
unfolding reply_subject trim trim_start
reply_subject-again none = re_trimmed [] refl
reply_subject-again (some subject) = re_trimmed (trim subject) (trim-trim subject)
