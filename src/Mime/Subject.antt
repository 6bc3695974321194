-- ===== src/Mime/Subject.antt =====
-- src/lib/mime.ts: the loop of normalizeSubject.
use mathlib.Core.List.{reverse_aux}
use reccado.Prelude.{
  ℕ, zero, suc, ◌+◌, ◌≤◌, ◌<◌, ◌≡◌, ◌⊎◌, refl, ◌∙◌, ap, true, false, [], ◌∷◌, length, drop, reverse,
  arith, Bool-cases, inl, inr,
}
use reccado.Text.{Text, ascii, ◌===◌, ===_iff, trim, trim_start, to_lower, starts_with}
use reccado.Text.Trimming.{length-trim_start, trim-trim}
use reccado.Mime.{strip_reply_prefix, strip_once, strip_loop}

length-reverse_onto : (s t : Text) → length (reverse_aux s t) ≡ length s + length t
length-reverse_onto [] t = omega arith
length-reverse_onto (c ∷ s) t = omega (arith, length-reverse_onto s (c ∷ t))

length-trim-le : (s : Text) → length (trim s) ≤ length s
unfolding trim
length-trim-le s = omega (
  arith,
  length-reverse_onto (trim_start (reverse (trim_start s))) [],
  length-trim_start (reverse (trim_start s)),
  length-reverse_onto (trim_start s) [],
  length-trim_start s,
)

length-drop-le : (n : ℕ) (s : Text) → length (drop n s) ≤ length s
length-drop-le zero s = omega arith
length-drop-le (suc n) [] = omega arith
length-drop-le (suc n) (c ∷ s) = omega (arith, length-drop-le n s)

-- A round cuts a prefix off, or has none to cut.
prefix-shrinks :
    (s : Text) → (strip_reply_prefix s ≡ s) ⊎ (length (strip_reply_prefix s) < length s)
unfolding strip_reply_prefix starts_with to_lower
prefix-shrinks [] = inl refl
prefix-shrinks (c ∷ s) = elim (Bool-cases (starts_with (to_lower (c ∷ s)) (ascii "re:"))) [
  | inl e ↦
      inr (
        rw (e, strip_reply_prefix)
          (omega (arith, length-trim_start (drop 2 s), length-drop-le 2 s)))
  | inr e ↦ elim (Bool-cases (starts_with (to_lower (c ∷ s)) (ascii "fwd:"))) [
    | inl h ↦ inr (
        rw (e, h, strip_reply_prefix)
          (omega (arith, length-trim_start (drop 3 s), length-drop-le 3 s)))
    | inr h ↦ inl (rw (e, h, strip_reply_prefix) refl)
  ]
]

strip-shrinks :
    (s : Text) → trim s ≡ s → strip_once s === s ≡ false → length (strip_once s) < length s
unfolding strip_once
strip-shrinks s e h = elim (prefix-shrinks s) [
  | inl same ↦
      let still : strip_once s === s ≡ true = (===_iff _ _).1 (ap trim same ∙ e) in
      ground (arith, still)
  | inr less ↦ omega (arith, length-trim-le (strip_reply_prefix s), less)
]

strip_once-trimmed : (s : Text) → trim (strip_once s) ≡ strip_once s
unfolding strip_once
strip_once-trimmed s = trim-trim (strip_reply_prefix s)

loop_ends :
    (fuel : ℕ) (s : Text)
    → trim s ≡ s
    → length s < fuel
    → strip_once (strip_loop fuel s) ≡ strip_loop fuel s
unfolding strip_loop
loop_ends zero s e h = absurd (omega (arith, h))
loop_ends (suc fuel) s e h = elim (Bool-cases (strip_once s === s)) [
  | inl same ↦
      let still : strip_once s ≡ s = (===_iff _ _).0 same in
      rw (same, strip_loop, still, still) refl
  | inr moved ↦
      rw (moved, strip_loop)
        (loop_ends fuel (strip_once s) (strip_once-trimmed s)
          (omega (arith, h, strip-shrinks s e moved)))
]

-- The loop that strips "Re:" and "Fwd:" from a subject ends by its own test: as many rounds as the
-- trimmed subject has code units, and one, are enough, and one more round would change nothing.
pub strip_loop-ends :
    (subject : Text)
    → let s = trim subject in
      strip_once (strip_loop (suc (length s)) s) ≡ strip_loop (suc (length s)) s
strip_loop-ends subject =
    loop_ends (suc (length (trim subject))) (trim subject) (trim-trim subject) (omega arith)
