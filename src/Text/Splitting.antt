-- ===== src/Text/Splitting.antt =====
-- `split`: the parts of a text that has a separator at most once.
use reccado.Prelude.{
  ℕ, ◌≤◌, ◌≡◌, refl, sym, ap, ◌∙◌, true, false, List, [], ◌∷◌, ◌++◌, arith, Bool-cases, inl, inr,
  ◌==◌, length,
}
use reccado.Text.{has_unit, onto_first, split}
use reccado.Text.Equality.{Text}

length-onto_first :
    (c : ℕ) (parts : List Text) → 1 ≤ length parts → length (onto_first c parts) ≡ length parts
unfolding onto_first
length-onto_first c [] h = omega (arith, h)
length-onto_first c (part ∷ parts) h = refl

pub split-some : (s : Text) (c : ℕ) → 1 ≤ length (split s c)
unfolding split
split-some [] c = omega arith
split-some (d ∷ s) c =
    ground (arith, split-some s c, length-onto_first d (split s c) (split-some s c))

split-later :
    (d : ℕ) (s : Text) (c : ℕ) → (d == c) ≡ false → split (d ∷ s) c ≡ onto_first d (split s c)
unfolding split
split-later d s c h = rw h refl

pub split-here : (d : ℕ) (s : Text) (c : ℕ) → (d == c) ≡ true → split (d ∷ s) c ≡ [] ∷ split s c
unfolding split
split-here d s c h = rw h refl

length-split_later :
    (d : ℕ) (s : Text) (c : ℕ) → (d == c) ≡ false → length (split (d ∷ s) c) ≡ length (split s c)
length-split_later d s c h =
    rw (split-later d s c h) (length-onto_first d (split s c) (split-some s c))

-- A text in one part.
pub split-whole :
    (s : Text) (c : ℕ) → length (split s c) ≡ 1 → (split s c ≡ s ∷ []) × (has_unit s c ≡ false)
unfolding has_unit onto_first
split-whole [] c h = unfold split in (refl, refl)
split-whole (d ∷ s) c h = elim (Bool-cases (d == c)) [
  | inl here ↦ absurd (omega (arith, h, ap length (split-here d s c here), split-some s c))
  | inr later ↦
      let (e, plain) = split-whole s c (sym (length-split_later d s c later) ∙ h) in
      (split-later d s c later ∙ ap (onto_first d) e, rw (later, plain) refl)
]

-- A text in two parts.
pub record Halves (s : Text) (c : ℕ) : Type 0 where
  pub front : Text
  pub back : Text
  pub parts : split s c ≡ front ∷ back ∷ []
  pub joined : s ≡ front ++ c ∷ back
  pub front_plain : has_unit front c ≡ false
  pub back_plain : has_unit back c ≡ false

pub split-Halves : (s : Text) (c : ℕ) → length (split s c) ≡ 2 → Halves s c
unfolding has_unit onto_first
split-Halves [] c h = unfold split in absurd (ground arith)
split-Halves (d ∷ s) c h = elim (Bool-cases (d == c)) [
  | inl here ↦
      let (e, plain) = split-whole s c (omega (arith, h, ap length (split-here d s c here))) in
      let eq : d ≡ c = ground arith in
      record {
        front = [];
        back = s;
        parts = split-here d s c here ∙ ap (λ parts. [] ∷ parts) e;
        joined = ap (λ a. a ∷ s) eq;
        front_plain = refl;
        back_plain = plain;
      }
  | inr later ↦
      let halves = split-Halves s c (sym (length-split_later d s c later) ∙ h) in
      record {
        front = d ∷ halves.front;
        back = halves.back;
        parts = split-later d s c later ∙ ap (onto_first d) halves.parts;
        joined = ap (λ t. d ∷ t) halves.joined;
        front_plain = rw (later, halves.front_plain) refl;
        back_plain = halves.back_plain;
      }
]
