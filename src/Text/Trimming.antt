-- ===== src/Text/Trimming.antt =====
-- `trim`: a text that neither begins nor ends with white space is left as it is.
use mathlib.Core.List.{reverse-cons, cons≢nil}
use reccado.Prelude.{
  ℕ, ◌≤◌, ◌≢◌, length, ◌≡◌, refl, sym, ◌∙◌, ap, Bool-cases, inl, inr, false, [], ◌∷◌, ◌++◌, reverse,
  reverse-append, reverse-reverse, arith,
}
use reccado.Text.{is_space, trim_start, trim}
use reccado.Text.Equality.{Text}

pub trim_start-kept : (c : ℕ) (s : Text) → is_space c ≡ false → trim_start (c ∷ s) ≡ c ∷ s
unfolding trim_start
trim_start-kept c s h = rw h refl

reverse-end : (s : Text) (d : ℕ) → reverse (s ++ d ∷ []) ≡ d ∷ reverse s
reverse-end s d = reverse-append s (d ∷ [])

-- A text of two code units or more keeps its white space inside.
pub trim-kept :
    (c : ℕ) (s : Text) (d : ℕ)
    → is_space c ≡ false
    → is_space d ≡ false
    → trim (c ∷ s ++ d ∷ []) ≡ c ∷ s ++ d ∷ []
unfolding trim
trim-kept c s d hc hd =
    rw
      (
        trim_start-kept c (s ++ d ∷ []) hc,
        reverse-end (c ∷ s) d,
        trim_start-kept d (reverse (c ∷ s)) hd,
      )
      (sym (ap reverse (reverse-end (c ∷ s) d)) ∙ reverse-reverse (c ∷ s ++ d ∷ []))

-- What `trim_start` leaves begins with no white space.
trim_start-again : (s : Text) → trim_start (trim_start s) ≡ trim_start s
unfolding trim_start
trim_start-again [] = refl
trim_start-again (c ∷ s) = ground (arith, trim_start-again s)

-- It keeps the last code unit where that is no white space.
trim_start-end :
    (s : Text) (d : ℕ) → is_space d ≡ false → (t : Text) × (trim_start (s ++ d ∷ []) ≡ t ++ d ∷ [])
unfolding trim_start
trim_start-end [] d h = ([], rw h refl)
trim_start-end (c ∷ s) d h = elim (Bool-cases (is_space c)) [
  | inl e ↦ rw e (trim_start-end s d h)
  | inr e ↦ (c ∷ s, rw e refl)
]

trim_start-reversed :
    (s : Text) → let v = trim_start (reverse (trim_start s)) in trim_start (reverse v) ≡ reverse v
unfolding trim_start
trim_start-reversed [] = refl
trim_start-reversed (c ∷ s) = elim (Bool-cases (is_space c)) [
  | inl h ↦ rw h (trim_start-reversed s)
  | inr h ↦
      let (t, eq) = trim_start-end (reverse s) c h in
      rw (h, reverse-cons c s, eq, reverse-end t c) (trim_start-kept c (reverse t) h)
]

-- To trim twice is to trim once.
pub trim-trim : (s : Text) → trim (trim s) ≡ trim s
unfolding trim
trim-trim s =
    let v : Text = trim_start (reverse (trim_start s)) in
    ap (λ w. reverse (trim_start (reverse w))) (trim_start-reversed s)
    ∙ ap (λ w. reverse (trim_start w)) (reverse-reverse v)
    ∙ ap reverse (trim_start-again (reverse (trim_start s)))

pub length-trim_start : (s : Text) → length (trim_start s) ≤ length s
unfolding trim_start
length-trim_start [] = omega arith
length-trim_start (c ∷ s) = ground (arith, length-trim_start s)

first_no_space : (c : ℕ) (s : Text) → trim_start (c ∷ s) ≡ c ∷ s → is_space c ≡ false
unfolding trim_start
first_no_space c s e = elim (Bool-cases (is_space c)) [
  | inl h ↦
      let shorter : trim_start s ≡ c ∷ s = sym (rw h refl) ∙ e in
      absurd (omega (arith, length-trim_start s, ap length shorter))
  | inr h ↦ h
]

trimmed_end : (t : Text) → trim t ≡ t → trim_start (reverse t) ≡ reverse t
unfolding trim
trimmed_end t e =
    let v : Text = trim_start (reverse (trim_start t)) in
    let back : reverse t ≡ v = ap reverse (sym e) ∙ reverse-reverse v in
    ap trim_start back ∙ trim_start-again (reverse (trim_start t)) ∙ sym back

trim_start-before : (s q : Text) → trim_start s ≡ s → s ≢ [] → trim_start (s ++ q) ≡ s ++ q
unfolding trim_start
trim_start-before [] q e h = absurd (h refl)
trim_start-before (c ∷ s) q e h = rw (first_no_space c s e) refl

-- A prefix that begins with no white space, before a trimmed text.
pub trim-after :
    (c : ℕ) (p : Text) (d : ℕ) (t : Text)
    → is_space c ≡ false
    → trim (d ∷ t) ≡ d ∷ t
    → trim (c ∷ p ++ d ∷ t) ≡ c ∷ p ++ d ∷ t
unfolding trim
trim-after c p d t hc e =
    let nonempty : reverse (d ∷ t) ≢ [] =
      λ h. cons≢nil (sym (reverse-reverse (d ∷ t)) ∙ ap reverse h) in
    rw
      (
        trim_start-kept c (p ++ d ∷ t) hc,
        reverse-append (c ∷ p) (d ∷ t),
        trim_start-before (reverse (d ∷ t)) (reverse (c ∷ p)) (trimmed_end (d ∷ t) e) nonempty,
      )
      (sym (ap reverse (reverse-append (c ∷ p) (d ∷ t))) ∙ reverse-reverse (c ∷ p ++ d ∷ t))
