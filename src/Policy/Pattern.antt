-- ===== src/Policy/Pattern.antt =====
-- The regular expression that a `*` pattern is turned into, and the language that it stands for.
use reccado.Prelude.{
  ℕ, ◌≡◌, ◌≢◌, ◌↔◌, refl, ap, ◌∙◌, true, false, List, [], ◌∷◌, inl, inr, arith, Bool-cases, ◌==◌,
  if◌then◌else◌,
}
use reccado.Text.{Text, has_unit}
use reccado.Policy.{
  Atom, unit, star, is_meta, escape_regex, replace_star, parse_regex, is_line_end, test_regex,
}

-- The reading that is meant: `*` stands for any text, everything else for itself.
abbrev pub atoms : Text → List Atom
atoms [] = []
atoms (c ∷ s) = (if c == b'*' then star else unit c) ∷ atoms s

pub data Matches : List Atom → Text → Type 0 where
  end : Matches [] []
  same : {p : List Atom} {s : Text} (c : ℕ) → Matches p s → Matches (unit c ∷ p) (c ∷ s)
  stop : {p : List Atom} {s : Text} → Matches p s → Matches (star ∷ p) s
  take :
      {p : List Atom} {s : Text} (c : ℕ)
      → is_line_end c ≡ false
      → Matches (star ∷ p) s
      → Matches (star ∷ p) (c ∷ s)

test_regex_sound : (p : List Atom) (s : Text) → test_regex p s ≡ true → Matches p s
unfolding test_regex
test_regex_sound [] [] h = end
test_regex_sound [] (c ∷ s) h = absurd (ground arith)
test_regex_sound (unit a ∷ p) [] h = absurd (ground arith)
test_regex_sound (unit a ∷ p) (c ∷ s) h =
    let e : a ≡ c = ground arith in rw e (same c (test_regex_sound p s (ground arith)))
test_regex_sound (star ∷ p) [] h = stop (test_regex_sound p [] h)
test_regex_sound (star ∷ p) (c ∷ s) h = elim (Bool-cases (test_regex p (c ∷ s))) [
  | inl now ↦ stop (test_regex_sound p (c ∷ s) now)
  | inr later ↦ take c (ground arith) (test_regex_sound (star ∷ p) s (ground arith))
]

test_regex_complete : {p : List Atom} {s : Text} → Matches p s → test_regex p s ≡ true
unfolding test_regex
test_regex_complete end = refl
test_regex_complete (same c m) = ground (arith, test_regex_complete m)
test_regex_complete {s = []} (stop m) = test_regex_complete m
test_regex_complete {s = c ∷ s} (stop m) = ground (arith, test_regex_complete m)
test_regex_complete (take c h m) = ground (arith, test_regex_complete m)

escape_regex-ne-star : (s t : Text) → escape_regex s ≢ b'*' ∷ t
unfolding escape_regex
escape_regex-ne-star [] t e = ground arith
escape_regex-ne-star (c ∷ s) t e = unfold is_meta has_unit in ground arith

replace_star-escaped :
    (c : ℕ) (s : Text) → replace_star (c ∷ escape_regex s) ≡ c ∷ replace_star (escape_regex s)
replace_star-escaped c s = go (escape_regex s) (escape_regex-ne-star s)
  where
    go : (t : Text) → ((u : Text) → t ≢ b'*' ∷ u) → replace_star (c ∷ t) ≡ c ∷ replace_star t
    go [] h = unfold replace_star in refl
    go (d ∷ t) h = unfold replace_star in ground (arith, h t)

parse_regex_plain :
    (c : ℕ) (s : Text) → is_meta c ≡ false → parse_regex (c ∷ s) ≡ unit c ∷ parse_regex s
unfolding parse_regex
parse_regex_plain c [] h = refl
parse_regex_plain c (d ∷ s) h = unfold is_meta in ground arith

escape_meta :
    (c : ℕ) (s : Text) → is_meta c ≡ true → escape_regex (c ∷ s) ≡ b'\\' ∷ (c ∷ escape_regex s)
unfolding escape_regex
escape_meta c s h = rw h

escape_plain : (c : ℕ) (s : Text) → is_meta c ≡ false → escape_regex (c ∷ s) ≡ c ∷ escape_regex s
unfolding escape_regex
escape_plain c s h = rw h

parse_escaped :
    (c : ℕ) (s : Text)
    → (c == b'*') ≡ false
    → parse_regex (replace_star (b'\\' ∷ (c ∷ escape_regex s)))
      ≡ unit c ∷ parse_regex (replace_star (escape_regex s))
unfolding replace_star
parse_escaped c s h = rw h (rw (replace_star-escaped c s) (unfold parse_regex in refl))

parse_star :
    (c : ℕ) (s : Text)
    → (c == b'*') ≡ true
    → parse_regex (replace_star (b'\\' ∷ (c ∷ s))) ≡ star ∷ parse_regex (replace_star s)
unfolding replace_star parse_regex
parse_star c s h = rw h

plain_atom :
    (c : ℕ) {p : List Atom}
    → is_meta c ≡ false
    → unit c ∷ p ≡ (if c == b'*' then star else unit c) ∷ p
unfolding is_meta
plain_atom c h = ground arith

-- Escaping first and then opening `\*` gives the expression that is meant, for every rule: each
-- metacharacter stands for itself, a backslash before a `*` included.
pub parse_regex-replace_star : (s : Text) → parse_regex (replace_star (escape_regex s)) ≡ atoms s
parse_regex-replace_star [] = unfold escape_regex replace_star parse_regex in refl
parse_regex-replace_star (c ∷ s) = elim (Bool-cases (is_meta c)) [
  | inl meta ↦ rw (escape_meta c s meta) (elim (Bool-cases (c == b'*')) [
    | inl any ↦
        rw any (parse_star c (escape_regex s) any ∙ ap (λ p. star ∷ p) (parse_regex-replace_star s))
    | inr one ↦ rw one (parse_escaped c s one ∙ ap (λ p. unit c ∷ p) (parse_regex-replace_star s))
  ])
  | inr plain ↦
      rw
        (
          escape_plain c s plain,
          replace_star-escaped c s,
          parse_regex_plain c (replace_star (escape_regex s)) plain,
          parse_regex-replace_star s,
        )
        (plain_atom c plain)
]

-- A `*` pattern accepts exactly the texts of its reading.
pub pattern_iff :
    (rule s : Text)
    → (test_regex (parse_regex (replace_star (escape_regex rule))) s ≡ true)
      ↔ Matches (atoms rule) s
pattern_iff rule s =
    rw (parse_regex-replace_star rule) (test_regex_sound (atoms rule) s, test_regex_complete)
