-- ===== src/Template/Tokens.antt =====
-- How the placeholders of joined texts are found: a space between two texts separates their tokens.
use reccado.Prelude.{
  ℕ, zero, suc, ◌+◌, ◌≤◌, ◌≡◌, ◌≢◌, refl, ap, true, some, List, [], ◌∷◌, ◌++◌, inl, inr, arith,
  Option-cases, Bool-cases, length, drop, All,
}
use reccado.Text.{Text, ascii, starts_with}
use reccado.Template.{
  Token, lit, var, word_prefix, closed_name, match_variable, tokens_from, tokens, names_of,
}

length-word_prefix : (s : Text) → length (word_prefix s) ≤ length s
unfolding word_prefix
length-word_prefix [] = omega arith
length-word_prefix (c ∷ s) = ground (arith, length-word_prefix s)

word_prefix-space : (s t : Text) → word_prefix (s ++ b' ' ∷ t) ≡ word_prefix s
unfolding word_prefix
word_prefix-space [] t = refl
word_prefix-space (c ∷ s) t = ground (arith, word_prefix-space s t)

starts_with-space :
    (s t p : Text) → All (λ c. c ≢ b' ') p → starts_with (s ++ b' ' ∷ t) p ≡ starts_with s p
unfolding starts_with
starts_with-space [] t [] h = refl
starts_with-space [] t (c ∷ p) h = ground arith
starts_with-space (d ∷ s) t [] h = refl
starts_with-space (d ∷ s) t (c ∷ p) h = ground (arith, starts_with-space s t p)

length-starts_with : (s p : Text) → starts_with s p ≡ true → length p ≤ length s
unfolding starts_with
length-starts_with s [] h = omega arith
length-starts_with [] (c ∷ p) h = ground arith
length-starts_with (d ∷ s) (c ∷ p) h = ground (arith, length-starts_with s p)

drop-append : (n : ℕ) (s t : Text) → n ≤ length s → drop n (s ++ t) ≡ drop n s ++ t
drop-append zero s t h = refl
drop-append (suc n) [] t h = absurd (omega arith)
drop-append (suc n) (c ∷ s) t h = drop-append n s t (omega arith)

length-drop : (n : ℕ) (s : Text) → n ≤ length s → length (drop n s) + n ≡ length s
length-drop zero s h = omega arith
length-drop (suc n) [] h = absurd (omega arith)
length-drop (suc n) (c ∷ s) h = omega (arith, length-drop n s (omega arith))

closed_name-space : (name s t : Text) → closed_name name (s ++ b' ' ∷ t) ≡ closed_name name s
unfolding closed_name
closed_name-space [] s t = refl
closed_name-space (c ∷ name) s t = rw (starts_with-space s t (ascii "}}") (omega arith)) refl

-- A match that a text begins with is the same whatever follows the text after a space.
match_variable-space : (s t : Text) → match_variable (s ++ b' ' ∷ t) ≡ match_variable s
unfolding match_variable
match_variable-space s t = elim (Bool-cases (starts_with s (ascii "{{"))) [
  | inl opened ↦
      let long = length-starts_with s (ascii "{{") opened in
      rw
        (
          starts_with-space s t (ascii "{{") (omega arith),
          opened,
          drop-append 2 s (b' ' ∷ t) long,
          word_prefix-space (drop 2 s) t,
          drop-append (length (word_prefix (drop 2 s))) (drop 2 s) (b' ' ∷ t)
              (length-word_prefix (drop 2 s)),
        )
        (closed_name-space (word_prefix (drop 2 s))
          (drop (length (word_prefix (drop 2 s))) (drop 2 s)) t)
  | inr shut ↦ rw (starts_with-space s t (ascii "{{") (omega arith), shut)
]

closed_name-length :
    (name s found : Text) → closed_name name s ≡ some found → (found ≡ name) × (2 ≤ length s)
unfolding closed_name
closed_name-length [] s found h = ground arith
closed_name-length (c ∷ name) s found h = ground (arith, length-starts_with s (ascii "}}"))

-- A match covers the name and the four braces.
match_variable-length : (s name : Text) → match_variable s ≡ some name → length name + 4 ≤ length s
unfolding match_variable
match_variable-length s name h = elim (Bool-cases (starts_with s (ascii "{{"))) [
  | inl opened ↦
      let found =
        closed_name-length (word_prefix (drop 2 s))
          (drop (length (word_prefix (drop 2 s))) (drop 2 s)) name (rw opened at h) in
      rw found.0 (
        omega (
          arith,
          found.1,
          length-starts_with s (ascii "{{") opened,
          length-drop 2 s,
          length-word_prefix (drop 2 s),
          length-drop (length (word_prefix (drop 2 s))) (drop 2 s),
        ))
  | inr shut ↦ absurd (ground arith)
]

tokens_from-space :
    (k : ℕ) (s t : Text)
    → k ≤ length s
    → tokens_from k (s ++ b' ' ∷ t) ≡ tokens_from k s ++ lit b' ' ∷ tokens_from zero t
unfolding tokens_from
tokens_from-space zero [] t h = refl
tokens_from-space (suc k) [] t h = absurd (omega arith)
tokens_from-space (suc k) (c ∷ s) t h = tokens_from-space k s t (omega arith)
tokens_from-space zero (c ∷ s) t h = elim (Option-cases (match_variable (c ∷ s))) [
  | inl e ↦
      rw (match_variable-space (c ∷ s) t, e, tokens_from)
        (ap (λ ts. lit c ∷ ts) (tokens_from-space zero s t (omega arith)))
  | inr (name, e) ↦
      rw (match_variable-space (c ∷ s) t, e, tokens_from)
        (ap (λ ts. var name ∷ ts)
          (tokens_from-space (length name + 3) s t
            (omega (arith, match_variable-length (c ∷ s) name e))))
]

pub tokens-space : (s t : Text) → tokens (s ++ b' ' ∷ t) ≡ tokens s ++ lit b' ' ∷ tokens t
unfolding tokens
tokens-space s t = tokens_from-space zero s t (omega arith)

pub names_of-append : (ts us : List Token) → names_of (ts ++ us) ≡ names_of ts ++ names_of us
unfolding names_of
names_of-append [] us = refl
names_of-append (lit c ∷ ts) us = names_of-append ts us
names_of-append (var name ∷ ts) us = ap (λ ns. name ∷ ns) (names_of-append ts us)
