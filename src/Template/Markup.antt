-- ===== src/Template/Markup.antt =====
-- Escaping of values in an HTML body, and the limits on what an interpolation returns.
use reccado.Prelude.{
  ℕ, zero, suc, ◌≤◌, ◌≡◌, ◌≢◌, refl, Bool, false, ◌||◌, Option, none, some, List, [], ◌∷◌, ◌++◌,
  inl, inr, arith, Option-cases, append_assoc, ◌+◌, if◌then◌else◌, ◌==◌, length, length-take-le,
  take, drop, All, keep, keep-append,
}
use reccado.Text.{Text, ascii, has_unit}
use reccado.Template.{
  Template, Variables, Token, lit, var, word_prefix, closed_name, match_variable, tokens_from,
  tokens, replace_unit, escape_html, replacement, render, interpolate, map_body, interpolate_html,
  lookup, Interpolated, interpolate_template, has_newline, max_subject_length, max_body_length,
}

-- The reference: each code unit by itself.
abbrev pub escape_unit : ℕ → Text
escape_unit c =
    if c == b'&'
    then ascii "&amp;"
    else if c == b'<'
    then ascii "&lt;"
    else if c == b'>'
    then ascii "&gt;"
    else if c == b'"'
    then ascii "&quot;"
    else if c == b'\''
    then ascii "&#39;"
    else c ∷ []

abbrev pub escape_each : Text → Text
escape_each [] = []
escape_each (c ∷ s) = escape_unit c ++ escape_each s

replace_unit-append :
    (c : ℕ) (by s t : Text)
    → replace_unit c by (s ++ t) ≡ replace_unit c by s ++ replace_unit c by t
unfolding replace_unit
replace_unit-append c by [] t = refl
replace_unit-append c by (d ∷ s) t = rw (replace_unit-append c by s t) (rw append_assoc refl)

escape_html-append : (s t : Text) → escape_html (s ++ t) ≡ escape_html s ++ escape_html t
unfolding escape_html
escape_html-append s t = simp replace_unit-append

escape_html_unit : (c : ℕ) → escape_html (c ∷ []) ≡ escape_unit c
unfolding escape_html replace_unit
escape_html_unit c = ground arith

-- The five global replacements, one after the other, escape each code unit once: no replacement
-- touches what an earlier one wrote.
pub escape_html-eq-escape_each : (s : Text) → escape_html s ≡ escape_each s
escape_html-eq-escape_each [] = unfold escape_html replace_unit in refl
escape_html-eq-escape_each (c ∷ s) =
    rw (escape_html-append (c ∷ []) s, escape_html_unit c, escape_html-eq-escape_each s) refl

-- The code units that can open or close a tag or an attribute value.
abbrev pub is_markup : ℕ → Bool
is_markup c = c == b'<' || c == b'>' || c == b'"' || c == b'\''

abbrev pub markup : Text → Text
markup s = keep is_markup s

markup-append : (s t : Text) → markup (s ++ t) ≡ markup s ++ markup t
markup-append s t = keep-append is_markup s t

markup-escape_unit : (c : ℕ) → markup (escape_unit c) ≡ []
unfolding keep
markup-escape_unit c = ground arith

markup-escape_each : (s : Text) → markup (escape_each s) ≡ []
markup-escape_each [] = unfold keep in refl
markup-escape_each (c ∷ s) =
    rw (markup-append (escape_unit c) (escape_each s), markup-escape_unit c, markup-escape_each s)
      refl

markup-escape_html : (s : Text) → markup (escape_html s) ≡ []
markup-escape_html s = rw (escape_html-eq-escape_each s) (markup-escape_each s)

markup-word_prefix : (s : Text) → markup (word_prefix s) ≡ []
unfolding word_prefix keep
markup-word_prefix [] = refl
markup-word_prefix (c ∷ s) = ground (arith, markup-word_prefix s)

markup-match_variable : (s name : Text) → match_variable s ≡ some name → markup name ≡ []
unfolding match_variable
markup-match_variable s name h = ground (
  arith,
  markup-word_prefix (drop 2 s),
  closed_name_same (word_prefix (drop 2 s)) (drop (length (word_prefix (drop 2 s))) (drop 2 s))
      name,
)
  where
    closed_name_same : (n t found : Text) → closed_name n t ≡ some found → found ≡ n
    closed_name_same [] t found e = ground arith
    closed_name_same (c ∷ n) t found e = ground arith

-- The text of a template between its placeholders.
abbrev pub literals : List Token → Text
literals [] = []
literals (lit c ∷ ts) = c ∷ literals ts
literals (var name ∷ ts) = literals ts

markup-placeholder :
    (name : Text) → markup name ≡ [] → markup (ascii "{{" ++ (name ++ ascii "}}")) ≡ []
markup-placeholder name h =
    rw (markup-append (ascii "{{") (name ++ ascii "}}"), markup-append name (ascii "}}"), h)
      (unfold keep in refl)

markup-replacement :
    (v : Variables) (name : Text)
    → markup name ≡ []
    → markup (replacement escape_html v (var name)) ≡ []
unfolding replacement
markup-replacement v name h = elim (Option-cases (lookup name v)) [
  | inl e ↦ rw (e, replacement) (markup-placeholder name h)
  | inr (x, e) ↦ rw (e, replacement) (markup-escape_html x)
]

markup-literal :
    (v : Variables) (c : ℕ) (ts : List Token)
    → markup (render escape_html v ts) ≡ markup (literals ts)
    → markup (render escape_html v (lit c ∷ ts)) ≡ markup (literals (lit c ∷ ts))
unfolding render replacement keep
markup-literal v c ts h = ground arith

markup-render :
    (v : Variables) (k : ℕ) (s : Text)
    → markup (render escape_html v (tokens_from k s)) ≡ markup (literals (tokens_from k s))
unfolding tokens_from render
markup-render v zero [] = refl
markup-render v (suc k) [] = refl
markup-render v (suc k) (c ∷ s) = markup-render v k s
markup-render v zero (c ∷ s) = elim (Option-cases (match_variable (c ∷ s))) [
  | inl e ↦ rw (e, tokens_from) (markup-literal v c (tokens_from zero s) (markup-render v zero s))
  | inr (name, e) ↦
      rw (e, tokens_from)
        (rw
          (
            markup-append (replacement escape_html v (var name))
                (render escape_html v (tokens_from (length name + 3) s)),
            markup-replacement v name (markup-match_variable (c ∷ s) name e),
          )
          (markup-render v (length name + 3) s))
]

-- The values never add markup: the `<`, `>` and quotes of an interpolated HTML body are exactly
-- those of the template's own text, in its order, whatever the values are.
pub markup-interpolate_html :
    (v : Variables) (s : Text) → markup (interpolate_html v s) ≡ markup (literals (tokens s))
unfolding interpolate_html tokens
markup-interpolate_html v s = markup-render v zero s

abbrev pub IsOneLine : Text → Type 0
IsOneLine s = All (λ c. (c ≢ 13) × (c ≢ 10)) s

no_newline : (s : Text) → has_newline s ≡ false → IsOneLine s
unfolding has_newline has_unit
no_newline [] h = tt
no_newline (c ∷ s) h = ground (arith, no_newline s)

abbrev pub IsWithin : ℕ → Option Text → Type 0
IsWithin n none = Unit
IsWithin n (some s) = length s ≤ n

IsWithin-take :
    (f : Text → Text) (body : Option Text)
    → IsWithin max_body_length (map_body (λ s. take max_body_length (f s)) body)
IsWithin-take f none = tt
IsWithin-take f (some []) = tt
IsWithin-take f (some (c ∷ s)) = length-take-le max_body_length (f (c ∷ s))

-- What an interpolation returns fits: the subject is one line of at most 998 code units, so a value
-- cannot start another header, and each body has at most 100,000.
pub interpolate_template_fits :
    (t : Template) (v : Variables) (r : Interpolated)
    → interpolate_template t v ≡ some r
    → IsOneLine r.subject
      × (length r.subject ≤ max_subject_length)
      × IsWithin max_body_length r.body_text
      × IsWithin max_body_length r.body_html
unfolding interpolate_template
interpolate_template_fits t v r h =
    let subject = interpolate v t.subject in
    (
      ground (arith, no_newline (take max_subject_length subject)),
      (let e : r.subject ≡ take max_subject_length subject = ground arith in
          rw e (length-take-le max_subject_length subject)),
      ground (arith, IsWithin-take (interpolate v) t.body_text),
      ground (arith, IsWithin-take (interpolate_html v) t.body_html),
    )
