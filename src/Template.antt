-- ===== src/Template.antt =====
-- src/lib/transactional-send.ts: the placeholders of a template, their validation and interpolation.
pub mod Tokens
pub mod Validation
pub mod Markup
use reccado.Prelude.{
  ℕ, zero, suc, ◌+◌, Bool, true, false, ◌&&◌, ◌||◌, Option, none, some, List, [], ◌∷◌, ◌++◌, ltb,
  leb, ◌==◌, if◌then◌else◌, length, take, drop,
}
use reccado.Text.{Text, ascii, ◌===◌, starts_with, has_unit, contains}

abbrev pub max_subject_length : ℕ
max_subject_length = 998

abbrev pub max_body_length : ℕ
max_body_length = 100_000

abbrev pub max_variable_count : ℕ
max_variable_count = 50

pub record Template : Type 0 where
  pub id : Text
  pub subject : Text
  pub body_text : Option Text
  pub body_html : Option Text

-- A `Record<string, string>`: the own keys of the object, each once, with their values.
abbrev pub Variables : Type 0
Variables = List (Text × Text)

-- `\w`
unfoldable pub is_word : ℕ → Bool
is_word c =
    leb b'a' c && leb c b'z' || leb b'A' c && leb c b'Z' || leb b'0' c && leb c b'9' || c == b'_'

-- The text that `\w+` takes, which is greedy.
unfoldable pub word_prefix : Text → Text
unfolding is_word
word_prefix [] = []
word_prefix (c ∷ s) = let rest = word_prefix s in if is_word c then c ∷ rest else []

unfoldable pub closed_name : Text → Text → Option Text
unfolding starts_with
closed_name [] s = none
closed_name (c ∷ name) s = if starts_with s (ascii "}}") then some (c ∷ name) else none

-- `VARIABLE_RE` at the head of a text: the name, if one stands there.
unfoldable pub match_variable : Text → Option Text
unfolding starts_with word_prefix closed_name
match_variable s =
    if starts_with s (ascii "{{")
    then closed_name (word_prefix (drop 2 s)) (drop (length (word_prefix (drop 2 s))) (drop 2 s))
    else none

pub data Token : Type 0 where
  lit : ℕ → Token
  var : Text → Token

-- The matches of `VARIABLE_RE`, left to right, and the code units between them. The number counts
-- the code units that the last match still covers.
unfoldable pub tokens_from : ℕ → Text → List Token
unfolding match_variable
tokens_from k [] = []
tokens_from (suc k) (c ∷ s) = tokens_from k s
tokens_from zero (c ∷ s) = elim (match_variable (c ∷ s)) [
  | none ↦ lit c ∷ tokens_from zero s
  | some name ↦ var name ∷ tokens_from (length name + 3) s
]

unfoldable pub tokens : Text → List Token
unfolding tokens_from
tokens s = tokens_from zero s

unfoldable pub names_of : List Token → List Text
names_of [] = []
names_of (lit c ∷ ts) = names_of ts
names_of (var name ∷ ts) = name ∷ names_of ts

-- `set.add(name)` for each name in turn
unfoldable pub add_all : List Text → List Text → List Text
unfolding contains
add_all set [] = set
add_all set (name ∷ names) = add_all (if contains set name then set else set ++ name ∷ []) names

abbrev pub or_empty : Option Text → Text
or_empty none = []
or_empty (some s) = s

unfoldable pub extract_template_variables : Template → List Text
unfolding add_all names_of tokens
extract_template_variables template = add_all [] (
    names_of (
      tokens (
        template.subject
        ++ (b' ' ∷ (or_empty template.body_text ++ (b' ' ∷ or_empty template.body_html))))))

unfoldable pub lookup : Text → Variables → Option Text
unfolding ◌===◌
lookup name [] = none
lookup name ((key, value) ∷ variables) = if key === name then some value else lookup name variables

unfoldable pub keys : Variables → List Text
keys [] = []
keys ((key, value) ∷ variables) = key ∷ keys variables

-- The members of a list that a set lacks.
unfoldable pub lacking : List Text → List Text → List Text
unfolding contains
lacking set [] = []
lacking set (name ∷ names) =
    let rest = lacking set names in if contains set name then rest else name ∷ rest

pub record VariableValidation : Type 0 where
  pub missing : List Text
  pub unknown : List Text
  pub ok : Bool

abbrev pub is_empty {ℓ} : {A : Type ℓ} → List A → Bool
is_empty [] = true
is_empty (x ∷ xs) = false

unfoldable pub validate_template_variables : Template → Variables → VariableValidation
unfolding extract_template_variables keys lacking
validate_template_variables template variables =
    let referenced = extract_template_variables template in
    let provided = keys variables in
    let missing = lacking provided referenced in
    let unknown = lacking referenced provided in
    record { missing = missing; unknown = unknown; ok = is_empty missing && is_empty unknown }

-- `s.replace(/c/g, by)`
unfoldable pub replace_unit : ℕ → Text → Text → Text
replace_unit c by [] = []
replace_unit c by (d ∷ s) = (if d == c then by else d ∷ []) ++ replace_unit c by s

unfoldable pub escape_html : Text → Text
unfolding replace_unit
escape_html s = replace_unit b'\'' (ascii "&#39;") (
    replace_unit b'"' (ascii "&quot;") (
      replace_unit b'>' (ascii "&gt;")
        (replace_unit b'<' (ascii "&lt;") (replace_unit b'&' (ascii "&amp;") s))))

abbrev pub placeholder : Text → Text
placeholder name = ascii "{{" ++ (name ++ ascii "}}")

-- The replacer function: the value in the body's form, or the match itself.
unfoldable pub replacement : (Text → Text) → Variables → Token → Text
unfolding lookup
replacement form variables (lit c) = c ∷ []
replacement form variables (var name) = elim (lookup name variables) [
  | none ↦ placeholder name
  | some value ↦ form value
]

unfoldable pub render : (Text → Text) → Variables → List Token → Text
unfolding replacement
render form variables [] = []
render form variables (t ∷ ts) = replacement form variables t ++ render form variables ts

unfoldable pub interpolate : Variables → Text → Text
unfolding render tokens
interpolate variables s = render (λ value. value) variables (tokens s)

unfoldable pub interpolate_html : Variables → Text → Text
unfolding render tokens escape_html
interpolate_html variables s = render escape_html variables (tokens s)

pub record Interpolated : Type 0 where
  pub subject : Text
  pub body_text : Option Text
  pub body_html : Option Text

-- `body ? f(body) : null`, where an empty body is false too
abbrev pub map_body : (Text → Text) → Option Text → Option Text
map_body f none = none
map_body f (some []) = none
map_body f (some (c ∷ s)) = some (f (c ∷ s))

unfoldable pub has_newline : Text → Bool
unfolding has_unit
has_newline s = has_unit s 13 || has_unit s 10

unfoldable pub interpolate_template : Template → Variables → Option Interpolated
interpolate_template template variables =
    if ltb max_variable_count (length variables)
    then none
    else let subject = take max_subject_length (interpolate variables template.subject) in
      if has_newline subject
      then none
      else some (record {
        subject = subject;
        body_text =
            map_body (λ s. take max_body_length (interpolate variables s)) template.body_text;
        body_html =
            map_body (λ s. take max_body_length (interpolate_html variables s)) template.body_html;
      })
