-- ===== src/Text.antt =====
-- The operations of JavaScript strings that the mailbox code uses, on lists of UTF-16 code units.
-- `to_lower` maps the ASCII letters; other characters are taken to be in lower case already.
mod Equality
pub mod Splitting
pub mod Trimming
pub use Equality.{Text, ascii, ===_refl, ===_iff, ===_sym}
unfoldable pub use Equality.{◌===◌}
use reccado.Prelude.{
  ℕ, ◌+◌, ◌-◌, Bool, true, false, ◌&&◌, ◌||◌, List, [], ◌∷◌, ◌++◌, map, reverse, leb, ◌==◌,
  if◌then◌else◌, length, drop,
}

-- The `WhiteSpace` and `LineTerminator` of the language: what `trim` strips and `\s` matches.
unfoldable pub is_space : ℕ → Bool
is_space c =
    leb 9 c && leb c 13
    || c == 32
    || c == 160
    || c == 0x1680
    || leb 0x2000 c && leb c 0x200a
    || leb 0x2028 c && leb c 0x2029
    || c == 0x202f
    || c == 0x205f
    || c == 0x3000
    || c == 0xfeff

unfoldable pub trim_start : Text → Text
trim_start [] = []
trim_start (c ∷ s) = let rest = trim_start s in if is_space c then rest else c ∷ s

-- `s.trim()`
unfoldable pub trim : Text → Text
unfolding trim_start is_space
trim s = reverse (trim_start (reverse (trim_start s)))

unfoldable pub lower_unit : ℕ → ℕ
lower_unit c = if leb b'A' c && leb c b'Z' then c + 32 else c

-- `s.toLowerCase()`
unfoldable pub to_lower : Text → Text
unfolding lower_unit
to_lower s = map lower_unit s

-- `s.startsWith(prefix)`
unfoldable pub starts_with : Text → Text → Bool
starts_with s [] = true
starts_with [] (p ∷ prefix) = false
starts_with (c ∷ s) (p ∷ prefix) = c == p && starts_with s prefix

-- `s.endsWith(suffix)`
unfoldable pub ends_with : Text → Text → Bool
unfolding ◌===◌
ends_with s suffix = leb (length suffix) (length s) && drop (length s - length suffix) s === suffix

-- `s.includes(c)`, for a string of one code unit
unfoldable pub has_unit : Text → ℕ → Bool
has_unit [] c = false
has_unit (d ∷ s) c = d == c || has_unit s c

-- `s.includes(part)`
unfoldable pub includes : Text → Text → Bool
unfolding starts_with
includes [] part = starts_with [] part
includes (c ∷ s) part = starts_with (c ∷ s) part || includes s part

unfoldable pub onto_first : ℕ → List Text → List Text
onto_first c [] = (c ∷ []) ∷ []
onto_first c (part ∷ parts) = (c ∷ part) ∷ parts

-- `s.split(sep)`, for a separator of one code unit
unfoldable pub split : Text → ℕ → List Text
unfolding onto_first
split [] sep = [] ∷ []
split (c ∷ s) sep = let rest = split s sep in if c == sep then [] ∷ rest else onto_first c rest

-- `list.includes(s)`, and `set.has(s)` where the set is kept as a list
unfoldable pub contains : List Text → Text → Bool
unfolding ◌===◌
contains [] s = false
contains (t ∷ list) s = t === s || contains list s
