-- ===== src/Payload.antt =====
-- src/lib/transactional-send.ts: the payload hashes of idempotent requests, and the part of
-- `JSON.stringify` that they use.
pub mod Order
use Prim.Native.Nat.{compare, Ordering}
use reccado.Prelude.{
  ℕ, ◌/◌, ◌%◌, Bool, true, false, ◌&&◌, ◌||◌, List, [], ◌∷◌, ◌++◌, map, ltb, leb, ◌==◌,
  if◌then◌else◌,
}
use reccado.Text.{Text, ascii, ◌===◌, trim, to_lower, starts_with}
use reccado.Template.{Variables}
use reccado.ApiKey.{Platform, hex_digit, sha256_hex}

abbrev pub is_high : ℕ → Bool
is_high c = leb 0xd800 c && leb c 0xdbff

abbrev pub is_low : ℕ → Bool
is_low c = leb 0xdc00 c && leb c 0xdfff

abbrev pub unicode_escape : ℕ → Text
unicode_escape c =
    ascii "\\u"
    ++ (hex_digit (c / 4096)
        ∷ (hex_digit (c / 256 % 16) ∷ (hex_digit (c / 16 % 16) ∷ (hex_digit (c % 16) ∷ []))))

-- A code unit inside a JSON string; a surrogate that comes here stands alone.
unfoldable pub json_unit : ℕ → Text
json_unit c =
    if c == b'"'
    then ascii "\\\""
    else if c == b'\\'
    then ascii "\\\\"
    else if c == 8
    then ascii "\\b"
    else if c == 9
    then ascii "\\t"
    else if c == 10
    then ascii "\\n"
    else if c == 12
    then ascii "\\f"
    else if c == 13
    then ascii "\\r"
    else if ltb c 32 || is_high c || is_low c
    then unicode_escape c
    else c ∷ []

unfoldable pub json_units : Text → Text
unfolding json_unit
json_units [] = []
json_units (c ∷ []) = json_unit c
json_units (c ∷ (d ∷ s)) =
    let paired = c ∷ (d ∷ json_units s) in
    let single = json_unit c ++ json_units (d ∷ s) in
    if is_high c && is_low d then paired else single

unfoldable pub json_string : Text → Text
unfolding json_units
json_string s = b'"' ∷ (json_units s ++ (b'"' ∷ []))

-- Texts with a comma between each two.
unfoldable pub comma_join : List Text → Text
comma_join [] = []
comma_join (s ∷ []) = s
comma_join (s ∷ (t ∷ rest)) = s ++ (b',' ∷ comma_join (t ∷ rest))

abbrev pub json_array : List Text → Text
json_array items = b'[' ∷ (comma_join items ++ (b']' ∷ []))

abbrev pub json_member : Text → Text → Text
json_member name value = json_string name ++ (b':' ∷ value)

abbrev pub json_object : List Text → Text
json_object members = b'{' ∷ (comma_join members ++ (b'}' ∷ []))

-- The order of `Array.prototype.sort` on strings: by code units.
unfoldable pub text_le : Text → Text → Bool
text_le [] t = true
text_le (a ∷ s) [] = false
text_le (a ∷ s) (b ∷ t) =
    let rest = text_le s t in
    elim (compare a b) [ Ordering.lt ↦ true | Ordering.eq ↦ rest | Ordering.gt ↦ false ]

unfoldable pub insert_variable : Text × Text → Variables → Variables
unfolding text_le
insert_variable v [] = v ∷ []
insert_variable v (w ∷ ws) =
    let rest = insert_variable v ws in if text_le v.0 w.0 then v ∷ (w ∷ ws) else w ∷ rest

unfoldable pub sort_variables : Variables → Variables
unfolding insert_variable
sort_variables [] = []
sort_variables (v ∷ vs) = insert_variable v (sort_variables vs)

pub record HashInput : Type 0 where
  pub key_id : Text
  pub client_idempotency_key : Text
  pub template : Text
  pub to : Text
  pub variables : Variables

abbrev pub json_pair : Text × Text → Text
json_pair v = json_array (json_string v.0 ∷ (json_string v.1 ∷ []))

unfoldable pub canonical_payload : HashInput → Text
canonical_payload input = json_array (
    json_string input.key_id
    ∷ (json_string input.client_idempotency_key
        ∷ (json_string input.template
            ∷ (json_string (to_lower (trim input.to))
                ∷ (json_array (map json_pair (sort_variables input.variables)) ∷ [])))))

abbrev pub json_entry : Text × Text → Text
json_entry v = json_member v.0 (json_string v.1)

unfoldable pub legacy_payload : HashInput → Text
legacy_payload input = to_lower (
    input.key_id
    ++ (b':'
        ∷ (input.client_idempotency_key
            ++ (b':'
                ∷ json_object (
                    json_member (ascii "template") (json_string input.template)
                    ∷ (json_member (ascii "to") (json_string (to_lower input.to))
                        ∷ (json_member (ascii "variables")
                              (json_object (map json_entry input.variables))
                            ∷ (json_member (ascii "sortKeys") (ascii "true") ∷ []))))))))

module _ (p : Platform) where
  unfoldable pub transactional_payload_hash : HashInput → Text
  transactional_payload_hash input =
      ascii "v2:" ++ sha256_hex p (p.encode (canonical_payload input))

  unfoldable pub legacy_transactional_payload_hash : HashInput → Text
  legacy_transactional_payload_hash input = sha256_hex p (p.encode (legacy_payload input))

  unfoldable pub payload_hash_matches : Text → HashInput → Bool
  payload_hash_matches stored input =
      if starts_with stored (ascii "v2:")
      then stored === transactional_payload_hash input
      else stored === legacy_transactional_payload_hash input
