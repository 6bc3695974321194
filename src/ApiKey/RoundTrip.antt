-- ===== src/ApiKey/RoundTrip.antt =====
-- src/lib/transactional-keys.ts and src/lib/crypto.ts: formatting, parsing and generating a key.
use reccado.Prelude.{
  ℕ, zero, suc, ◌+◌, ◌-◌, ◌*◌, ◌/◌, ◌%◌, ◌^◌, ◌≤◌, ◌≡◌, ◌≢◌, refl, true, some, List, [], ◌∷◌, ◌++◌,
  arith, length, length-append, All, All-append, all,
}
use reccado.Text.{Text, ascii, split, ◌===◌}
use reccado.ApiKey.{
  KeyEnvironment, test, live, environment_text, format_api_key, parse_environment, is_hex,
  parse_parts, parse_api_key, base32_digit, drain, encode_from, base32url_encode,
}

abbrev pub Lacks : ℕ → Text → Type 0
Lacks sep s = All (λ c. c ≢ sep) s

pub split-append : (sep : ℕ) (s t : Text) → Lacks sep s → split (s ++ sep ∷ t) sep ≡ s ∷ split t sep
unfolding split
split-append sep [] t h = ground arith
split-append sep (c ∷ s) t h = ground (arith, split-append sep s t)

split_whole : (sep : ℕ) (s : Text) → Lacks sep s → split s sep ≡ s ∷ []
unfolding split
split_whole sep [] h = refl
split_whole sep (c ∷ s) h = ground (arith, split_whole sep s)

hex-Lacks : (s : Text) → all is_hex s ≡ true → Lacks b'_' s
unfolding all is_hex
hex-Lacks [] h = tt
hex-Lacks (c ∷ s) h = ground (arith, hex-Lacks s)

-- Formatting a key and parsing it gives its environment, id and secret back, for every id of 32
-- hexadecimal digits and every secret of ten or more characters without an underscore.
pub parse-format_api_key :
    (environment : KeyEnvironment) (key_id secret : Text)
    → length key_id ≡ 32
    → all is_hex key_id ≡ true
    → Lacks b'_' secret
    → 10 ≤ length secret
    → parse_api_key (format_api_key environment key_id secret)
      ≡ some (record { environment = environment; key_id = key_id; secret = secret })
unfolding parse_api_key format_api_key
parse-format_api_key environment key_id secret hl hh hs hm =
    rw
      (
        split-append b'_' (ascii "rck")
            (environment_text environment ++ (b'_' ∷ (key_id ++ (b'_' ∷ secret)))) (omega arith),
        split-append b'_' (environment_text environment) (key_id ++ (b'_' ∷ secret))
            (environment_lacks environment),
        split-append b'_' key_id secret (hex-Lacks key_id hh),
        split_whole b'_' secret hs,
      )
      (parts environment)
  where
    environment_lacks : (e : KeyEnvironment) → Lacks b'_' (environment_text e)
    environment_lacks test = omega arith
    environment_lacks live = omega arith

    parts :
        (e : KeyEnvironment)
        → parse_parts (ascii "rck" ∷ (environment_text e ∷ (key_id ∷ (secret ∷ []))))
          ≡ some (record { environment = e; key_id = key_id; secret = secret })
    parts test = unfold parse_parts parse_environment ◌===◌ in ground arith
    parts live = unfold parse_parts parse_environment ◌===◌ in ground arith

abbrev IsDigit : ℕ → Type 0
IsDigit c = c ≢ b'_'

base32_digit-ne : (d : ℕ) → d ≤ 31 → base32_digit d ≢ b'_'
unfolding base32_digit
base32_digit-ne d h = ground arith

drain-Lacks : (bits value : ℕ) → Lacks b'_' (drain bits value)
unfolding drain
drain-Lacks (suc (suc (suc (suc (suc bits))))) value =
    (base32_digit-ne (value / 2 ^ bits % 32) (omega arith), drain-Lacks bits value)
drain-Lacks zero value = tt
drain-Lacks (suc zero) value = tt
drain-Lacks (suc (suc zero)) value = tt
drain-Lacks (suc (suc (suc zero))) value = tt
drain-Lacks (suc (suc (suc (suc zero)))) value = tt

encode_from-Lacks : (bits value : ℕ) (bytes : List ℕ) → Lacks b'_' (encode_from bits value bytes)
unfolding encode_from
encode_from-Lacks bits value [] = ground (arith, base32_digit-ne (value * 2 ^ (5 - bits) % 32))
encode_from-Lacks bits value (byte ∷ bytes) =
    let word = value * 256 % 2 ^ 32 + byte in
    All-append (λ c. c ≢ b'_') (drain (bits + 8) word) (encode_from ((bits + 8) % 5) word bytes)
      (drain-Lacks (bits + 8) word) (encode_from-Lacks ((bits + 8) % 5) word bytes)

length-drain : (bits value : ℕ) → length (drain bits value) ≡ bits / 5
unfolding drain
length-drain (suc (suc (suc (suc (suc bits))))) value = omega (arith, length-drain bits value)
length-drain zero value = omega arith
length-drain (suc zero) value = omega arith
length-drain (suc (suc zero)) value = omega arith
length-drain (suc (suc (suc zero))) value = omega arith
length-drain (suc (suc (suc (suc zero)))) value = omega arith

length-encode_from :
    (bits value : ℕ) (bytes : List ℕ)
    → bits ≤ 4
    → length (encode_from bits value bytes) ≡ (bits + 8 * length bytes + 4) / 5
unfolding encode_from
length-encode_from bits value [] h = ground arith
length-encode_from bits value (byte ∷ bytes) h =
    let word = value * 256 % 2 ^ 32 + byte in
    omega (
      arith,
      length-append (drain (bits + 8) word) (encode_from ((bits + 8) % 5) word bytes),
      length-drain (bits + 8) word,
      length-encode_from ((bits + 8) % 5) word bytes (omega arith),
    )

-- A secret made from n bytes has ⌈8n / 5⌉ characters, so 52 from the 32 bytes of a new key.
pub length-base32url_encode :
    (bytes : List ℕ) → length (base32url_encode bytes) ≡ (8 * length bytes + 4) / 5
unfolding base32url_encode
length-base32url_encode bytes = omega (arith, length-encode_from 0 0 bytes (omega arith))

-- Every key that the code generates, from 32 random bytes and a UUID's 32 digits, parses back.
pub parse-generated :
    (environment : KeyEnvironment) (key_id : Text) (bytes : List ℕ)
    → length key_id ≡ 32
    → all is_hex key_id ≡ true
    → length bytes ≡ 32
    → parse_api_key (format_api_key environment key_id (base32url_encode bytes))
      ≡ some
          (record { environment = environment; key_id = key_id; secret = base32url_encode bytes })
parse-generated environment key_id bytes hl hh hb =
    parse-format_api_key environment key_id (base32url_encode bytes) hl hh
      (unfold base32url_encode in encode_from-Lacks 0 0 bytes)
      (omega (arith, length-base32url_encode bytes))
