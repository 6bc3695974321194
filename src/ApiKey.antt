-- ===== src/ApiKey.antt =====
-- src/lib/transactional-keys.ts and src/lib/crypto.ts: the text form of an API key, its hash and its checks.
pub mod RoundTrip
pub mod Secret
use Prim.Native.Nat.{bit_or, bit_xor}
use reccado.Prelude.{
  ℕ, zero, suc, ◌+◌, ◌-◌, ◌*◌, ◌/◌, ◌%◌, ◌^◌, min, Bool, true, false, ◌&&◌, ◌||◌, not, Option, none,
  some, List, [], ◌∷◌, ◌++◌, reverse, leb, ltb, ◌==◌, if◌then◌else◌, length, take, drop, all,
}
use reccado.Text.{Text, ascii, ◌===◌, trim, has_unit, split}

-- What the code asks of the Web Crypto API, of `TextEncoder` and of zod's `email()`.
pub record Platform : Type 0 where
  pub encode : Text → List ℕ
  pub digest : List ℕ → List ℕ
  pub sign : List ℕ → List ℕ → List ℕ
  pub is_email : Text → Bool

abbrev pub hex_digit : ℕ → ℕ
hex_digit d = if ltb d 10 then b'0' + d else b'a' + (d - 10)

-- `byte.toString(16).padStart(2, "0")`, one after the other
unfoldable pub hex : List ℕ → Text
hex [] = []
hex (byte ∷ bytes) = hex_digit (byte / 16) ∷ (hex_digit (byte % 16) ∷ hex bytes)

-- A digit of "0123456789abcdefghijklmnopqrstuv".
unfoldable pub base32_digit : ℕ → ℕ
base32_digit d = if ltb d 10 then b'0' + d else b'a' + (d - 10)

-- The inner loop: the digits while at least five bits are left. `value` is a 32-bit word.
unfoldable pub drain : ℕ → ℕ → Text
drain (suc (suc (suc (suc (suc bits))))) value =
    base32_digit (value / 2 ^ bits % 32) ∷ drain bits value
drain bits value = []

unfoldable pub encode_from : ℕ → ℕ → List ℕ → Text
unfolding drain
encode_from bits value [] =
    if ltb 0 bits then base32_digit (value * 2 ^ (5 - bits) % 32) ∷ [] else []
encode_from bits value (byte ∷ bytes) =
    let word = value * 256 % 2 ^ 32 + byte in
    drain (bits + 8) word ++ encode_from ((bits + 8) % 5) word bytes

unfoldable pub base32url_encode : List ℕ → Text
unfolding encode_from
base32url_encode bytes = encode_from 0 0 bytes

pub data KeyEnvironment : Type 0 where
  test live : KeyEnvironment

abbrev pub environment_text : KeyEnvironment → Text
environment_text test = ascii "test"
environment_text live = ascii "live"

pub data KeyScope : Type 0 where
  transactional_send transactional_status transactional_templates_use : KeyScope

pub data KeyStatus : Type 0 where
  active revoked : KeyStatus

-- An instant in milliseconds. The ISO texts that the code stores compare as these do.
abbrev pub Instant : Type 0
Instant = ℕ

-- A date text that came from outside; `new Date` of one that does not parse is no instant.
pub data DateText : Type 0 where
  instant : ℕ → DateText
  unparsable : DateText

-- A row of `api_keys`, and the record made from it.
pub record ApiKeyRecord : Type 0 where
  pub key_id : Text
  pub hash_version : ℕ
  pub key_hash : Text
  pub display_suffix : Text
  pub environment : KeyEnvironment
  pub mailbox_id : Text
  pub sender : Text
  pub sender_name : Option Text
  pub scopes : List KeyScope
  pub template_allowlist : Option (List Text)
  pub recipient_policy : Option Text
  pub quota_max : Option ℕ
  pub expires_at : Option DateText
  pub status : KeyStatus
  pub created_at : Instant
  pub updated_at : Instant
  pub revoked_at : Option Instant

unfoldable pub format_api_key : KeyEnvironment → Text → Text → Text
format_api_key environment key_id secret =
    ascii "rck_" ++ (environment_text environment ++ (b'_' ∷ (key_id ++ (b'_' ∷ secret))))

unfoldable pub parse_environment : Text → Option KeyEnvironment
parse_environment s =
    if s === ascii "test" then some test else if s === ascii "live" then some live else none

unfoldable pub is_hex : ℕ → Bool
is_hex c = leb b'0' c && leb c b'9' || leb b'a' c && leb c b'f' || leb b'A' c && leb c b'F'

pub record ParsedKey : Type 0 where
  pub environment : KeyEnvironment
  pub key_id : Text
  pub secret : Text

abbrev pub with_environment : Option KeyEnvironment → Text → Text → Option ParsedKey
with_environment none key_id secret = none
with_environment (some environment) key_id secret =
    if not (length key_id == 32 && all is_hex key_id)
    then none
    else if ltb (length secret) 10
    then none
    else some (record { environment = environment; key_id = key_id; secret = secret })

unfoldable pub parse_parts : List Text → Option ParsedKey
parse_parts (prefix ∷ (environment ∷ (key_id ∷ (secret ∷ [])))) =
    if prefix === ascii "rck"
    then with_environment (parse_environment environment) key_id secret
    else none
parse_parts _ = none

unfoldable pub parse_api_key : Text → Option ParsedKey
parse_api_key full_key = parse_parts (split full_key b'_')

-- The two loops of `constantTimeEqual`.
unfoldable pub differences : ℕ → Text → Text → ℕ
differences result (a ∷ s) (b ∷ t) = differences (bit_or result (bit_xor a b)) s t
differences result _ _ = result

unfoldable pub constant_time_equal : Text → Text → Bool
constant_time_equal a b =
    if not (length a == length b)
    then differences (bit_xor (length a) (length b)) a b == 0
    else differences 0 a b == 0

-- `isApiKeyExpired`
unfoldable pub is_api_key_expired : ApiKeyRecord → Instant → Bool
is_api_key_expired key now = elim key.expires_at [
  | none ↦ false
  | some date ↦ elim date [ instant at ↦ leb at now | unparsable ↦ false ]
]

abbrev pub same_environment : KeyEnvironment → KeyEnvironment → Bool
same_environment test test = true
same_environment live live = true
same_environment _ _ = false

abbrev pub same_scope : KeyScope → KeyScope → Bool
same_scope transactional_send transactional_send = true
same_scope transactional_status transactional_status = true
same_scope transactional_templates_use transactional_templates_use = true
same_scope _ _ = false

unfoldable pub has_scope : List KeyScope → KeyScope → Bool
has_scope [] scope = false
has_scope (s ∷ scopes) scope = same_scope s scope || has_scope scopes scope

-- `sendScopeHasTemplateUse`
unfoldable pub send_scope_has_template_use : List KeyScope → Bool
send_scope_has_template_use scopes =
    not (has_scope scopes transactional_send) || has_scope scopes transactional_templates_use

-- `displaySuffix`: `secret.slice(-6)`
unfoldable pub display_suffix : Text → Text
display_suffix secret = drop (length secret - 6) secret

abbrev pub max_sender_name_length : ℕ
max_sender_name_length = 64

abbrev pub is_name_unit : ℕ → Bool
is_name_unit c = leb 0x20 c && leb c 0x7e && not (c == b'<' || c == b'>' || c == b'"')

unfoldable pub is_valid_sender_name : Text → Bool
is_valid_sender_name value =
    if length value == 0 || ltb max_sender_name_length (length value)
    then false
    else all is_name_unit value

-- A name, no name, or the error `invalid_sender_name`.
pub data NameResult : Type 0 where
  name : Option Text → NameResult
  invalid_sender_name : NameResult

abbrev pub normalize_trimmed : Text → NameResult
normalize_trimmed [] = name none
normalize_trimmed (c ∷ s) =
    if is_valid_sender_name (c ∷ s) then name (some (c ∷ s)) else invalid_sender_name

unfoldable pub normalize_sender_name : Option Text → NameResult
normalize_sender_name none = name none
normalize_sender_name (some value) = normalize_trimmed (trim value)

module _ (p : Platform) where
  unfoldable pub sha256_hex : List ℕ → Text
  sha256_hex bytes = hex (p.digest bytes)

  unfoldable pub hash_api_key : Text → Text → Text → Text
  hash_api_key pepper key_id secret =
      sha256_hex (p.sign (p.encode pepper) (p.encode (key_id ++ (b':' ∷ secret))))

  unfoldable pub verify_api_key_secret : Text → Text → ApiKeyRecord → Bool
  verify_api_key_secret pepper candidate key = elim (parse_api_key candidate) [
    | none ↦ false
    | some parsed ↦
        same_environment parsed.environment key.environment
        && (parsed.key_id === key.key_id
            && constant_time_equal (hash_api_key pepper key.key_id parsed.secret) key.key_hash)
  ]

  unfoldable pub verify_api_key : Text → Text → ApiKeyRecord → Instant → Bool
  verify_api_key pepper candidate key now =
      let secret_ok = verify_api_key_secret pepper candidate key in
      elim key.status [
        | revoked ↦ false
        | active ↦ if is_api_key_expired key now then false else secret_ok
      ]
