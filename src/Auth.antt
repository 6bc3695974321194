-- ===== src/Auth.antt =====
-- src/do/transactional-send-ops.ts: `authenticateTransactionalKey`, which the send and the status route
-- share.
pub mod Decision
use reccado.Prelude.{
  Bool, true, false, ◌&&◌, not, Option, none, some, List, [], ◌∷◌, drop, find, if◌then◌else◌,
}
use reccado.Text.{Text, ascii, ◌===◌, trim, starts_with}
use reccado.ApiKey.{
  Platform, ApiKeyRecord, ParsedKey, KeyScope, KeyStatus, Instant, parse_api_key,
  verify_api_key_secret, is_api_key_expired, has_scope,
}
use reccado.Mailbox.{Mailbox}

pub data KeyAuthError : Type 0 where
  missing_authorization invalid_api_key key_does_not_belong_to_mailbox : KeyAuthError
  key_revoked key_expired insufficient_scope : KeyAuthError

pub data KeyAuth : Type 0 where
  ok : Text → ApiKeyRecord → KeyAuth
  refused : Text → KeyAuthError → KeyAuth

pub record AuthRequest : Type 0 where
  pub mailbox_id : Text
  pub auth_header : Option Text
  pub required_scopes : List KeyScope

unfoldable pub get_api_key_record : Mailbox → Text → Option ApiKeyRecord
unfolding find ◌===◌
get_api_key_record m key_id = find (λ k. k.key_id === key_id) m.api_keys

-- The loop over the required scopes.
unfoldable pub has_scopes : List KeyScope → List KeyScope → Bool
unfolding has_scope
has_scopes scopes [] = true
has_scopes scopes (scope ∷ required) = has_scope scopes scope && has_scopes scopes required

-- Step 4: what the holder of the secret may learn.
unfoldable pub check_key_state : AuthRequest → Text → ApiKeyRecord → Instant → KeyAuth
check_key_state request key_id key now =
    if not (key.mailbox_id === request.mailbox_id)
    then refused key_id key_does_not_belong_to_mailbox
    else elim key.status [
      | KeyStatus.revoked ↦ refused key_id key_revoked
      | KeyStatus.active ↦
          if is_api_key_expired key now
          then refused key_id key_expired
          else if has_scopes key.scopes request.required_scopes
          then ok key_id key
          else refused key_id insufficient_scope
    ]

abbrev pub bearer_key : Text → Option Text
bearer_key header =
    if starts_with header (ascii "Bearer ") then some (trim (drop 7 header)) else none

module _ (p : Platform) (pepper : Text) where
  -- Step 3, and step 4 behind it.
  unfoldable pub check_key : AuthRequest → Text → Text → ApiKeyRecord → Instant → KeyAuth
  check_key request raw_key key_id key now =
      if verify_api_key_secret p pepper raw_key key
      then check_key_state request key_id key now
      else refused key_id invalid_api_key

  -- Step 2.
  unfoldable pub check_raw_key : Mailbox → AuthRequest → Text → Instant → KeyAuth
  check_raw_key m request raw_key now = elim (parse_api_key raw_key) [
    | none ↦ refused [] invalid_api_key
    | some parsed ↦ elim (get_api_key_record m parsed.key_id) [
      | none ↦ refused parsed.key_id invalid_api_key
      | some key ↦ check_key request raw_key parsed.key_id key now
    ]
  ]

  abbrev pub check_bearer : Mailbox → AuthRequest → Option Text → Instant → KeyAuth
  check_bearer m request none now = refused [] missing_authorization
  check_bearer m request (some []) now = refused [] missing_authorization
  check_bearer m request (some (c ∷ raw_key)) now = check_raw_key m request (c ∷ raw_key) now

  unfoldable pub authenticate_transactional_key : Mailbox → AuthRequest → Instant → KeyAuth
  authenticate_transactional_key m request now = elim request.auth_header [
    | none ↦ refused [] missing_authorization
    | some header ↦ check_bearer m request (bearer_key header) now
  ]
