-- ===== src/KeyOps.antt =====
-- src/do/transactional-key-ops.ts: the keys of a mailbox. The projections that the functions return
-- beside the record repeat its fields and are left out.
pub mod Revocation
pub mod Rotation
use reccado.Prelude.{
  ℕ, Bool, true, false, not, Option, none, some, List, [], ◌∷◌, ◌++◌, keep, leb, if◌then◌else◌,
  update_where, find,
}
use reccado.Text.{Text, ◌===◌}
use reccado.ApiKey.{
  Platform, ApiKeyRecord, KeyEnvironment, KeyScope, KeyStatus, Instant, DateText,
  send_scope_has_template_use, display_suffix, NameResult, normalize_sender_name, hash_api_key,
  format_api_key,
}
use reccado.Mailbox.{Mailbox, KeyEventRow, KeyEventMetadata, KeyEventType}
use reccado.Auth.{get_api_key_record}

pub record CreateApiKeyInput : Type 0 where
  pub environment : KeyEnvironment
  pub sender : Text
  pub sender_name : Option Text
  pub scopes : List KeyScope
  pub template_allowlist : Option (List Text)
  pub recipient_policy : Option Text
  pub quota_max : Option ℕ
  pub expires_at : Option DateText

-- What the generators and the clock give one call.
pub record NewKey : Type 0 where
  pub key_id : Text
  pub secret : Text
  pub event_id : Text
  pub second_event_id : Text
  pub now : Instant

-- The errors that the functions throw.
pub data KeyError : Type 0 where
  invalid_scopes send_scope_requires_templates_use invalid_sender_name : KeyError
  key_not_active key_not_found revoked_key_not_found : KeyError

pub record KeyResult : Type 0 where
  pub mailbox : Mailbox
  pub key : ApiKeyRecord
  pub plaintext_key : Option Text

pub data Done : Type 0 where
  done : KeyResult → Done
  threw : KeyError → Done
  missing : Done

-- `validateScopes`, for texts that are scopes
unfoldable pub validate_scopes : List KeyScope → Bool
validate_scopes [] = false
validate_scopes (s ∷ scopes) = true

unfoldable pub add_event :
    Text → Text → KeyEventType → KeyEventMetadata → Instant → Mailbox → Mailbox
add_event id key_id event_type metadata now m = record m {
  api_key_events =
      m.api_key_events
      ++ record {
        id = id;
        key_id = key_id;
        event_type = event_type;
        metadata = metadata;
        created_at = now;
      }
        ∷ [];
}

unfoldable pub add_key : ApiKeyRecord → Mailbox → Mailbox
add_key key m = record m { api_keys = m.api_keys ++ key ∷ [] }

unfoldable pub update_key : Text → (ApiKeyRecord → ApiKeyRecord) → Mailbox → Mailbox
unfolding update_where
update_key key_id f m = record m { api_keys = update_where (λ k. k.key_id === key_id) f m.api_keys }

abbrev pub revoked_record : Instant → ApiKeyRecord → ApiKeyRecord
revoked_record now k = record k {
  status = KeyStatus.revoked;
  updated_at = now;
  revoked_at = some now;
}

-- The row is read back; none is an error that cannot be caught here.
abbrev pub read_back : Text → Option Text → KeyError → Mailbox → Done
read_back key_id plaintext e m = elim (get_api_key_record m key_id) [
  | none ↦ threw e
  | some key ↦ done (record { mailbox = m; key = key; plaintext_key = plaintext })
]

-- `listApiKeys`: newest first
unfoldable pub insert_key : ApiKeyRecord → List ApiKeyRecord → List ApiKeyRecord
insert_key k [] = k ∷ []
insert_key k (l ∷ keys) =
    let rest = insert_key k keys in
    if leb l.created_at k.created_at then k ∷ (l ∷ keys) else l ∷ rest

unfoldable pub newest_keys : List ApiKeyRecord → List ApiKeyRecord
unfolding insert_key
newest_keys [] = []
newest_keys (k ∷ keys) = insert_key k (newest_keys keys)

unfoldable pub list_api_keys : Mailbox → Text → List ApiKeyRecord
unfolding keep ◌===◌
list_api_keys m mailbox_id = newest_keys (keep (λ k. k.mailbox_id === mailbox_id) m.api_keys)

-- `revokeApiKey`
unfoldable pub revoke_api_key : Mailbox → Text → Option Text → Text → Instant → Done
revoke_api_key m key_id reason event_id now = elim (get_api_key_record m key_id) [
  | none ↦ missing
  | some existing ↦ elim existing.status [
    | KeyStatus.revoked ↦ done (record { mailbox = m; key = existing; plaintext_key = none })
    | KeyStatus.active ↦ read_back key_id none revoked_key_not_found (
        add_event event_id key_id KeyEventType.revoked (KeyEventMetadata.revoked_for reason) now
          (update_key key_id (revoked_record now) m))
  ]
]

abbrev pub rename : Option Text → Instant → ApiKeyRecord → ApiKeyRecord
rename sender_name now k = record k { sender_name = sender_name; updated_at = now }

unfoldable pub set_sender_name : Mailbox → ApiKeyRecord → Text → NameResult → Text → Instant → Done
set_sender_name m existing key_id NameResult.invalid_sender_name event_id now =
    threw KeyError.invalid_sender_name
set_sender_name m existing key_id (NameResult.name normalized) event_id now =
    read_back key_id none key_not_found (
      add_event event_id key_id KeyEventType.sender_name_updated
        (KeyEventMetadata.renamed existing.sender_name normalized) now
        (update_key key_id (rename normalized now) m))

-- `updateApiKeySenderName`
unfoldable pub update_api_key_sender_name : Mailbox → Text → Option Text → Text → Instant → Done
update_api_key_sender_name m key_id sender_name event_id now = elim (get_api_key_record m key_id) [
  | none ↦ missing
  | some existing ↦ elim existing.status [
    | KeyStatus.revoked ↦ threw key_not_active
    | KeyStatus.active ↦
        set_sender_name m existing key_id (normalize_sender_name sender_name) event_id now
  ]
]

unfoldable pub list_api_key_events : Mailbox → Text → List KeyEventRow
unfolding keep ◌===◌
list_api_key_events m key_id = keep (λ e. e.key_id === key_id) m.api_key_events

-- An empty text in a column reads back as null.
abbrev pub or_null : Option Text → Option Text
or_null none = none
or_null (some []) = none
or_null (some (c ∷ s)) = some (c ∷ s)

module _ (p : Platform) (pepper : Text) where
  unfoldable pub created_record : Text → CreateApiKeyInput → Option Text → NewKey → ApiKeyRecord
  created_record mailbox_id input sender_name new = record {
    key_id = new.key_id;
    hash_version = 1;
    key_hash = hash_api_key p pepper new.key_id new.secret;
    display_suffix = display_suffix new.secret;
    environment = input.environment;
    mailbox_id = mailbox_id;
    sender = input.sender;
    sender_name = sender_name;
    scopes = input.scopes;
    template_allowlist = input.template_allowlist;
    recipient_policy = or_null input.recipient_policy;
    quota_max = input.quota_max;
    expires_at = input.expires_at;
    status = KeyStatus.active;
    created_at = new.now;
    updated_at = new.now;
    revoked_at = none;
  }

  unfoldable pub create_named : Mailbox → Text → CreateApiKeyInput → NameResult → NewKey → Done
  create_named m mailbox_id input NameResult.invalid_sender_name new =
      threw KeyError.invalid_sender_name
  create_named m mailbox_id input (NameResult.name sender_name) new =
      read_back new.key_id (some (format_api_key input.environment new.key_id new.secret))
        key_not_found
        (add_event new.event_id new.key_id KeyEventType.created
          (KeyEventMetadata.created input.environment input.sender input.scopes) new.now
          (add_key (created_record mailbox_id input sender_name new) m))

  -- `createApiKey`
  unfoldable pub create_api_key : Mailbox → Text → CreateApiKeyInput → NewKey → Done
  create_api_key m mailbox_id input new =
      if not (validate_scopes input.scopes)
      then threw invalid_scopes
      else if not (send_scope_has_template_use input.scopes)
      then threw send_scope_requires_templates_use
      else create_named m mailbox_id input (normalize_sender_name input.sender_name) new

  -- The row of the new key; its INSERT names no `sender_name`.
  unfoldable pub rotated_record : Text → ApiKeyRecord → NewKey → ApiKeyRecord
  rotated_record mailbox_id existing new = record {
    key_id = new.key_id;
    hash_version = 1;
    key_hash = hash_api_key p pepper new.key_id new.secret;
    display_suffix = display_suffix new.secret;
    environment = existing.environment;
    mailbox_id = mailbox_id;
    sender = existing.sender;
    sender_name = none;
    scopes = existing.scopes;
    template_allowlist = existing.template_allowlist;
    recipient_policy = existing.recipient_policy;
    quota_max = existing.quota_max;
    expires_at = existing.expires_at;
    status = KeyStatus.active;
    created_at = new.now;
    updated_at = new.now;
    revoked_at = none;
  }

  -- The body of `transactionSync`.
  unfoldable pub rotate : Mailbox → Text → ApiKeyRecord → Text → NewKey → Mailbox
  rotate m mailbox_id existing old_key_id new =
      add_event new.second_event_id new.key_id KeyEventType.rotated
        (KeyEventMetadata.rotated_from old_key_id) new.now
        (add_event new.event_id old_key_id KeyEventType.revoked
          (KeyEventMetadata.rotated_to new.key_id) new.now
          (add_key (rotated_record mailbox_id existing new)
            (update_key old_key_id (revoked_record new.now) m)))

  -- `rotateApiKey`
  unfoldable pub rotate_api_key : Mailbox → Text → Text → NewKey → Done
  rotate_api_key m mailbox_id old_key_id new = elim (get_api_key_record m old_key_id) [
    | none ↦ missing
    | some existing ↦ elim existing.status [
      | KeyStatus.revoked ↦ threw key_not_active
      | KeyStatus.active ↦
          read_back new.key_id (some (format_api_key existing.environment new.key_id new.secret))
            key_not_found (rotate m mailbox_id existing old_key_id new)
    ]
  ]
