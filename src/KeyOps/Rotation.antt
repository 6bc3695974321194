-- ===== src/KeyOps/Rotation.antt =====
-- src/do/transactional-key-ops.ts: the two keys after `rotateApiKey`.
use mathlib.Core.Option
use reccado.ApiKey.{format_api_key, is_hex, is_api_key_expired}
use reccado.ApiKey.RoundTrip.{Lacks, parse-format_api_key}
use reccado.Auth.{bearer_key, has_scopes}
use reccado.Auth.Decision.{Holds, authenticate_iff}
use reccado.History.{Operation, apply_all}
use reccado.History.Revoked.{apply_all-IsRevoked}
use reccado.Prelude.{◌≤◌, true, false, List, length, all}
use reccado.Prelude.{◌≢◌}
use reccado.Prelude.{
  ◌≡◌, refl, ap, ◌∙◌, none, some, [], ◌∷◌, arith, update_where, find-update_where, find-append_none,
  find-append_some,
}
use reccado.Text.{Text, ◌===◌, ===_refl}
use reccado.ApiKey.{Platform, ApiKeyRecord, KeyStatus, Instant}
use reccado.Mailbox.{Mailbox}
use reccado.Auth.{AuthRequest, KeyAuth, authenticate_transactional_key, get_api_key_record}
use reccado.KeyOps.{
  NewKey, KeyResult, done, key_not_found, add_event, add_key, update_key, revoked_record,
  rotated_record, rotate, rotate_api_key,
}
use reccado.KeyOps.Revocation.{get-revoked, read_back_found, revoked_refused}

module _ (p : Platform) (pepper : Text) where
  -- What the new record of a rotated key shares with the old one.
  pub record Inherits (old new : ApiKeyRecord) : Type 0 where
    pub environment : new.environment ≡ old.environment
    pub sender : new.sender ≡ old.sender
    pub scopes : new.scopes ≡ old.scopes
    pub allowlist : new.template_allowlist ≡ old.template_allowlist
    pub policy : new.recipient_policy ≡ old.recipient_policy
    pub quota : new.quota_max ≡ old.quota_max
    pub expiry : new.expires_at ≡ old.expires_at
    pub status : new.status ≡ KeyStatus.active

  rotate_active :
      (m : Mailbox) (mailbox_id old : Text) (new : NewKey) (k stored : ApiKeyRecord)
      → get_api_key_record m old ≡ some k
      → k.status ≡ KeyStatus.active
      → get_api_key_record (rotate p pepper m mailbox_id k old new) new.key_id ≡ some stored
      → rotate_api_key p pepper m mailbox_id old new
        ≡ done (record {
          mailbox = rotate p pepper m mailbox_id k old new;
          key = stored;
          plaintext_key = some (format_api_key k.environment new.key_id new.secret);
        })
  unfolding rotate_api_key
  rotate_active m mailbox_id old new k stored e s f =
      let found =
        read_back_found new.key_id (some (format_api_key k.environment new.key_id new.secret))
          key_not_found (rotate p pepper m mailbox_id k old new) stored f in
      ground (arith, e, s, found)

  get-rotate_new :
      (m : Mailbox) (mailbox_id old : Text) (new : NewKey) (k : ApiKeyRecord)
      → get_api_key_record m new.key_id ≡ none
      → get_api_key_record (rotate p pepper m mailbox_id k old new) new.key_id
        ≡ some (rotated_record p pepper mailbox_id k new)
  unfolding get_api_key_record rotate add_event add_key update_key rotated_record
  get-rotate_new m mailbox_id old new k free =
      find-append_none (λ j. j.key_id === new.key_id)
        (update_where (λ j. j.key_id === old) (revoked_record new.now) m.api_keys)
        (rotated_record p pepper mailbox_id k new ∷ [])
        (find-update_where (λ j. j.key_id === new.key_id) (λ j. j.key_id === old)
            (revoked_record new.now) m.api_keys (λ j. refl)
          ∙ ap (Option.map _) free)
      ∙ rw (===_refl new.key_id) refl

  get-rotate_old :
      (m : Mailbox) (mailbox_id old : Text) (new : NewKey) (k : ApiKeyRecord)
      → get_api_key_record m old ≡ some k
      → get_api_key_record (rotate p pepper m mailbox_id k old new) old
        ≡ some (revoked_record new.now k)
  unfolding get_api_key_record rotate add_event add_key update_key
  get-rotate_old m mailbox_id old new k e =
      find-append_some (λ j. j.key_id === old) _ _ _ (get-revoked m old k new.now e)

  -- A new key whose text can be parsed: every one that the code generates is.
  pub record IsPrintable (new : NewKey) : Type 0 where
    pub id_length : length new.key_id ≡ 32
    pub id_hex : all is_hex new.key_id ≡ true
    pub secret_plain : Lacks b'_' new.secret
    pub secret_length : 10 ≤ length new.secret

  -- A request that brings a text as its bearer key.
  pub record Brings (request : AuthRequest) (raw_key : Text) : Type 0 where
    pub header : Text
    pub sent : request.auth_header ≡ some header
    pub bearer : bearer_key header ≡ some raw_key

  module _ (m : Mailbox) (mailbox_id old : Text) (new : NewKey) (k : ApiKeyRecord) where
    rotated-Holds :
        (request : AuthRequest) (n : Mailbox)
        → get_api_key_record n new.key_id ≡ some (rotated_record p pepper mailbox_id k new)
        → IsPrintable new
        → Brings request (format_api_key k.environment new.key_id new.secret)
        → Holds p pepper n request new.key_id (rotated_record p pepper mailbox_id k new)
    unfolding rotated_record
    rotated-Holds request n found printable brings = record {
      header = brings.header;
      sent = brings.sent;
      raw_key = format_api_key k.environment new.key_id new.secret;
      bearer = brings.bearer;
      proof = record {
        parsed = record { environment = k.environment; key_id = new.key_id; secret = new.secret };
        parses =
            parse-format_api_key k.environment new.key_id new.secret printable.id_length
              printable.id_hex printable.secret_plain printable.secret_length;
        environment = refl;
        key_id = refl;
        hash = refl;
      };
      id = refl;
      stored = found;
    }

    -- An active key is rotated to a free key id of 32 hexadecimal digits, with a secret of ten
    -- characters or more without an underscore. Then the rotation succeeds. The old key is revoked:
    -- whatever calls the mailbox answers from then on, no request is let in as it. The new key has
    -- the old key's environment, sender, scopes, allowlist, policy, quota and expiry. And a request
    -- to the same mailbox, right after, that brings the text that is shown once is let in as the new
    -- key, where the old key has not expired and has the scopes that the request needs.
    pub rotate_api_key-replaces :
        (os : List Operation) (request asked : AuthRequest) (t at : Instant) (key : ApiKeyRecord)
        → get_api_key_record m old ≡ some k
        → k.status ≡ KeyStatus.active
        → get_api_key_record m new.key_id ≡ none
        → IsPrintable new
        → Brings asked (format_api_key k.environment new.key_id new.secret)
        → mailbox_id ≡ asked.mailbox_id
        → is_api_key_expired k at ≡ false
        → has_scopes k.scopes asked.required_scopes ≡ true
        → (r : KeyResult) × (rotate_api_key p pepper m mailbox_id old new ≡ done r)
          × (authenticate_transactional_key p pepper (apply_all p os r.mailbox) request t
              ≢ KeyAuth.ok old key)
          × (r.plaintext_key ≡ some (format_api_key k.environment new.key_id new.secret))
          × (authenticate_transactional_key p pepper r.mailbox asked at
              ≡ KeyAuth.ok new.key_id r.key)
          × Inherits k r.key
    unfolding rotated_record is_api_key_expired
    rotate_api_key-replaces os request asked t at key e s free printable brings here alive scopes =
        let after : Mailbox = rotate p pepper m mailbox_id k old new in
        let stored = rotated_record p pepper mailbox_id k new in
        let found = get-rotate_new m mailbox_id old new k free in
        (
          record {
            mailbox = after;
            key = stored;
            plaintext_key = some (format_api_key k.environment new.key_id new.secret);
          },
          rotate_active m mailbox_id old new k stored e s found,
          revoked_refused p pepper (apply_all p os after) old request t key (
              apply_all-IsRevoked old p os after (record {
                key = revoked_record new.now k;
                stored = get-rotate_old m mailbox_id old new k e;
                status = refl;
              })),
          refl,
          (authenticate_iff p pepper after asked at new.key_id stored).1 (
            rotated-Holds asked after found printable brings,
            record { mailbox = here; status = refl; unexpired = alive; scopes = scopes },
          ),
          record {
            environment = refl;
            sender = refl;
            scopes = refl;
            allowlist = refl;
            policy = refl;
            quota = refl;
            expiry = refl;
            status = refl;
          },
        )

    -- A rotated key has no sender name, whatever the name of the old key was.
    pub rotate_api_key-unnamed :
        get_api_key_record m old ≡ some k
        → k.status ≡ KeyStatus.active
        → get_api_key_record m new.key_id ≡ none
        → (r : KeyResult) × (rotate_api_key p pepper m mailbox_id old new ≡ done r)
          × (r.key.sender_name ≡ none)
    unfolding rotated_record
    rotate_api_key-unnamed e s free =
        let stored = rotated_record p pepper mailbox_id k new in
        let found = get-rotate_new m mailbox_id old new k free in
        (_, rotate_active m mailbox_id old new k stored e s found, refl)
