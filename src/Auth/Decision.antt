-- ===== src/Auth/Decision.antt =====
-- Who is authenticated, and what an answer reveals to a caller without the secret.
use reccado.Prelude.{
  ◌≡◌, ◌≢◌, ◌↔◌, ◌⊎◌, refl, sym, subst, ◌∙◌, true, false, some, [], ◌∷◌, inl, inr, arith,
  Bool-cases, Option-cases, drop,
}
use mathlib.Core.Path.{subst₂}
use reccado.Text.{Text, ascii, split, ===_iff, trim, starts_with}
use reccado.ApiKey.{
  Platform, ApiKeyRecord, ParsedKey, KeyStatus, Instant, parse_parts, parse_api_key,
  verify_api_key_secret, is_api_key_expired,
}
use reccado.ApiKey.Secret.{Proves, verify_api_key_secret_iff}
use reccado.Mailbox.{Mailbox}
use reccado.Auth.{
  missing_authorization, invalid_api_key, KeyAuth, ok, refused, AuthRequest, get_api_key_record,
  has_scopes, check_key_state, check_key, check_raw_key, bearer_key, authenticate_transactional_key,
}

module _ (p : Platform) (pepper : Text) where
  -- The secret of a key in the mailbox stands behind the header.
  pub record Holds (m : Mailbox) (request : AuthRequest) (key_id : Text) (key : ApiKeyRecord)
      : Type 0 where
    pub header : Text
    pub sent : request.auth_header ≡ some header
    pub raw_key : Text
    pub bearer : bearer_key header ≡ some raw_key
    pub proof : Proves p pepper raw_key key
    pub id : proof.parsed.key_id ≡ key_id
    pub stored : get_api_key_record m key_id ≡ some key

  -- The state of the key allows what is asked.
  pub record Allows (request : AuthRequest) (key : ApiKeyRecord) (now : Instant) : Type 0 where
    pub mailbox : key.mailbox_id ≡ request.mailbox_id
    pub status : key.status ≡ KeyStatus.active
    pub unexpired : is_api_key_expired key now ≡ false
    pub scopes : has_scopes key.scopes request.required_scopes ≡ true

  check_key_state_ok :
      (request : AuthRequest) (key_id : Text) (key : ApiKeyRecord) (now : Instant) (i : Text)
      (k : ApiKeyRecord)
      → check_key_state request key_id key now ≡ ok i k
      → (key_id ≡ i) × (key ≡ k) × Allows request key now
  unfolding check_key_state
  check_key_state_ok request key_id key now i k h = (
    ground arith,
    ground arith,
    record {
      mailbox = (===_iff key.mailbox_id request.mailbox_id).0 (ground arith);
      status = ground arith;
      unexpired = ground arith;
      scopes = ground arith;
    },
  )

  check_key_state-Allows :
      (request : AuthRequest) (key_id : Text) (key : ApiKeyRecord) (now : Instant)
      → Allows request key now
      → check_key_state request key_id key now ≡ ok key_id key
  unfolding check_key_state
  check_key_state-Allows request key_id key now a = ground (
    arith,
    a.mailbox,
    a.status,
    a.unexpired,
    a.scopes,
    (===_iff key.mailbox_id request.mailbox_id).1 a.mailbox,
  )

  -- An answer that only the holder of the secret may get.
  abbrev pub IsTelling : KeyAuth → Type 0
  IsTelling (ok i k) = Unit
  IsTelling (refused i missing_authorization) = ⊥
  IsTelling (refused i invalid_api_key) = ⊥
  IsTelling (refused i _) = Unit

  -- `Holds` for a raw key that was taken from the header.
  pub record Keyed (m : Mailbox) (raw_key key_id : Text) (key : ApiKeyRecord) : Type 0 where
    pub proof : Proves p pepper raw_key key
    pub id : proof.parsed.key_id ≡ key_id
    pub stored : get_api_key_record m key_id ≡ some key

  check_raw_key_cases :
      (m : Mailbox) (request : AuthRequest) (raw_key : Text) (now : Instant)
      → ((i : Text) × (check_raw_key p pepper m request raw_key now ≡ refused i invalid_api_key))
        ⊎ ((key_id : Text) × (key : ApiKeyRecord) × Keyed m raw_key key_id key
            × (check_raw_key p pepper m request raw_key now
                ≡ check_key_state request key_id key now))
  unfolding check_raw_key check_key
  check_raw_key_cases m request raw_key now = elim (Option-cases (parse_api_key raw_key)) [
    | inl e ↦ inl ([], rw (e, check_raw_key))
    | inr (parsed, e) ↦ elim (Option-cases (get_api_key_record m parsed.key_id)) [
      | inl f ↦ inl (parsed.key_id, rw (e, check_raw_key, f))
      | inr (key, f) ↦ elim (Bool-cases (verify_api_key_secret p pepper raw_key key)) [
        | inl good ↦
            let proof = (verify_api_key_secret_iff p pepper raw_key key).0 good in
            inr (
              parsed.key_id,
              key,
              record { proof = proof; id = ground (arith, proof.parses); stored = f },
              ground (arith, e, f, good),
            )
        | inr bad ↦ inl (parsed.key_id, ground (arith, e, f, bad))
      ]
    ]
  ]

  check_raw_key-Keyed :
      (m : Mailbox) (request : AuthRequest) (raw_key key_id : Text) (key : ApiKeyRecord)
      (now : Instant)
      → Keyed m raw_key key_id key
      → check_raw_key p pepper m request raw_key now ≡ check_key_state request key_id key now
  unfolding check_raw_key check_key
  check_raw_key-Keyed m request raw_key key_id key now k = ground (
    arith,
    k.id,
    k.stored,
    k.proof.parses,
    (verify_api_key_secret_iff p pepper raw_key key).1 k.proof,
  )

  raw_key_of : Text → Text
  raw_key_of header = trim (drop 7 header)

  authenticate_cases :
      (m : Mailbox) (request : AuthRequest) (now : Instant)
      → (authenticate_transactional_key p pepper m request now ≡ refused [] missing_authorization)
        ⊎ ((header raw_key : Text) × (request.auth_header ≡ some header)
            × (bearer_key header ≡ some raw_key)
            × (authenticate_transactional_key p pepper m request now
                ≡ check_raw_key p pepper m request raw_key now))
  unfolding authenticate_transactional_key
  authenticate_cases m request now = elim (Option-cases request.auth_header) [
    | inl e ↦ inl (rw e)
    | inr (header, e) ↦ elim (Bool-cases (starts_with header (ascii "Bearer "))) [
      | inl yes_bearer ↦ split_key header e yes_bearer (trim (drop 7 header)) refl
      | inr none_there ↦ inl (rw (e, none_there))
    ]
  ]
    where
      split_key :
          (header : Text)
          → request.auth_header ≡ some header
          → starts_with header (ascii "Bearer ") ≡ true
          → (raw : Text) → trim (drop 7 header) ≡ raw
          → (authenticate_transactional_key p pepper m request now
              ≡ refused [] missing_authorization)
            ⊎ ((h raw_key : Text) × (request.auth_header ≡ some h)
                × (bearer_key h ≡ some raw_key)
                × (authenticate_transactional_key p pepper m request now
                    ≡ check_raw_key p pepper m request raw_key now))
      split_key header e b [] r = inl (rw (e, b, r))
      split_key header e b (c ∷ raw) r = inr (header, c ∷ raw, e, rw (b, r), rw (e, b, r))

  Keyed→Holds :
      (m : Mailbox) (request : AuthRequest) (header raw_key key_id : Text) (key : ApiKeyRecord)
      → request.auth_header ≡ some header
      → bearer_key header ≡ some raw_key
      → Keyed m raw_key key_id key
      → Holds m request key_id key
  Keyed→Holds m request header raw_key key_id key e b k = record {
    header = header;
    sent = e;
    raw_key = raw_key;
    bearer = b;
    proof = k.proof;
    id = k.id;
    stored = k.stored;
  }

  -- An answer that tells the state of a key, or lets it in, goes to a caller who sent that key's
  -- secret, and says what the state of that key is: nobody else learns more than that the key is
  -- missing or invalid.
  pub authenticate_telling :
      (m : Mailbox) (request : AuthRequest) (now : Instant)
      → IsTelling (authenticate_transactional_key p pepper m request now)
      → (key_id : Text) × (key : ApiKeyRecord) × Holds m request key_id key
        × (authenticate_transactional_key p pepper m request now
            ≡ check_key_state request key_id key now)
  authenticate_telling m request now t = elim (authenticate_cases m request now) [
    | inl e ↦ absurd (rw e at t)
    | inr (header, raw_key, e, b, same) ↦ elim (check_raw_key_cases m request raw_key now) [
      | inl (i, f) ↦ absurd (rw (same, f) at t)
      | inr (key_id, key, k, f) ↦
          (key_id, key, Keyed→Holds m request header raw_key key_id key e b k, same ∙ f)
    ]
  ]

  no_key_in_nothing : (parsed : ParsedKey) → parse_api_key [] ≢ some parsed
  unfolding parse_api_key
  no_key_in_nothing parsed e = unfold split parse_parts in cc

  authenticate_bearer :
      (m : Mailbox) (request : AuthRequest) (header raw_key : Text) (parsed : ParsedKey)
      (now : Instant)
      → request.auth_header ≡ some header
      → bearer_key header ≡ some raw_key
      → parse_api_key raw_key ≡ some parsed
      → authenticate_transactional_key p pepper m request now
        ≡ check_raw_key p pepper m request raw_key now
  unfolding authenticate_transactional_key
  authenticate_bearer m request header [] parsed now e b f = absurd (no_key_in_nothing parsed f)
  authenticate_bearer m request header (c ∷ raw) parsed now e b f = rw (e, b)

  -- A request is let in as a key exactly when its header holds the secret of that stored key, and the
  -- key belongs to the mailbox, is neither revoked nor expired, and has every required scope.
  pub authenticate_iff :
      (m : Mailbox) (request : AuthRequest) (now : Instant) (key_id : Text) (key : ApiKeyRecord)
      → (authenticate_transactional_key p pepper m request now ≡ ok key_id key)
        ↔ (Holds m request key_id key × Allows request key now)
  authenticate_iff m request now key_id key = (there, back)
    where
      there :
          authenticate_transactional_key p pepper m request now ≡ ok key_id key
          → Holds m request key_id key × Allows request key now
      there h =
          let (i, k, holds, same) = authenticate_telling m request now (rw h tt) in
          let (ei, ek, allows) = check_key_state_ok request i k now key_id key (sym same ∙ h) in
          (
            subst₂ (λ x y. Holds m request x y) ei ek holds,
            subst (λ y. Allows request y now) ek allows,
          )

      back :
          Holds m request key_id key × Allows request key now
          → authenticate_transactional_key p pepper m request now ≡ ok key_id key
      back (h, a) =
          authenticate_bearer m request h.header h.raw_key h.proof.parsed now h.sent h.bearer
            h.proof.parses
          ∙ check_raw_key-Keyed m request h.raw_key key_id key now
              (record { proof = h.proof; id = h.id; stored = h.stored })
          ∙ check_key_state-Allows request key_id key now a
