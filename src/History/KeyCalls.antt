-- ===== src/History/KeyCalls.antt =====
-- src/do/transactional-key-ops.ts: a revoked key, and the calls on keys that come after.
use reccado.Prelude.{
  ◌≡◌, ◌⊎◌, refl, sym, ap, subst, ◌∙◌, Option, none, some, [], ◌∷◌, arith, inl, inr, Option-cases,
  Bool-cases, find-update_where, find-append_some, find, if◌then◌else◌,
}
use reccado.Text.{Text, ◌===◌}
use reccado.ApiKey.{Platform, ApiKeyRecord, KeyStatus, Instant}
use reccado.Mailbox.{Mailbox}
use mathlib.Core.Option
use reccado.ApiKey.{
  send_scope_has_template_use, normalize_sender_name, NameResult, format_api_key,
  invalid_sender_name, name,
}
use reccado.Mailbox.{KeyEventType, KeyEventMetadata}
use reccado.Auth.{get_api_key_record}
use reccado.KeyOps.{
  validate_scopes, CreateApiKeyInput, NewKey, KeyError, threw, add_event, add_key, update_key,
  read_back, revoked_record, revoke_api_key, rename, set_sender_name, update_api_key_sender_name,
  create_named, create_api_key, rotate, rotate_api_key, key_not_found, revoked_key_not_found,
}
use reccado.KeyOps.Revocation.{IsRevoked, read_back_found}
use reccado.History.{or_same}
use reccado.History.SameKeys.{SameKeys}

module _ (id : Text) where
  pub same-IsRevoked : (m n : Mailbox) → SameKeys m n → IsRevoked m id → IsRevoked n id
  unfolding get_api_key_record
  same-IsRevoked m n same r = record {
    key = r.key;
    stored = ap (λ keys. find (λ k. k.key_id === id) keys) same ∙ r.stored;
    status = r.status;
  }

  -- An UPDATE of a key that keeps its id, and leaves a revoked key revoked.
  update_key-IsRevoked :
      (i : Text) (f : ApiKeyRecord → ApiKeyRecord) (m : Mailbox)
      → ((k : ApiKeyRecord) → (f k).key_id ≡ k.key_id)
      → ((k : ApiKeyRecord) → k.status ≡ KeyStatus.revoked → (f k).status ≡ KeyStatus.revoked)
      → IsRevoked m id
      → IsRevoked (update_key i f m) id
  unfolding get_api_key_record update_key
  update_key-IsRevoked i f m named kept r =
      let chosen : ApiKeyRecord → ApiKeyRecord = λ k. if k.key_id === i then f k else k in
      record {
        key = chosen r.key;
        stored =
            find-update_where (λ k. k.key_id === id) (λ k. k.key_id === i) f m.api_keys
              (λ k. rw (named k) refl)
            ∙ ap (Option.map chosen) r.stored;
        status = elim (Bool-cases (r.key.key_id === i)) [
          | inl e ↦ rw e (kept r.key r.status)
          | inr e ↦ rw e r.status
        ];
      }

  add_key-IsRevoked : (k : ApiKeyRecord) (m : Mailbox) → IsRevoked m id → IsRevoked (add_key k m) id
  unfolding get_api_key_record add_key
  add_key-IsRevoked k m r = record {
    key = r.key;
    stored = find-append_some (λ k. k.key_id === id) m.api_keys (k ∷ []) r.key r.stored;
    status = r.status;
  }

  add_event-IsRevoked :
      (e i : Text) (t : KeyEventType) (d : KeyEventMetadata) (now : Instant) (m : Mailbox)
      → IsRevoked m id
      → IsRevoked (add_event e i t d now m) id
  unfolding add_event
  add_event-IsRevoked e i t d now m r = same-IsRevoked m _ refl r

  read_back-IsRevoked :
      (i : Text) (plain : Option Text) (e : KeyError) (m n : Mailbox)
      → IsRevoked m id
      → IsRevoked n id
      → IsRevoked (or_same m (read_back i plain e n)) id
  read_back-IsRevoked i plain e m n before after = elim (Option-cases (get_api_key_record n i)) [
    | inl h ↦
        let e : read_back i plain e n ≡ threw e = rw (h, read_back) refl in
        subst (λ d. IsRevoked (or_same m d) id) (sym e) before
    | inr (k, h) ↦
        subst (λ d. IsRevoked (or_same m d) id) (sym (read_back_found i plain e n k h)) after
  ]

  create_named-IsRevoked :
      (p : Platform) (pepper : Text) (m : Mailbox) (mailbox_id : Text) (input : CreateApiKeyInput)
      (name : NameResult) (new : NewKey)
      → IsRevoked m id
      → IsRevoked (or_same m (create_named p pepper m mailbox_id input name new)) id
  unfolding create_named
  create_named-IsRevoked p pepper m mailbox_id input invalid_sender_name new r = r
  create_named-IsRevoked p pepper m mailbox_id input (name sender_name) new r =
      read_back-IsRevoked new.key_id _ _ m _ r
        (add_event-IsRevoked _ _ _ _ _ _ (add_key-IsRevoked _ m r))

  pub create-IsRevoked :
      (p : Platform) (pepper : Text) (m : Mailbox) (mailbox_id : Text) (input : CreateApiKeyInput)
      (new : NewKey)
      → IsRevoked m id
      → IsRevoked (or_same m (create_api_key p pepper m mailbox_id input new)) id
  unfolding create_api_key
  create-IsRevoked p pepper m mailbox_id input new r =
      elim (Bool-cases (validate_scopes input.scopes)) [
        | inr e ↦ rw e r
        | inl e ↦ elim (Bool-cases (send_scope_has_template_use input.scopes)) [
          | inr f ↦ rw (e, f) r
          | inl f ↦
              rw (e, f)
                (create_named-IsRevoked p pepper m mailbox_id input
                  (normalize_sender_name input.sender_name) new r)
        ]
      ]

  revoke_cases :
      (m : Mailbox) (i : Text) (reason : Option Text) (event : Text) (now : Instant)
      → let next =
          add_event event i KeyEventType.revoked
            (KeyEventMetadata.revoked_for reason)
            now
            (update_key i (revoked_record now) m) in
        (or_same m (revoke_api_key m i reason event now) ≡ m)
        ⊎ (revoke_api_key m i reason event now ≡ read_back i none revoked_key_not_found next)
  unfolding revoke_api_key
  revoke_cases m i reason event now = ground arith

  pub revoke_key-IsRevoked :
      (m : Mailbox) (i : Text) (reason : Option Text) (event : Text) (now : Instant)
      → IsRevoked m id
      → IsRevoked (or_same m (revoke_api_key m i reason event now)) id
  revoke_key-IsRevoked m i reason event now r = elim (revoke_cases m i reason event now) [
    | inl h ↦ subst (λ n. IsRevoked n id) (sym h) r
    | inr h ↦
        subst (λ d. IsRevoked (or_same m d) id) (sym h)
          (read_back-IsRevoked i none revoked_key_not_found m _ r (
            add_event-IsRevoked event i _ _ now _
              (update_key-IsRevoked i (revoked_record now) m (λ k. refl) (λ k h. refl) r)))
  ]

  rotate-IsRevoked :
      (p : Platform) (pepper : Text) (m : Mailbox) (mailbox_id : Text) (k : ApiKeyRecord)
      (old : Text) (new : NewKey)
      → IsRevoked m id
      → IsRevoked (rotate p pepper m mailbox_id k old new) id
  unfolding rotate
  rotate-IsRevoked p pepper m mailbox_id k old new r = add_event-IsRevoked _ _ _ _ _ _ (
      add_event-IsRevoked _ _ _ _ _ _ (
        add_key-IsRevoked _ _
          (update_key-IsRevoked old (revoked_record new.now) m (λ k. refl) (λ k h. refl) r)))

  rotate_cases :
      (p : Platform) (pepper : Text) (m : Mailbox) (mailbox_id old : Text) (new : NewKey)
      → (or_same m (rotate_api_key p pepper m mailbox_id old new) ≡ m)
        ⊎ ((k : ApiKeyRecord) × (plain : Option Text) × (rotate_api_key p pepper m mailbox_id old
                new
              ≡ read_back new.key_id plain key_not_found (rotate p pepper m mailbox_id k old new)))
  unfolding rotate_api_key
  rotate_cases p pepper m mailbox_id old new = elim (Option-cases (get_api_key_record m old)) [
    | inl e ↦ inl (ground (arith, e))
    | inr (k, e) ↦ by_status k e k.status refl
  ]
    where
      by_status :
          (k : ApiKeyRecord)
          → get_api_key_record m old ≡ some k
          → (s : KeyStatus) → k.status ≡ s
          → (or_same m (rotate_api_key p pepper m mailbox_id old new) ≡ m)
            ⊎ ((k : ApiKeyRecord) × (plain : Option Text) × (rotate_api_key p pepper m mailbox_id
                    old new
                  ≡ read_back new.key_id plain key_not_found
                      (rotate p pepper m mailbox_id k old new)))
      by_status k e KeyStatus.revoked s = inl (ground (arith, e, s))
      by_status k e KeyStatus.active s =
          inr (k, some (format_api_key k.environment new.key_id new.secret), ground (arith, e, s))

  pub rotate_key-IsRevoked :
      (p : Platform) (pepper : Text) (m : Mailbox) (mailbox_id old : Text) (new : NewKey)
      → IsRevoked m id
      → IsRevoked (or_same m (rotate_api_key p pepper m mailbox_id old new)) id
  rotate_key-IsRevoked p pepper m mailbox_id old new r =
      elim (rotate_cases p pepper m mailbox_id old new) [
        | inl h ↦ subst (λ n. IsRevoked n id) (sym h) r
        | inr (k, plain, h) ↦
            subst (λ d. IsRevoked (or_same m d) id) (sym h)
              (read_back-IsRevoked new.key_id plain key_not_found m _ r
                (rotate-IsRevoked p pepper m mailbox_id k old new r))
      ]

  set_name-IsRevoked :
      (m : Mailbox) (k : ApiKeyRecord) (i : Text) (given : NameResult) (event : Text)
      (now : Instant)
      → IsRevoked m id
      → IsRevoked (or_same m (set_sender_name m k i given event now)) id
  unfolding set_sender_name
  set_name-IsRevoked m k i invalid_sender_name event now r = r
  set_name-IsRevoked m k i (name normalized) event now r =
      read_back-IsRevoked i none key_not_found m _ r (
        add_event-IsRevoked event i _ _ now _
          (update_key-IsRevoked i (rename normalized now) m (λ k. refl) (λ k h. h) r))

  rename_cases :
      (m : Mailbox) (i : Text) (sender_name : Option Text) (event : Text) (now : Instant)
      → (or_same m (update_api_key_sender_name m i sender_name event now) ≡ m)
        ⊎ ((k : ApiKeyRecord) × (update_api_key_sender_name m i sender_name event now
              ≡ set_sender_name m k i (normalize_sender_name sender_name) event now))
  unfolding update_api_key_sender_name
  rename_cases m i sender_name event now = elim (Option-cases (get_api_key_record m i)) [
    | inl e ↦ inl (ground (arith, e))
    | inr (k, e) ↦ by_status k e k.status refl
  ]
    where
      by_status :
          (k : ApiKeyRecord)
          → get_api_key_record m i ≡ some k
          → (s : KeyStatus) → k.status ≡ s
          → (or_same m (update_api_key_sender_name m i sender_name event now) ≡ m)
            ⊎ ((k : ApiKeyRecord) × (update_api_key_sender_name m i sender_name event now
                  ≡ set_sender_name m k i (normalize_sender_name sender_name) event now))
      by_status k e KeyStatus.revoked s = inl (ground (arith, e, s))
      by_status k e KeyStatus.active s = inr (k, ground (arith, e, s))

  pub rename-IsRevoked :
      (m : Mailbox) (i : Text) (sender_name : Option Text) (event : Text) (now : Instant)
      → IsRevoked m id
      → IsRevoked (or_same m (update_api_key_sender_name m i sender_name event now)) id
  rename-IsRevoked m i sender_name event now r = elim (rename_cases m i sender_name event now) [
    | inl h ↦ subst (λ n. IsRevoked n id) (sym h) r
    | inr (k, h) ↦
        subst (λ d. IsRevoked (or_same m d) id) (sym h)
          (set_name-IsRevoked m k i (normalize_sender_name sender_name) event now r)
  ]
