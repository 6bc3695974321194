-- ===== src/KeyOps/Revocation.antt =====
-- src/do/transactional-key-ops.ts: a key after `revokeApiKey`.
use mathlib.Core.Option
use reccado.Prelude.{◌≢◌}
use reccado.Mailbox.{KeyEventType, KeyEventMetadata}
use reccado.KeyOps.{KeyError}
use reccado.Prelude.{find_sound}
use reccado.Prelude.{
  ◌≡◌, refl, sym, ap, ◌∙◌, true, Option, none, some, arith, if◌then◌else◌, find-update_where,
}
use reccado.Text.{Text, ◌===◌}
use reccado.ApiKey.{Platform, ApiKeyRecord, KeyStatus, Instant}
use reccado.Mailbox.{Mailbox}
use reccado.Auth.{AuthRequest, KeyAuth, authenticate_transactional_key, get_api_key_record}
use reccado.Auth.Decision.{authenticate_iff}
use reccado.KeyOps.{
  KeyResult, done, revoked_key_not_found, add_event, update_key, revoked_record, read_back,
  revoke_api_key,
}

get-update_key :
    (id : Text) (f : ApiKeyRecord → ApiKeyRecord) (m : Mailbox)
    → ((k : ApiKeyRecord) → (f k).key_id ≡ k.key_id)
    → get_api_key_record (update_key id f m) id
      ≡ Option.map (λ k. if k.key_id === id then f k else k) (get_api_key_record m id)
unfolding get_api_key_record update_key
get-update_key id f m same =
    find-update_where (λ k. k.key_id === id) (λ k. k.key_id === id) f m.api_keys
      (λ k. rw (same k) refl)

found_id :
    (m : Mailbox) (id : Text) (k : ApiKeyRecord)
    → get_api_key_record m id ≡ some k
    → k.key_id === id ≡ true
unfolding get_api_key_record
found_id m id k e = find_sound (λ k. k.key_id === id) m.api_keys k e

pub get-revoked :
    (m : Mailbox) (id : Text) (k : ApiKeyRecord) (now : Instant)
    → get_api_key_record m id ≡ some k
    → get_api_key_record (update_key id (revoked_record now) m) id ≡ some (revoked_record now k)
get-revoked m id k now e =
    get-update_key id (revoked_record now) m (λ k. refl)
    ∙ ap (Option.map _) e
    ∙ rw (found_id m id k e) refl

event_keys :
    (id key_id : Text) (t : KeyEventType) (d : KeyEventMetadata) (now : Instant) (m : Mailbox)
    (i : Text)
    → get_api_key_record (add_event id key_id t d now m) i ≡ get_api_key_record m i
unfolding get_api_key_record add_event
event_keys id key_id t d now m i = refl

pub read_back_found :
    (id : Text) (plain : Option Text) (e : KeyError) (m : Mailbox) (k : ApiKeyRecord)
    → get_api_key_record m id ≡ some k
    → read_back id plain e m ≡ done (record { mailbox = m; key = k; plaintext_key = plain })
read_back_found id plain e m k h = rw (h, read_back) refl

-- The stored record of the key, revoked.
pub record IsRevoked (m : Mailbox) (id : Text) : Type 0 where
  pub key : ApiKeyRecord
  pub stored : get_api_key_record m id ≡ some key
  pub status : key.status ≡ KeyStatus.revoked

module _ (m : Mailbox) (id : Text) (reason : Option Text) (event : Text) (now : Instant)
    (k : ApiKeyRecord) where
  revoked_mailbox : Mailbox
  revoked_mailbox =
      add_event event id KeyEventType.revoked (KeyEventMetadata.revoked_for reason) now
        (update_key id (revoked_record now) m)

  revoke_active :
      get_api_key_record m id ≡ some k
      → k.status ≡ KeyStatus.active
      → revoke_api_key m id reason event now
        ≡ done
            (record { mailbox = revoked_mailbox; key = revoked_record now k; plaintext_key = none })
  unfolding revoke_api_key revoked_mailbox
  revoke_active e s =
      rw (e, revoke_api_key, s)
        (read_back_found id none revoked_key_not_found revoked_mailbox (revoked_record now k) (
          event_keys event id _ _ now (update_key id (revoked_record now) m) id
          ∙ get-revoked m id k now e))

  revoke_again :
      get_api_key_record m id ≡ some k
      → k.status ≡ KeyStatus.revoked
      → revoke_api_key m id reason event now
        ≡ done (record { mailbox = m; key = k; plaintext_key = none })
  unfolding revoke_api_key
  revoke_again e s = ground (arith, e, s)

  pub revoke-IsRevoked :
      get_api_key_record m id ≡ some k
      → (r : KeyResult) × (revoke_api_key m id reason event now ≡ done r) × IsRevoked r.mailbox id
  unfolding revoked_mailbox
  revoke-IsRevoked e = by_status k.status refl
    where
      by_status :
          (s : KeyStatus)
          → k.status ≡ s
          → (r : KeyResult) × (revoke_api_key m id reason event now ≡ done r)
            × IsRevoked r.mailbox id
      by_status KeyStatus.active s = (
        record { mailbox = revoked_mailbox; key = revoked_record now k; plaintext_key = none },
        revoke_active e s,
        record {
          key = revoked_record now k;
          stored =
              event_keys event id _ _ now (update_key id (revoked_record now) m) id
              ∙ get-revoked m id k now e;
          status = refl;
        },
      )
      by_status KeyStatus.revoked s = (
        record { mailbox = m; key = k; plaintext_key = none },
        revoke_again e s,
        record { key = k; stored = e; status = s },
      )

module _ (p : Platform) (pepper : Text) where
  pub revoked_refused :
      (m : Mailbox) (id : Text) (request : AuthRequest) (t : Instant) (key : ApiKeyRecord)
      → IsRevoked m id
      → authenticate_transactional_key p pepper m request t ≢ KeyAuth.ok id key
  revoked_refused m id request t key r h =
      let (holds, allows) = (authenticate_iff p pepper m request t id key).0 h in
      let one : r.key ≡ key = ground (arith, sym r.stored ∙ holds.stored) in
      ground (arith, sym (ap (λ k. k.status) one) ∙ r.status, allows.status)
