-- ===== src/History/Revoked.antt =====
-- src/do/mailbox-do.ts: a revoked key over a sequence of the calls of its mailbox.
use reccado.Prelude.{◌≡◌, ◌≢◌, refl, ap, Option, some, List, [], ◌∷◌}
use reccado.Text.{Text}
use reccado.ApiKey.{Platform, ApiKeyRecord, Instant}
use reccado.Mailbox.{Mailbox}
use reccado.Auth.{AuthRequest, KeyAuth, authenticate_transactional_key, get_api_key_record}
use reccado.KeyOps.{KeyResult, done, revoke_api_key}
use reccado.KeyOps.Revocation.{IsRevoked, revoke-IsRevoked, revoked_refused}
use reccado.TemplateStore.{update_template, archive_template}
use reccado.History.{
  send, delivery_event, reconcile, unsuppress, create_key, revoke_key, rotate_key, rename_key,
  new_template, edit_template, retire_template, template_sync, Operation, apply, apply_all,
}
use reccado.History.Others.{
  OnlyTemplates, create_template-OnlyTemplates, sync_templates-OnlyTemplates,
}
use reccado.Request.{reconcile_stale_transactional_requests}
use reccado.Suppression.{remove_suppression}
use reccado.History.SameKeys.{SameKeys, send-SameKeys, event-SameKeys}
use reccado.History.KeyCalls.{
  same-IsRevoked, create-IsRevoked, revoke_key-IsRevoked, rotate_key-IsRevoked, rename-IsRevoked,
}

module _ (id : Text) where
  templates-SameKeys : (m n : Mailbox) → OnlyTemplates m n → SameKeys m n
  unfolding OnlyTemplates
  templates-SameKeys m n h = ap (λ x. x.api_keys) h

  -- A revoked key stays revoked.
  apply-IsRevoked :
      (p : Platform) (o : Operation) (m : Mailbox) → IsRevoked m id → IsRevoked (apply p o m) id
  unfolding apply
  apply-IsRevoked p (send pepper request env) m r =
      same-IsRevoked id m _ (send-SameKeys p pepper request env m) r
  apply-IsRevoked p (delivery_event event hint now) m r =
      same-IsRevoked id m _ (event-SameKeys event hint now m) r
  apply-IsRevoked p (reconcile older_than now) m r =
      same-IsRevoked id m _ (unfold reconcile_stale_transactional_requests in refl) r
  apply-IsRevoked p (unsuppress email override) m r =
      same-IsRevoked id m _ (unfold remove_suppression in refl) r
  apply-IsRevoked p (create_key pepper mailbox_id input new) m r =
      create-IsRevoked id p pepper m mailbox_id input new r
  apply-IsRevoked p (revoke_key i reason event now) m r =
      revoke_key-IsRevoked id m i reason event now r
  apply-IsRevoked p (rotate_key pepper mailbox_id old new) m r =
      rotate_key-IsRevoked id p pepper m mailbox_id old new r
  apply-IsRevoked p (rename_key i sender_name event now) m r =
      rename-IsRevoked id m i sender_name event now r
  apply-IsRevoked p (new_template mailbox_id input now) m r =
      same-IsRevoked id m _
        (templates-SameKeys m _ (create_template-OnlyTemplates m mailbox_id input now)) r
  apply-IsRevoked p (edit_template mailbox_id input now) m r =
      same-IsRevoked id m _ (unfold update_template in refl) r
  apply-IsRevoked p (retire_template mailbox_id template_id now) m r =
      same-IsRevoked id m _ (unfold archive_template in refl) r
  apply-IsRevoked p (template_sync mailbox_id batch archive now) m r =
      same-IsRevoked id m _
        (templates-SameKeys m _ (sync_templates-OnlyTemplates m mailbox_id batch archive now)) r

  pub apply_all-IsRevoked :
      (p : Platform) (os : List Operation) (m : Mailbox)
      → IsRevoked m id
      → IsRevoked (apply_all p os m) id
  unfolding apply_all
  apply_all-IsRevoked p [] m r = r
  apply_all-IsRevoked p (o ∷ os) m r =
      apply_all-IsRevoked p os (apply p o m) (apply-IsRevoked p o m r)

module _ (p : Platform) (pepper : Text) where
  -- Revoking a key that the mailbox has always succeeds, a second time too, and from then on,
  -- whatever calls the mailbox answers, no request is let in as that key, whatever it brings and
  -- whenever it comes.
  pub revoke_api_key-ends_use :
      (m : Mailbox) (id : Text) (reason : Option Text) (event : Text) (now : Instant)
      (k : ApiKeyRecord) (os : List Operation) (request : AuthRequest) (t : Instant)
      (key : ApiKeyRecord)
      → get_api_key_record m id ≡ some k
      → (r : KeyResult) × (revoke_api_key m id reason event now ≡ done r)
        × (authenticate_transactional_key p pepper (apply_all p os r.mailbox) request t
            ≢ KeyAuth.ok id key)
  revoke_api_key-ends_use m id reason event now k os request t key e =
      let (r, h, gone) = revoke-IsRevoked m id reason event now k e in
      (
        r,
        h,
        revoked_refused p pepper (apply_all p os r.mailbox) id request t key
            (apply_all-IsRevoked id p os r.mailbox gone),
      )
