-- ===== src/History/Others.antt =====
-- src/do/transactional-key-ops.ts and src/do/transactional-send-ops.ts: the calls on keys and on
-- templates, and the tables of the requests and of the provider's messages.
use reccado.Prelude.{sym, inl, inr, Option-cases, keep, map}
use reccado.Text.{◌===◌}
use reccado.TemplateStore.{SyncOutcome}
use reccado.Prelude.{◌≡◌, refl, ap, ◌∙◌, arith, Bool, Option, some, List, [], ◌∷◌}
use reccado.Text.{Text}
use reccado.Template.{Template}
use reccado.ApiKey.{Platform, Instant}
use reccado.Mailbox.{Mailbox, TemplateRow}
use reccado.KeyOps.{
  CreateApiKeyInput, NewKey, add_event, add_key, update_key, create_named, create_api_key,
  revoke_api_key, rotate, rotate_api_key, set_sender_name, update_api_key_sender_name,
}
use reccado.TemplateStore.{
  create_template, update_template, archive_template, sync_one, sync_each, archive_missing,
  sync_all, sync_templates,
}
use reccado.History.{or_same, or_kept}

-- The call left the requests and the usage counters alone.
unfoldable pub Untouched : Mailbox → Mailbox → Type 0
Untouched m n =
    (n.transactional_requests ≡ m.transactional_requests) × (n.api_key_usage ≡ m.api_key_usage)

module _ (p : Platform) (pepper : Text) where
  pub create_api_key-Untouched :
      (m : Mailbox) (mailbox_id : Text) (input : CreateApiKeyInput) (new : NewKey)
      → Untouched m (or_same m (create_api_key p pepper m mailbox_id input new))
  unfolding Untouched create_api_key create_named add_event add_key
  create_api_key-Untouched m mailbox_id input new = ground arith

  pub rotate_api_key-Untouched :
      (m : Mailbox) (mailbox_id old : Text) (new : NewKey)
      → Untouched m (or_same m (rotate_api_key p pepper m mailbox_id old new))
  unfolding Untouched rotate_api_key rotate add_event add_key update_key
  rotate_api_key-Untouched m mailbox_id old new = ground arith

pub revoke_api_key-Untouched :
    (m : Mailbox) (id : Text) (reason : Option Text) (event : Text) (now : Instant)
    → Untouched m (or_same m (revoke_api_key m id reason event now))
unfolding Untouched revoke_api_key add_event update_key
revoke_api_key-Untouched m id reason event now = ground arith

pub rename-Untouched :
    (m : Mailbox) (id : Text) (sender_name : Option Text) (event : Text) (now : Instant)
    → Untouched m (or_same m (update_api_key_sender_name m id sender_name event now))
unfolding Untouched update_api_key_sender_name set_sender_name add_event update_key
rename-Untouched m id sender_name event now = ground arith

-- The call changed at most the templates.
unfoldable pub OnlyTemplates : Mailbox → Mailbox → Type 0
OnlyTemplates m n = n ≡ record m { templates = n.templates }

OnlyTemplates-trans : (m n o : Mailbox) → OnlyTemplates m n → OnlyTemplates n o → OnlyTemplates m o
unfolding OnlyTemplates
OnlyTemplates-trans m n o first then =
    let f : Mailbox → Mailbox = λ x. record x { templates = o.templates } in then ∙ ap f first

OnlyTemplates-Untouched : (m n : Mailbox) → OnlyTemplates m n → Untouched m n
unfolding Untouched OnlyTemplates
OnlyTemplates-Untouched m n h = (ap (λ x. x.transactional_requests) h, ap (λ x. x.api_key_usage) h)

pub create_template-OnlyTemplates :
    (m : Mailbox) (mailbox_id : Text) (input : Template) (now : Instant)
    → OnlyTemplates m (or_kept m (create_template m mailbox_id input now))
unfolding OnlyTemplates create_template
create_template-OnlyTemplates m mailbox_id input now = ground arith

sync_one-OnlyTemplates :
    (mailbox_id : Text) (existing : List TemplateRow) (t : Template) (now : Instant) (m n : Mailbox)
    (o : SyncOutcome)
    → sync_one mailbox_id existing t now m ≡ some (n, o)
    → OnlyTemplates m n
unfolding OnlyTemplates sync_one create_template update_template
sync_one-OnlyTemplates mailbox_id existing t now m n o h = ground arith

archive_missing-OnlyTemplates :
    (mailbox_id : Text) (seen : List Text) (existing : List TemplateRow) (now : Instant)
    (m : Mailbox)
    → OnlyTemplates m (archive_missing mailbox_id seen existing now m).0
unfolding OnlyTemplates archive_missing archive_template
archive_missing-OnlyTemplates mailbox_id seen [] now m = refl
archive_missing-OnlyTemplates mailbox_id seen (row ∷ existing) now m = ground (
  arith,
  archive_missing-OnlyTemplates mailbox_id seen existing now m,
  archive_missing-OnlyTemplates mailbox_id seen existing now
      (archive_template m mailbox_id row.id now).0,
)

sync_each-OnlyTemplates :
    (mailbox_id : Text) (existing : List TemplateRow) (batch : List Template) (now : Instant)
    (m n : Mailbox) (os : List (Text × SyncOutcome))
    → sync_each mailbox_id existing batch now m ≡ some (n, os)
    → OnlyTemplates m n
unfolding sync_each
sync_each-OnlyTemplates mailbox_id existing [] now m n os h = unfold OnlyTemplates in ground arith
sync_each-OnlyTemplates mailbox_id existing (t ∷ batch) now m n os h =
    elim (Option-cases (sync_one mailbox_id existing t now m)) [
      | inl e ↦ absurd (ground (arith, e))
      | inr (r, e) ↦ elim (Option-cases (sync_each mailbox_id existing batch now r.0)) [
        | inl f ↦ absurd (ground (arith, e, f))
        | inr (l, f) ↦
            let last : l.0 ≡ n = ground (arith, e, f) in
            rw (sym last) (
              OnlyTemplates-trans m r.0 l.0
                (sync_one-OnlyTemplates mailbox_id existing t now m r.0 r.1 e)
                (sync_each-OnlyTemplates mailbox_id existing batch now r.0 l.0 l.1 f))
      ]
    ]

pub sync_templates-OnlyTemplates :
    (m : Mailbox) (mailbox_id : Text) (batch : List Template) (archive : Bool) (now : Instant)
    → OnlyTemplates m (sync_templates m mailbox_id batch archive now).0
unfolding sync_templates sync_all OnlyTemplates
sync_templates-OnlyTemplates m mailbox_id batch archive now =
    let existing = keep (λ t. t.mailbox_id === mailbox_id) m.templates in
    elim (Option-cases (sync_each mailbox_id existing batch now m)) [
      | inl e ↦ ground (arith, e)
      | inr (r, e) ↦
          let written = sync_each-OnlyTemplates mailbox_id existing batch now m r.0 r.1 e in
          let archived =
            archive_missing-OnlyTemplates mailbox_id (map (λ t. t.id) batch) existing now r.0 in
          let both = OnlyTemplates-trans m r.0 _ written archived in
          ground (arith, e, written, both)
    ]

pub create_template-Untouched :
    (m : Mailbox) (mailbox_id : Text) (input : Template) (now : Instant)
    → Untouched m (or_kept m (create_template m mailbox_id input now))
create_template-Untouched m mailbox_id input now =
    OnlyTemplates-Untouched m _ (create_template-OnlyTemplates m mailbox_id input now)

pub sync_templates-Untouched :
    (m : Mailbox) (mailbox_id : Text) (batch : List Template) (archive : Bool) (now : Instant)
    → Untouched m (sync_templates m mailbox_id batch archive now).0
sync_templates-Untouched m mailbox_id batch archive now =
    OnlyTemplates-Untouched m _ (sync_templates-OnlyTemplates m mailbox_id batch archive now)
