-- ===== src/Draft/Kept.antt =====
-- src/do/mailbox-do.ts: what the draft operations keep of a draft and of its claim.
use mathlib.Core.Option
use reccado.Prelude.{
  ◌≡◌, refl, ◌∙◌, ap, false, Option, none, some, [], ◌∷◌, arith, if◌then◌else◌, find-append_some,
  find-update_where, Option-cases, inl, inr,
}
use reccado.Text.{Text, ◌===◌}
use reccado.ApiKey.{Instant}
use reccado.Inbox.{Inbox, DraftRow, cancelled}
use reccado.Draft.{
  DraftInput, has_id, find_draft, update_drafts, add_draft, create_draft, create_with, insert_plain,
  insert_keyed, existing_draft, find_by_key, edited, update_draft, is_open, armed,
  request_send_draft, with_status, cancel_draft,
}
use reccado.Draft.Confirm.{find_meta, draft_gate}
use reccado.Draft.Gate.{HasMeta, has}

pub data HasDraft (draft_id : Text) (m : Inbox) : Type 0 where
  drafted : (d : DraftRow) → find_draft m draft_id ≡ some d → HasDraft draft_id m

-- The draft is sent or cancelled.
pub data IsClosed (draft_id : Text) (m : Inbox) : Type 0 where
  closed :
      (d : DraftRow)
      → find_draft m draft_id ≡ some d
      → is_open d.status ≡ false
      → IsClosed draft_id m

-- From one mailbox to another the draft stays, its claim stays, and it does not open again.
pub record Keeps (draft_id : Text) (m n : Inbox) : Type 0 where
  pub claim : HasMeta m (draft_gate draft_id) → HasMeta n (draft_gate draft_id)
  pub row : HasDraft draft_id m → HasDraft draft_id n
  pub end : IsClosed draft_id m → IsClosed draft_id n

module _ (draft_id : Text) where
  pub Keeps-refl : (m : Inbox) → Keeps draft_id m m
  Keeps-refl m = record { claim = λ h. h; row = λ h. h; end = λ h. h }

  pub Keeps-trans : {m n o : Inbox} → Keeps draft_id m n → Keeps draft_id n o → Keeps draft_id m o
  Keeps-trans a b = record {
    claim = λ h. b.claim (a.claim h);
    row = λ h. b.row (a.row h);
    end = λ h. b.end (a.end h);
  }

  find-added :
      (d : DraftRow) (m : Inbox) (old : DraftRow)
      → find_draft m draft_id ≡ some old
      → find_draft (add_draft d m) draft_id ≡ some old
  unfolding find_draft add_draft
  find-added d m old e = find-append_some (has_id draft_id) m.outbound_drafts _ old e

  add-Keeps : (d : DraftRow) (m : Inbox) → Keeps draft_id m (add_draft d m)
  unfolding add_draft find_meta
  add-Keeps d m = record {
    claim = λ h. elim h [ has row e ↦ has row e ];
    row = λ h. elim h [ drafted old e ↦ drafted old (find-added d m old e) ];
    end = λ h. elim h [ closed old e g ↦ closed old (find-added d m old e) g ];
  }

  existing-Keeps : (m : Inbox) (key : Text) → Keeps draft_id m (existing_draft m key).0
  existing-Keeps m key = elim (Option-cases (find_by_key m key)) [
    | inl e ↦ rw (e, existing_draft) (Keeps-refl m)
    | inr (d, e) ↦ rw (e, existing_draft) (Keeps-refl m)
  ]

  plain-Keeps :
      (body : DraftInput) (id : Text) (now : Instant) (m : Inbox) (subject : Option Text)
      → Keeps draft_id m (insert_plain body id now m subject).0
  plain-Keeps body id now m none = Keeps-refl m
  plain-Keeps body id now m (some subject) = elim (Option-cases (find_draft m id)) [
    | inl e ↦ rw (e, insert_plain) (add-Keeps _ m)
    | inr (d, e) ↦ rw (e, insert_plain) (Keeps-refl m)
  ]

  keyed-Keeps :
      (body : DraftInput) (id : Text) (now : Instant) (m : Inbox) (key : Text)
      (subject : Option Text)
      → Keeps draft_id m (insert_keyed body id now m key subject).0
  keyed-Keeps body id now m key none = existing-Keeps m key
  keyed-Keeps body id now m key (some subject) = elim (Option-cases (find_draft m id)) [
    | inr (d, e) ↦ rw (e, insert_keyed) (existing-Keeps m key)
    | inl e ↦ elim (Option-cases (find_by_key m key)) [
      | inl h ↦ rw (e, h, insert_keyed) (add-Keeps _ m)
      | inr (d, h) ↦ rw (e, h, insert_keyed) (existing-Keeps m key)
    ]
  ]

  pub create-Keeps :
      (body : DraftInput) (id : Text) (now : Instant) (m : Inbox)
      → Keeps draft_id m (create_draft body id now m).0
  unfolding create_draft
  create-Keeps body id now m = by_key body.idempotency_key
    where
      by_key : (key : Option Text) → Keeps draft_id m (create_with body id now m key).0
      by_key none = plain-Keeps body id now m body.subject
      by_key (some []) = plain-Keeps body id now m body.subject
      by_key (some (c ∷ key)) = keyed-Keeps body id now m (c ∷ key) body.subject

  -- An UPDATE that keeps the ids of drafts, and does not open one.
  module _ (id : Text) (f : DraftRow → DraftRow) (same : (d : DraftRow) → (f d).id ≡ d.id) where
    abbrev changed : DraftRow → DraftRow
    changed d = if has_id id d then f d else d

    pub find-updated :
        (m : Inbox) (d : DraftRow)
        → find_draft m draft_id ≡ some d
        → find_draft (update_drafts id f m) draft_id ≡ some (changed d)
    unfolding find_draft update_drafts
    find-updated m d e =
        find-update_where (has_id draft_id) (has_id id) f m.outbound_drafts
          (λ a. ap (λ i. i === draft_id) (same a))
        ∙ ap (Option.map changed) e

    pub update-Keeps :
        ((d : DraftRow) → is_open d.status ≡ false → is_open (f d).status ≡ false)
        → (m : Inbox) → Keeps draft_id m (update_drafts id f m)
    unfolding update_drafts find_meta
    update-Keeps shut m = record {
      claim = λ h. elim h [ has row e ↦ has row e ];
      row = λ h. elim h [ drafted d e ↦ drafted (changed d) (find-updated m d e) ];
      end = λ h. elim h [
        | closed d e g ↦ closed (changed d) (find-updated m d e) (ground (arith, shut d g))
      ];
    }

  pub edit-Keeps :
      (id : Text) (body : DraftInput) (now : Instant) (m : Inbox)
      → Keeps draft_id m (update_draft id body now m).0
  unfolding update_draft
  edit-Keeps id body now m = elim (Option-cases (find_draft m id)) [
    | inl e ↦ rw (e, update_draft) (Keeps-refl m)
    | inr (d, e) ↦ rw (e, update_draft) (update-Keeps id (edited body now) (λ d. refl) (λ d h. h) m)
  ]

  pub request-Keeps :
      (id : Text) (now : Instant) (m : Inbox) → Keeps draft_id m (request_send_draft id now m).0
  unfolding request_send_draft
  request-Keeps id now m =
      let n : Inbox = update_drafts id (armed now) m in
      let kept : Keeps draft_id m n =
        update-Keeps id (armed now) (λ d. ground arith) (λ d h. ground arith) m in
      elim (Option-cases (find_draft n id)) [
        | inl e ↦ rw (e, request_send_draft) kept
        | inr (d, e) ↦ rw (e, request_send_draft) kept
      ]

  pub cancel-Keeps :
      (id : Text) (now : Instant) (m : Inbox) → Keeps draft_id m (cancel_draft id now m).0
  unfolding cancel_draft
  cancel-Keeps id now m = update-Keeps id (with_status cancelled now) (λ d. refl) (λ d h. refl) m
