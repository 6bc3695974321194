-- ===== src/Draft/Answered.antt =====
-- src/do/mailbox-do.ts: confirmSendDraft called again after the provider took, or may have taken, the mail.
use mathlib.Core.Option
use reccado.Prelude.{
  ◌≡◌, refl, ◌∙◌, ap, Bool, true, false, Option, none, some, any, if◌then◌else◌, find-update_where,
  find-delete_where_kept, find_sound,
}
use reccado.Text.{Text, ◌===◌, ===_iff}
use reccado.ApiKey.{Instant}
use reccado.Dispatch.{extract_provider_message_id}
use reccado.Identity.{SenderIdentity}
use reccado.Inbox.{Inbox, DraftStatus, MetaRow, MetaValue}
use reccado.Draft.{update_drafts, with_status}
use reccado.Draft.Confirm.{
  done, replied, Flight, find_meta, set_meta, delete_meta, draft_gate, marker_reply, begin_confirm,
}
use reccado.Draft.Settle.{
  SendOutcome, returned, threw, Ending, error_message, record_sent, record_doubt, sent_copy,
  clashes, settle_confirm, add_message, record_realtime_event,
}
use reccado.Draft.Flights.{may_have_taken}
use reccado.Draft.Gate.{HasMeta, has}
use reccado.Draft.Kept.{HasDraft, drafted, update-Keeps}
use reccado.Draft.Stage.{set-Keeps, same-HasDraft, bump_thread-drafts}

-- The marker that a send leaves which the provider took or may have taken.
unfoldable pub lasting_marker : SendOutcome → MetaValue
lasting_marker (returned reply) = MetaValue.sent (extract_provider_message_id reply)
lasting_marker (threw failure) = MetaValue.unknown (some (error_message failure))

-- The provider's id of the mail, where it answered.
unfoldable pub provider_id_of : SendOutcome → Option Text
provider_id_of (returned reply) = extract_provider_message_id reply
provider_id_of (threw failure) = none

-- The texts under a key and the rows of the drafts decide an answer on a marker.
pub data Marked (draft_id key : Text) (value : MetaValue) (m : Inbox) : Type 0 where
  marked :
      (row : MetaRow)
      → find_meta m key ≡ some row
      → row.value ≡ value
      → HasDraft draft_id m
      → Marked draft_id key value m

Marked-answer :
    (identity : SenderIdentity) (draft_id key new_thread_id : Text) (now claimed_at : Instant)
    (value : MetaValue) (m : Inbox)
    → Marked draft_id key value m
    → begin_confirm identity draft_id key new_thread_id now claimed_at m
      ≡ (m, done (replied (marker_reply draft_id value)))
unfolding begin_confirm
Marked-answer identity draft_id key new_thread_id now claimed_at value m
      (marked row e same (drafted d found)) =
    rw (found, e, begin_confirm, same) refl

set-Marked :
    (draft_id key : Text) (value : MetaValue) (now : Instant) (m : Inbox)
    → HasMeta m key
    → HasDraft draft_id m
    → Marked draft_id key value (set_meta key value now m)
unfolding set_meta find_meta
set-Marked draft_id key value now m (has row e) draft =
    let p : MetaRow → Bool = λ r. r.key === key in
    let f : MetaRow → MetaRow = λ r. record r { value = value; updated_at = now } in
    let here : p row ≡ true = find_sound p m.mailbox_meta row e in
    marked (f row)
      (find-update_where p p f m.mailbox_meta (λ r. refl)
        ∙ ap (Option.map (λ a. if p a then f a else a)) e
        ∙ ap (λ b. some (if b then f row else row)) here)
      refl ((set-Keeps draft_id key value now m).row draft)

module _ (draft_id key : Text) (value : MetaValue) where
  same-Marked :
      (m n : Inbox)
      → n.outbound_drafts ≡ m.outbound_drafts
      → n.mailbox_meta ≡ m.mailbox_meta
      → Marked draft_id key value m
      → Marked draft_id key value n
  unfolding find_meta
  same-Marked m n drafts meta (marked row e same draft) =
      marked row (rw meta e) same (same-HasDraft draft_id m n drafts draft)

  closing-Marked :
      (id : Text) (now : Instant) (m : Inbox)
      → Marked draft_id key value m
      → Marked draft_id key value (update_drafts id (with_status DraftStatus.sent now) m)
  unfolding find_meta update_drafts
  closing-Marked id now m (marked row e same draft) =
      marked row e same ((update-Keeps draft_id id _ (λ d. refl) (λ d h. refl) m).row draft)

  delete-Marked :
      (other : Text) (m : Inbox)
      → key === other ≡ false
      → Marked draft_id key value m
      → Marked draft_id key value (delete_meta other m)
  unfolding find_meta delete_meta
  delete-Marked other m h (marked row e same draft) =
      let here : row.key ≡ key =
        (===_iff _ _).0 (find_sound (λ r. r.key === key) m.mailbox_meta row e) in
      marked row
        (find-delete_where_kept (λ r. r.key === key) (λ r. r.key === other) m.mailbox_meta row e
          (rw here h))
        same (same-HasDraft draft_id m _ refl draft)

module _ (f : Flight) (e : Ending) (n : Inbox) (marker : HasMeta n f.key)
    (draft : HasDraft f.draft.id n) where
  sent-Marked :
      (id : Option Text)
      → f.key === draft_gate f.draft.id ≡ false
      → any (clashes (sent_copy f id e)) n.messages ≡ false
      → Marked f.draft.id f.key (MetaValue.sent id) (record_sent f id e n).0
  unfolding record_sent add_message record_realtime_event
  sent-Marked id keyed new =
      let m1 : Inbox = set_meta f.key (MetaValue.sent id) f.now n in
      let m2 : Inbox = update_drafts f.draft.id (with_status DraftStatus.sent f.now) m1 in
      let m3 : Inbox = delete_meta (draft_gate f.draft.id) m2 in
      let same = bump_thread-drafts f.draft.id f.thread_id _ f.now f.now m3 in
      rw (new, record_sent)
        (same-Marked f.draft.id f.key (MetaValue.sent id) m3 _ same.0 same.1 (
          delete-Marked f.draft.id f.key (MetaValue.sent id) (draft_gate f.draft.id) m2 keyed (
            closing-Marked f.draft.id f.key (MetaValue.sent id) f.draft.id f.now m1
              (set-Marked f.draft.id f.key (MetaValue.sent id) f.now n marker draft))))

  settled-Marked :
      (outcome : SendOutcome)
      → f.key === draft_gate f.draft.id ≡ false
      → may_have_taken outcome ≡ true
      → any (clashes (sent_copy f (provider_id_of outcome) e)) n.messages ≡ false
      → Marked f.draft.id f.key (lasting_marker outcome) (settle_confirm f outcome e n).0
  unfolding settle_confirm lasting_marker provider_id_of may_have_taken record_doubt
  settled-Marked (returned reply) keyed took new = sent-Marked _ keyed new
  settled-Marked (threw failure) keyed took new =
      rw (took, settle_confirm) (set-Marked f.draft.id f.key _ e.failed_at n marker draft)

  -- A call whose send the provider took, or may have taken, is told apart from a new one: the same
  -- key, confirmed again after it, changes nothing, sends nothing, and is answered from the
  -- marker, with the provider's id or the error's text.
  pub settle_confirm-remembered :
      (outcome : SendOutcome) (identity : SenderIdentity) (new_thread_id : Text)
      (now claimed_at : Instant)
      → f.key === draft_gate f.draft.id ≡ false
      → may_have_taken outcome ≡ true
      → any (clashes (sent_copy f (provider_id_of outcome) e)) n.messages ≡ false
      → let s = (settle_confirm f outcome e n).0 in
        begin_confirm identity f.draft.id f.key new_thread_id now claimed_at s
        ≡ (s, done (replied (marker_reply f.draft.id (lasting_marker outcome))))
  settle_confirm-remembered outcome identity new_thread_id now claimed_at keyed took new =
      Marked-answer identity f.draft.id f.key new_thread_id now claimed_at (lasting_marker outcome)
        _ (settled-Marked outcome keyed took new)
