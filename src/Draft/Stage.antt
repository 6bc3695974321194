-- ===== src/Draft/Stage.antt =====
-- src/do/mailbox-do.ts: the stages of one draft's send, seen from the mailbox and its waiting calls.
use reccado.Prelude.{◌≡◌, refl, sym, ◌∙◌, true, false, Option, any, arith, Bool-cases, inl, inr}
use reccado.Text.{Text, ◌===◌, ===_iff}
use reccado.ApiKey.{Instant}
use reccado.Inbox.{Inbox, MessageRow, DraftStatus, MetaValue}
use reccado.Draft.{find_draft, update_drafts, with_status}
use reccado.Draft.Confirm.{Flight, find_meta, set_meta, delete_meta, draft_gate}
use reccado.Draft.Settle.{
  SendOutcome, returned, threw, Ending, is_ambiguous, record_sent, record_doubt, record_refusal,
  bump_thread, add_message, record_realtime_event, sent_copy, clashes, settle_confirm,
}
use reccado.Draft.Flights.{System, waiting, arrived}
use reccado.Draft.Gate.{HasMeta, has, set_meta-HasMeta, delete_meta-HasMeta, draft_gate-===}
use reccado.Draft.Kept.{
  HasDraft, drafted, IsClosed, closed, Keeps, Keeps-refl, Keeps-trans, update-Keeps,
}

-- Nothing of the draft is sent, a call waits for the provider, the provider may have the mail, or the
-- draft is at its end with the mail sent.
pub data Stage : Type 0 where
  idle in_flight doubtful finished : Stage

-- How the stage of a draft may change in one operation.
pub data Edge : Stage → Stage → Type 0 where
  stay : {x : Stage} → Edge x x
  depart : Edge idle in_flight
  refuse : Edge in_flight idle
  doubt : Edge in_flight doubtful
  deliver : Edge in_flight finished

pub data AtStage (draft_id : Text) (s : System) : Stage → Type 0 where
  at_idle : waiting draft_id s ≡ 0 → arrived draft_id s ≡ 0 → AtStage draft_id s idle
  at_flight :
      waiting draft_id s ≡ 1
      → arrived draft_id s ≡ 0
      → HasMeta s.inbox (draft_gate draft_id)
      → HasDraft draft_id s.inbox
      → AtStage draft_id s in_flight
  at_doubt :
      waiting draft_id s ≡ 0
      → arrived draft_id s ≡ 1
      → HasMeta s.inbox (draft_gate draft_id)
      → AtStage draft_id s doubtful
  at_end :
      waiting draft_id s ≡ 0
      → arrived draft_id s ≡ 1
      → IsClosed draft_id s.inbox
      → AtStage draft_id s finished

-- No call uses the claim of a draft as its key.
abbrev pub IsKeyed : Flight → Type 0
IsKeyed f = (draft_id : Text) → draft_gate draft_id === f.key ≡ false

module _ (draft_id : Text) where
  module _ (m n : Inbox) (drafts : n.outbound_drafts ≡ m.outbound_drafts) where
    pub same-HasDraft : HasDraft draft_id m → HasDraft draft_id n
    unfolding find_draft
    same-HasDraft (drafted d e) = drafted d (rw drafts e)

    pub same-IsClosed : IsClosed draft_id m → IsClosed draft_id n
    unfolding find_draft
    same-IsClosed (closed d e h) = closed d (rw drafts e) h

    same-Keeps : n.mailbox_meta ≡ m.mailbox_meta → Keeps draft_id m n
    unfolding find_meta
    same-Keeps meta = record {
      claim = λ h. elim h [ has row e ↦ has row (rw meta e) ];
      row = same-HasDraft;
      end = same-IsClosed;
    }

  pub set-Keeps :
      (key : Text) (value : MetaValue) (now : Instant) (m : Inbox)
      → Keeps draft_id m (set_meta key value now m)
  unfolding set_meta
  set-Keeps key value now m = record {
    claim = set_meta-HasMeta (draft_gate draft_id) key value now m;
    row = same-HasDraft m _ refl;
    end = same-IsClosed m _ refl;
  }

  delete-Keeps :
      (key : Text) (m : Inbox)
      → draft_gate draft_id === key ≡ false
      → Keeps draft_id m (delete_meta key m)
  unfolding delete_meta
  delete-Keeps key m h = record {
    claim = delete_meta-HasMeta (draft_gate draft_id) key m h;
    row = same-HasDraft m _ refl;
    end = same-IsClosed m _ refl;
  }

  pub bump_thread-drafts :
      (id : Text) (subject : Option Text) (at now : Instant) (m : Inbox)
      → let n = bump_thread id subject at now m in
        (n.outbound_drafts ≡ m.outbound_drafts) × (n.mailbox_meta ≡ m.mailbox_meta)
  unfolding bump_thread
  bump_thread-drafts id subject at now m = ground arith

  bumped-Keeps :
      (id : Text) (subject : Option Text) (at now : Instant) (row : MessageRow) (m : Inbox)
      → Keeps draft_id m
          (record_realtime_event row.id id (add_message row (bump_thread id subject at now m)))
  unfolding add_message record_realtime_event
  bumped-Keeps id subject at now row m =
      let same = bump_thread-drafts id subject at now m in same-Keeps m _ same.0 same.1

  -- The end of a call keeps the other drafts and their claims.
  module _ (f : Flight) (keyed : IsKeyed f) (other : f.draft.id === draft_id ≡ false) where
    other_gate : draft_gate draft_id === draft_gate f.draft.id ≡ false
    other_gate = elim (Bool-cases (draft_gate draft_id === draft_gate f.draft.id)) [
      | inr e ↦ e
      | inl e ↦
          let same : draft_id ≡ f.draft.id =
            (===_iff _ _).0 (sym (draft_gate-=== draft_id f.draft.id) ∙ e) in
          let clash : f.draft.id === draft_id ≡ true = (===_iff _ _).1 (sym same) in
          ground (arith, clash)
    ]

    sent-Keeps :
        (id : Option Text) (e : Ending) (m : Inbox) → Keeps draft_id m (record_sent f id e m).0
    unfolding record_sent
    sent-Keeps id e m = elim (Bool-cases (any (clashes (sent_copy f id e)) m.messages)) [
      | inl h ↦ rw (h, record_sent) (Keeps-refl draft_id m)
      | inr h ↦
          let m1 : Inbox = set_meta f.key (MetaValue.sent id) f.now m in
          let m2 : Inbox = update_drafts f.draft.id (with_status DraftStatus.sent f.now) m1 in
          let m3 : Inbox = delete_meta (draft_gate f.draft.id) m2 in
          rw (h, record_sent)
            (Keeps-trans draft_id (set-Keeps f.key (MetaValue.sent id) f.now m) (
              Keeps-trans draft_id (update-Keeps draft_id f.draft.id _ (λ d. refl) (λ d k. refl) m1)
                (Keeps-trans draft_id (delete-Keeps (draft_gate f.draft.id) m2 other_gate)
                  (bumped-Keeps f.thread_id _ f.now f.now (sent_copy f id e) m3))))
    ]

    pub settle-Keeps :
        (outcome : SendOutcome) (e : Ending) (m : Inbox)
        → Keeps draft_id m (settle_confirm f outcome e m).0
    unfolding settle_confirm record_doubt record_refusal
    settle-Keeps (returned reply) e m = sent-Keeps _ e m
    settle-Keeps (threw failure) e m = elim (Bool-cases (is_ambiguous failure)) [
      | inl h ↦ rw (h, settle_confirm) (set-Keeps f.key _ e.failed_at m)
      | inr h ↦
          rw (h, settle_confirm)
            (Keeps-trans draft_id (delete-Keeps f.key m (keyed draft_id))
              (delete-Keeps (draft_gate f.draft.id) (delete_meta f.key m) other_gate))
    ]
