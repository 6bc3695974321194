-- ===== src/Draft/Begin.antt =====
-- src/do/mailbox-do.ts: confirmSendDraft up to the send: it leaves the mailbox as it is, or it claims the
-- draft and sends.
use reccado.Prelude.{
  ◌≤◌, ◌≡◌, refl, sym, ap, Bool, true, Option, none, some, List, [], ◌∷◌, ◌++◌, find, delete_where,
  arith, ltb, find-append_some, Option-cases, Bool-cases, inl, inr,
}
use reccado.Text.{Text, ◌===◌, ===_refl}
use reccado.ApiKey.{Instant}
use reccado.Identity.{SenderIdentity}
use reccado.Inbox.{Inbox, DraftRow, MessageRow, MetaValue}
use reccado.Draft.{find_draft}
use reccado.Draft.Thread.{find_thread_parent}
use reccado.Draft.Confirm.{
  ConfirmResult, Begun, done, departed, Flight, flight_for, find_meta, insert_meta, delete_meta,
  draft_gate, is_pending, recipient_count, max_recipients, claim_gate, confirm_unmarked,
  begin_confirm,
}

delete-inserted {ℓ} :
    {A : Type ℓ} (p : A → Bool) (xs : List A) (a : A)
    → p a ≡ true
    → find p xs ≡ none
    → delete_where p (xs ++ a ∷ []) ≡ xs
unfolding find delete_where
delete-inserted p [] a h e = rw h refl
delete-inserted p (x ∷ xs) a h e = ground (arith, delete-inserted p xs a h)

-- A marker that is put and taken away again leaves the mailbox as it was.
pub delete-insert_meta :
    (key : Text) (value : MetaValue) (now : Instant) (m : Inbox)
    → find_meta m key ≡ none
    → delete_meta key (insert_meta key value now m) ≡ m
unfolding delete_meta insert_meta find_meta
delete-insert_meta key value now m e =
    ap (λ rows. record m { mailbox_meta = rows })
      (delete-inserted (λ row. row.key === key) m.mailbox_meta _ (===_refl key) e)

pub absent_before :
    (key other : Text) (value : MetaValue) (now : Instant) (m : Inbox)
    → find_meta (insert_meta other value now m) key ≡ none
    → find_meta m key ≡ none
unfolding insert_meta find_meta
absent_before key other value now m e =
    elim (Option-cases (find (λ row. row.key === key) m.mailbox_meta)) [
      | inl h ↦ h
      | inr (row, h) ↦
          let kept =
            find-append_some (λ r. r.key === key) m.mailbox_meta
              (record { key = other; value = value; updated_at = now } ∷ []) row h in
          ground (arith, kept, e)
    ]

-- What a call that departs has found and done.
pub record Departure (draft_id key : Text) (claimed_at : Instant) (m n : Inbox) (f : Flight)
    : Type 0 where
  pub row : find_draft m draft_id ≡ some f.draft
  pub pending : is_pending f.draft.status ≡ true
  pub few : recipient_count f.draft ≤ max_recipients
  pub own_key : f.key ≡ key
  pub unmarked : find_meta m key ≡ none
  pub unclaimed :
      find_meta (insert_meta key MetaValue.sending f.now m) (draft_gate f.draft.id) ≡ none
  pub claims :
      n
      ≡ insert_meta
          (draft_gate f.draft.id)
          (MetaValue.text f.key)
          claimed_at
          (insert_meta f.key MetaValue.sending f.now m)

pub data Beginning (draft_id key : Text) (claimed_at : Instant) (m : Inbox) (answer : Inbox × Begun)
    : Type 0 where
  stays : (r : ConfirmResult) → answer ≡ (m, done r) → Beginning draft_id key claimed_at m answer
  departs :
      (f : Flight) (n : Inbox)
      → answer ≡ (n, departed f)
      → Departure draft_id key claimed_at m n f
      → Beginning draft_id key claimed_at m answer

module _ (draft_id key : Text) (claimed_at : Instant) (m : Inbox) where
  claim_lem :
      (f : Flight)
      → find_draft m draft_id ≡ some f.draft
      → is_pending f.draft.status ≡ true
      → recipient_count f.draft ≤ max_recipients
      → f.key ≡ key
      → find_meta m key ≡ none
      → Beginning draft_id key claimed_at m (claim_gate f claimed_at m)
  unfolding claim_gate
  claim_lem f row pending few own unmarked =
      let marked : Inbox = insert_meta f.key MetaValue.sending f.now m in
      elim (Option-cases (find_meta marked (draft_gate f.draft.id))) [
        | inl e ↦ departs f _ (rw (e, claim_gate) refl) (record {
          row = row;
          pending = pending;
          few = few;
          own_key = own;
          unmarked = unmarked;
          unclaimed = rw (sym own) e;
          claims = refl;
        })
        | inr (gate, e) ↦
            rw (e, claim_gate, delete-insert_meta f.key MetaValue.sending f.now m (rw own unmarked))
              (stays _ refl)
      ]

  pub flight_for-fields :
      (d : DraftRow) (new_thread_id : Text) (identity : SenderIdentity) (now : Instant)
      (parent : Option MessageRow)
      → let f = flight_for d key new_thread_id identity now parent in (f.draft ≡ d) × (f.key ≡ key)
  flight_for-fields d new_thread_id identity now none = (refl, refl)
  flight_for-fields d new_thread_id identity now (some parent) = (refl, refl)

  module _ (identity : SenderIdentity) (new_thread_id : Text) (now : Instant) where
    unmarked_lem :
        (d : DraftRow)
        → find_draft m draft_id ≡ some d
        → find_meta m key ≡ none
        → Beginning draft_id key claimed_at m
            (confirm_unmarked identity d key new_thread_id now claimed_at m)
    unfolding confirm_unmarked
    unmarked_lem d row unmarked =
        let parent = find_thread_parent m d.thread_id d.parent_message_id in
        let f : Flight = flight_for d key new_thread_id identity now parent in
        let (same, own) = flight_for-fields d new_thread_id identity now parent in
        elim (Bool-cases (is_pending d.status)) [
          | inr e ↦ rw (e, confirm_unmarked) (stays _ refl)
          | inl e ↦ elim (Bool-cases (ltb max_recipients (recipient_count d))) [
            | inl h ↦ rw (e, h, confirm_unmarked) (stays _ refl)
            | inr h ↦
                rw (e, h, confirm_unmarked)
                  (claim_lem f (rw same row) (rw same e) (rw same (ground arith)) own unmarked)
          ]
        ]

    -- A confirmation leaves the mailbox exactly as it is and does not send; or it found the draft
    -- pending, with at most 50 recipients, no marker under its key and no other call's claim on the
    -- draft, and puts the marker and the claim before it sends.
    pub begin_confirm-Beginning :
        Beginning draft_id key claimed_at m
          (begin_confirm identity draft_id key new_thread_id now claimed_at m)
    unfolding begin_confirm
    begin_confirm-Beginning = elim (Option-cases (find_draft m draft_id)) [
      | inl e ↦ rw (e, begin_confirm) (stays _ refl)
      | inr (d, e) ↦ elim (Option-cases (find_meta m key)) [
        | inl h ↦ rw (e, h, begin_confirm) (unmarked_lem d e h)
        | inr (marker, h) ↦ rw (e, h, begin_confirm) (stays _ refl)
      ]
    ]
