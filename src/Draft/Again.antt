-- ===== src/Draft/Again.antt =====
-- src/do/mailbox-do.ts: confirmSendDraft called again, after a refusal and after a send.
use reccado.Prelude.{
  ◌≡◌, refl, ◌∙◌, ap, subst, Bool, false, none, List, [], ◌∷◌, ◌++◌, delete_where, arith,
  Bool-cases, inl, inr,
}
use reccado.Text.{Text, ◌===◌, ===_iff}
use reccado.ApiKey.{Instant}
use reccado.Inbox.{Inbox, MetaValue}
use reccado.Draft.Confirm.{Flight, find_meta, insert_meta, delete_meta, draft_gate}
use reccado.Draft.Settle.{SendError, threw, Ending, is_ambiguous, record_refusal, settle_confirm}
use reccado.Draft.Begin.{Departure, delete-insert_meta, absent_before}
use reccado.Draft.Gate.{has, insert_meta-has}

delete_where-other {ℓ} :
    {A : Type ℓ} (p : A → Bool) (xs : List A) (a : A)
    → p a ≡ false
    → delete_where p (xs ++ a ∷ []) ≡ delete_where p xs ++ a ∷ []
unfolding delete_where
delete_where-other p [] a h = rw h refl
delete_where-other p (x ∷ xs) a h = ground (arith, delete_where-other p xs a h)

delete-insert_other :
    (key other : Text) (value : MetaValue) (now : Instant) (m : Inbox)
    → other === key ≡ false
    → delete_meta key (insert_meta other value now m)
      ≡ insert_meta other value now (delete_meta key m)
unfolding delete_meta insert_meta
delete-insert_other key other value now m h =
    ap (λ rows. record m { mailbox_meta = rows })
      (delete_where-other (λ row. row.key === key) m.mailbox_meta _ h)

module _ (draft_id key : Text) (claimed_at : Instant) (m n : Inbox) (f : Flight)
    (dep : Departure draft_id key claimed_at m n f) where
  gate_is_other : draft_gate f.draft.id === key ≡ false
  gate_is_other = elim (Bool-cases (draft_gate f.draft.id === key)) [
    | inr e ↦ e
    | inl e ↦
        let same : draft_gate f.draft.id ≡ key = (===_iff _ _).0 e in
        let gone : find_meta (insert_meta key MetaValue.sending f.now m) key ≡ none =
          subst (λ k. find_meta (insert_meta key MetaValue.sending f.now m) k ≡ none) same
            dep.unclaimed in
        elim (insert_meta-has key MetaValue.sending f.now m) [
          | has row here ↦ ground (arith, here, gone)
        ]
  ]

  -- A send that the provider refuses leaves no trace: the mailbox is what it was before the
  -- confirmation, so the draft can be confirmed again, also under the same key.
  pub refusal-restores :
      (failure : SendError) (e : Ending)
      → is_ambiguous failure ≡ false
      → (settle_confirm f (threw failure) e n).0 ≡ m
  unfolding settle_confirm record_refusal
  refusal-restores failure e h =
      let gate : Text = draft_gate f.draft.id in
      let marked : Inbox = insert_meta key MetaValue.sending f.now m in
      rw (h, settle_confirm, dep.claims, dep.own_key)
        (ap (delete_meta gate)
            (delete-insert_other key gate (MetaValue.text key) claimed_at marked gate_is_other)
          ∙ ap (λ x. delete_meta gate (insert_meta gate (MetaValue.text key) claimed_at x))
              (delete-insert_meta key MetaValue.sending f.now m dep.unmarked)
          ∙ delete-insert_meta gate (MetaValue.text key) claimed_at m
              (absent_before gate key MetaValue.sending f.now m dep.unclaimed))
