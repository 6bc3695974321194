-- ===== src/History/Once.antt =====
-- src/do/transactional-send-ops.ts: what a history of calls sends under one idempotency key.
use reccado.Request.Kept.{same_rows-Keeps}
use reccado.TemplateStore.{update_template, archive_template}
use reccado.History.{
  create_key, revoke_key, rotate_key, rename_key, new_template, edit_template, retire_template,
  template_sync,
}
use reccado.History.Others.{
  Untouched, create_api_key-Untouched, revoke_api_key-Untouched, rotate_api_key-Untouched,
  rename-Untouched, create_template-Untouched, sync_templates-Untouched,
}
use reccado.Prelude.{
  ◌-◌, ◌≤◌, ◌≡◌, refl, sym, subst, true, ◌⊎◌, some, List, [], ◌∷◌, length, length-append, arith,
  inl, inr, Bool-cases,
}
use reccado.Text.{Text, ===_iff}
use reccado.ApiKey.{Platform}
use reccado.Mailbox.{Mailbox, RequestRow}
use reccado.Request.{get_transactional_request}
use reccado.Send.{
  Surroundings, Checked, ok, refused, Prepared, prepare, submit, submit_checked, email_of,
  handle_transactional_send,
}
use reccado.Send.Fresh.{IsFresh, settled_row, submit-others}
use reccado.Send.Outcome.{Outcome, replayed, over_quota, dispatched, submit-outcome, submit_taken}
use reccado.History.{
  Operation, send, delivery_event, reconcile, unsuppress, apply, apply_all, concerns, growth,
  emails_for, HasFreshId, AllFresh, is_for,
}
use reccado.Request.Kept.{SameRequest, SameRequest-trans, Keeps, Keeps-refl, Keeps-trans, same}
use reccado.History.Kept.{event-Keeps, reconcile-Keeps, remove_suppression-Keeps}

module _ (p : Platform) where
  module _ (q : Prepared) (env : Surroundings) (m : Mailbox) where
    outcome-Keeps :
        IsFresh env.request_id m → Outcome p q env m → Keeps SameRequest m (submit p q env m).0
    outcome-Keeps fresh (replayed r e a) =
        subst (λ x. Keeps SameRequest m x.0) (sym a) (Keeps-refl same m)
    outcome-Keeps fresh (over_quota e c a) =
        subst (λ x. Keeps SameRequest m x.0) (sym a) (Keeps-refl same m)
    outcome-Keeps fresh (dispatched usage e c d) = record {
      kept = λ k i r taken. (r, submit-others p q env m usage k i r e fresh c taken, same r);
    }

  checked-Keeps :
      (c : Checked Prepared) (env : Surroundings) (m : Mailbox)
      → IsFresh env.request_id m
      → Keeps SameRequest m (submit_checked p c env m).0
  checked-Keeps (refused k e) env m fresh = Keeps-refl same m
  checked-Keeps (ok q) env m fresh = outcome-Keeps q env m fresh (submit-outcome p q env m fresh)

  pub apply-Keeps :
      (o : Operation) (m : Mailbox) → HasFreshId o m → Keeps SameRequest m (apply p o m)
  unfolding apply handle_transactional_send Untouched update_template archive_template
  apply-Keeps (send pepper request env) m fresh = checked-Keeps _ env m fresh
  apply-Keeps (delivery_event event hint now) m fresh = event-Keeps event hint now m
  apply-Keeps (reconcile older_than now) m fresh = reconcile-Keeps m older_than now
  apply-Keeps (unsuppress email override) m fresh = remove_suppression-Keeps email override m
  apply-Keeps (create_key pepper mailbox_id input new) m fresh =
      same_rows-Keeps same m _ (create_api_key-Untouched p pepper m mailbox_id input new).0
  apply-Keeps (revoke_key key_id reason event_id now) m fresh =
      same_rows-Keeps same m _ (revoke_api_key-Untouched m key_id reason event_id now).0
  apply-Keeps (rotate_key pepper mailbox_id old_key_id new) m fresh =
      same_rows-Keeps same m _ (rotate_api_key-Untouched p pepper m mailbox_id old_key_id new).0
  apply-Keeps (rename_key key_id sender_name event_id now) m fresh =
      same_rows-Keeps same m _ (rename-Untouched m key_id sender_name event_id now).0
  apply-Keeps (new_template mailbox_id input now) m fresh =
      same_rows-Keeps same m _ (create_template-Untouched m mailbox_id input now).0
  apply-Keeps (edit_template mailbox_id input now) m fresh = same_rows-Keeps same m _ refl
  apply-Keeps (retire_template mailbox_id template_id now) m fresh = same_rows-Keeps same m _ refl
  apply-Keeps (template_sync mailbox_id batch archive now) m fresh =
      same_rows-Keeps same m _ (sync_templates-Untouched m mailbox_id batch archive now).0

  module _ (k i : Text) where
    -- A call under the key and the idempotency key sends nothing, or sends once and takes the key.
    for_growth :
        (c : Checked Prepared) (env : Surroundings) (m : Mailbox)
        → IsFresh env.request_id m
        → is_for k i c ≡ true
        → let n = (submit_checked p c env m).0 in
          (length n.outbox - length m.outbox ≡ 0)
          ⊎ ((length n.outbox - length m.outbox ≡ 1)
              × ((r : RequestRow) × (get_transactional_request n k i ≡ some r)))
    for_growth (refused l e) env m fresh h = inl (ground arith)
    for_growth (ok q) env m fresh h =
        let key : q.key_id ≡ k = ground (arith, ===_iff q.key_id k) in
        let idem : q.client_idempotency_key ≡ i =
          ground (arith, ===_iff q.client_idempotency_key i) in
        elim (submit-outcome p q env m fresh) [
          | replayed r e a ↦ inl (rw a (ground arith))
          | over_quota e c a ↦ inl (rw a (ground arith))
          | dispatched usage e c d ↦ inr (
            rw (d.answer, d.outbox, length-append m.outbox (email_of q ∷ [])) (ground arith),
            (settled_row p q env d.status, rw (d.answer, sym key, sym idem) d.row),
          )
        ]

    for_taken :
        (c : Checked Prepared) (env : Surroundings) (m : Mailbox) (r : RequestRow)
        → get_transactional_request m k i ≡ some r
        → is_for k i c ≡ true
        → length (submit_checked p c env m).0.outbox - length m.outbox ≡ 0
    for_taken (refused l e) env m r taken h = ground arith
    for_taken (ok q) env m r taken h =
        let key : q.key_id ≡ k = ground (arith, ===_iff q.key_id k) in
        let idem : q.client_idempotency_key ≡ i =
          ground (arith, ===_iff q.client_idempotency_key i) in
        let e : get_transactional_request m q.key_id q.client_idempotency_key ≡ some r =
          rw (key, idem) taken in
        rw (submit_taken p q env m r e) (ground arith)

    concerned_growth :
        (o : Operation) (m : Mailbox)
        → HasFreshId o m
        → concerns p k i o m ≡ true
        → (growth p o m ≡ 0)
          ⊎ ((growth p o m ≡ 1)
              × ((r : RequestRow) × (get_transactional_request (apply p o m) k i ≡ some r)))
    unfolding apply handle_transactional_send
    concerned_growth (send pepper request env) m fresh h =
        for_growth (prepare p pepper m request env) env m fresh h
    concerned_growth (delivery_event event hint now) m fresh h = ground arith
    concerned_growth (reconcile older_than now) m fresh h = ground arith
    concerned_growth (unsuppress email override) m fresh h = ground arith
    concerned_growth (create_key pepper mailbox_id input new) m fresh h = ground arith
    concerned_growth (revoke_key key_id reason event_id now) m fresh h = ground arith
    concerned_growth (rotate_key pepper mailbox_id old_key_id new) m fresh h = ground arith
    concerned_growth (rename_key key_id sender_name event_id now) m fresh h = ground arith
    concerned_growth (new_template mailbox_id input now) m fresh h = ground arith
    concerned_growth (edit_template mailbox_id input now) m fresh h = ground arith
    concerned_growth (retire_template mailbox_id template_id now) m fresh h = ground arith
    concerned_growth (template_sync mailbox_id batch archive now) m fresh h = ground arith

    concerned_taken :
        (o : Operation) (m : Mailbox) (r : RequestRow)
        → get_transactional_request m k i ≡ some r
        → concerns p k i o m ≡ true
        → growth p o m ≡ 0
    unfolding apply handle_transactional_send
    concerned_taken (send pepper request env) m r taken h =
        for_taken (prepare p pepper m request env) env m r taken h
    concerned_taken (delivery_event event hint now) m r taken h = ground arith
    concerned_taken (reconcile older_than now) m r taken h = ground arith
    concerned_taken (unsuppress email override) m r taken h = ground arith
    concerned_taken (create_key pepper mailbox_id input new) m r taken h = ground arith
    concerned_taken (revoke_key key_id reason event_id now) m r taken h = ground arith
    concerned_taken (rotate_key pepper mailbox_id old_key_id new) m r taken h = ground arith
    concerned_taken (rename_key key_id sender_name event_id now) m r taken h = ground arith
    concerned_taken (new_template mailbox_id input now) m r taken h = ground arith
    concerned_taken (edit_template mailbox_id input now) m r taken h = ground arith
    concerned_taken (retire_template mailbox_id template_id now) m r taken h = ground arith
    concerned_taken (template_sync mailbox_id batch archive now) m r taken h = ground arith

    -- Once a row has the idempotency key, no call under it sends anything.
    pub emails_for-taken :
        (os : List Operation) (m : Mailbox) (r : RequestRow)
        → get_transactional_request m k i ≡ some r
        → AllFresh p os m
        → emails_for p k i os m ≡ 0
    unfolding emails_for AllFresh
    emails_for-taken [] m r taken fresh = refl
    emails_for-taken (o ∷ os) m r taken fresh =
        let (s, e, a) = (apply-Keeps o m fresh.0).kept k i r taken in
        let rest = emails_for-taken os (apply p o m) s e fresh.1 in
        elim (Bool-cases (concerns p k i o m)) [
          | inl h ↦ rw (h, concerned_taken o m r taken h, rest) refl
          | inr h ↦ rw (h, rest) refl
        ]

    -- However sends, delivery events, reconciliations, and calls on suppressions, keys and templates
    -- follow one another in a mailbox, if each send has a new request id then all sends under one key
    -- and one idempotency key together hand at most one email to the provider.
    pub emails_for-le_one :
        (os : List Operation) (m : Mailbox) → AllFresh p os m → emails_for p k i os m ≤ 1
    unfolding emails_for AllFresh
    emails_for-le_one [] m fresh = ground arith
    emails_for-le_one (o ∷ os) m fresh =
        let rest = emails_for-le_one os (apply p o m) fresh.1 in
        elim (Bool-cases (concerns p k i o m)) [
          | inr h ↦ rw h (omega arith)
          | inl h ↦ elim (concerned_growth o m fresh.0 h) [
            | inl zero ↦ rw (h, zero) (omega arith)
            | inr (one, (r, taken)) ↦
                rw (h, one, emails_for-taken os (apply p o m) r taken fresh.1) (ground arith)
          ]
        ]

  -- No history of calls changes which request an idempotency key stands for.
  pub apply_all-Keeps :
      (os : List Operation) (m : Mailbox) → AllFresh p os m → Keeps SameRequest m (apply_all p os m)
  unfolding apply_all AllFresh
  apply_all-Keeps [] m fresh = Keeps-refl same m
  apply_all-Keeps (o ∷ os) m fresh =
      Keeps-trans SameRequest-trans (apply-Keeps o m fresh.0)
        (apply_all-Keeps os (apply p o m) fresh.1)
