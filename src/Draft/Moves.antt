-- ===== src/Draft/Moves.antt =====
-- src/do/mailbox-do.ts: every draft operation moves a draft along the diagram of its stages.
use reccado.Prelude.{
  ℕ, ◌≡◌, refl, sym, ◌∙◌, subst, true, Option, none, some, [], ◌∷◌, ◌++◌, arith, All, Option-cases,
  Bool-cases, inl, inr, find_sound,
}
use reccado.Text.{Text, ◌===◌, ===_iff}
use reccado.ApiKey.{Instant}
use reccado.Inbox.{Inbox, MetaValue}
use reccado.Draft.{find_draft, has_id}
use reccado.Draft.Confirm.{Begun, Flight, find_meta, insert_meta, set_meta, draft_gate}
use reccado.Draft.Thread.{resolve_reply_identity}
use reccado.Draft.Settle.{SendOutcome, Ending}
use reccado.Draft.Begin.{
  Beginning, stays, departs, Departure, begin_confirm-Beginning, absent_before,
}
use reccado.Draft.Flights.{
  System, Operation, create, edit, request_send, cancel, confirm, settle, ConfirmRequest, apply,
  settled, after_begin, flight_at, waiting, arrived, put_meta, remember, confirm_send,
  resolve_mailbox_address, resolve_mailbox_display_name,
}
use reccado.Draft.Gate.{HasMeta, has, insert_meta-HasMeta, insert_meta-has, remember-HasMeta}
use reccado.Draft.Kept.{
  drafted, IsClosed, closed, Keeps, Keeps-trans, create-Keeps, edit-Keeps, request-Keeps,
  cancel-Keeps,
}
use reccado.Draft.Stage.{
  Stage, in_flight, stay, depart, AtStage, at_idle, at_flight, at_doubt, at_end, IsKeyed,
  same-HasDraft, same-IsClosed,
}
use reccado.Draft.Once.{
  count_more, count_none, kept_stage, same_stage, Next, next, settle_other, settle_own, All-at,
}

put_meta-drafts :
    (key : Text) (value : MetaValue) (now : Instant) (m : Inbox)
    → (put_meta key value now m).outbound_drafts ≡ m.outbound_drafts
unfolding put_meta set_meta insert_meta
put_meta-drafts key value now m = ground arith

remember-drafts :
    (key : Text) (s : Option Text) (now : Instant) (m : Inbox)
    → (remember key s now m).0.outbound_drafts ≡ m.outbound_drafts
remember-drafts key none now m = refl
remember-drafts key (some s) now m = put_meta-drafts key _ now m

module _ (draft_id : Text) where
  remember-Keeps :
      (key : Text) (s : Option Text) (now : Instant) (m : Inbox)
      → Keeps draft_id m (remember key s now m).0
  remember-Keeps key s now m = record {
    claim = remember-HasMeta (draft_gate draft_id) key s now m;
    row = same-HasDraft draft_id m _ (remember-drafts key s now m);
    end = same-IsClosed draft_id m _ (remember-drafts key s now m);
  }

  insert-Keeps :
      (key : Text) (value : MetaValue) (now : Instant) (m : Inbox)
      → Keeps draft_id m (insert_meta key value now m)
  unfolding insert_meta
  insert-Keeps key value now m = record {
    claim = insert_meta-HasMeta (draft_gate draft_id) key value now m;
    row = same-HasDraft draft_id m _ refl;
    end = same-IsClosed draft_id m _ refl;
  }

  module _ (id key : Text) (claimed_at : Instant) (m n : Inbox) (f : Flight)
      (dep : Departure id key claimed_at m n f) where
    departed-Keeps : Keeps draft_id m n
    departed-Keeps = rw dep.claims (
        Keeps-trans draft_id (insert-Keeps f.key MetaValue.sending f.now m)
          (insert-Keeps (draft_gate f.draft.id) (MetaValue.text f.key) claimed_at _))

    -- A draft that is claimed or closed does not depart.
    no_claim : f.draft.id ≡ draft_id → ¬ HasMeta m (draft_gate draft_id)
    no_claim own (has row e) =
        let before =
          absent_before (draft_gate f.draft.id) key MetaValue.sending f.now m dep.unclaimed in
        let gone : find_meta m (draft_gate draft_id) ≡ none =
          subst (λ i. find_meta m (draft_gate i) ≡ none) own before in
        ground (arith, gone)

    own_row : f.draft.id ≡ draft_id → find_draft m draft_id ≡ some f.draft
    unfolding find_draft
    own_row own =
        let same : f.draft.id ≡ id =
          (===_iff _ _).0 (find_sound (has_id id) m.outbound_drafts f.draft dep.row) in
        subst (λ i. find_draft m i ≡ some f.draft) (sym same ∙ own) dep.row

    not-IsClosed : f.draft.id ≡ draft_id → ¬ IsClosed draft_id m
    not-IsClosed own (closed d e h) =
        let row = own_row own in let pending = dep.pending in ground arith

    departed-claim : f.draft.id ≡ draft_id → HasMeta n (draft_gate draft_id)
    departed-claim own =
        let gate =
          insert_meta-has (draft_gate f.draft.id) (MetaValue.text f.key) claimed_at
            (insert_meta f.key MetaValue.sending f.now m) in
        rw (dep.claims, sym own) gate

    now_flying :
        (s : System) (x : Stage)
        → f.draft.id ≡ draft_id
        → AtStage draft_id (record s { inbox = m }) x
        → Next draft_id (record s { inbox = n; in_flight = s.in_flight ++ f ∷ [] }) x
    unfolding waiting arrived
    now_flying s _ own (at_idle w a) =
        let here : f.draft.id === draft_id ≡ true = (===_iff _ _).1 own in
        next in_flight depart (
          at_flight (ground (arith, count_more draft_id s.in_flight f, here)) a (departed-claim own)
            (departed-Keeps.row (drafted f.draft (own_row own))))
    now_flying s _ own (at_flight w a g d) = absurd (no_claim own g)
    now_flying s _ own (at_doubt w a g) = absurd (no_claim own g)
    now_flying s _ own (at_end w a c) = absurd (not-IsClosed own c)

    departs_stage :
        (s : System) (x : Stage)
        → AtStage draft_id (record s { inbox = m }) x
        → Next draft_id (record s { inbox = n; in_flight = s.in_flight ++ f ∷ [] }) x
    unfolding waiting arrived
    departs_stage s x stage = elim (Bool-cases (f.draft.id === draft_id)) [
      | inl own ↦ now_flying s x ((===_iff _ _).0 own) stage
      | inr other ↦ next x stay (
          same_stage draft_id x (record s { inbox = m }) _
            (ground (arith, count_more draft_id s.in_flight f)) refl departed-Keeps stage)
    ]

  begin_stage :
      (id key : Text) (claimed_at : Instant) (m : Inbox) (answer : Inbox × Begun) (s : System)
      (x : Stage)
      → Beginning id key claimed_at m answer
      → Keeps draft_id s.inbox m
      → AtStage draft_id s x
      → Next draft_id (after_begin s answer) x
  begin_stage id key claimed_at m answer s x (stays r eq) k stage =
      rw eq (next x stay (kept_stage draft_id x s m k stage))
  begin_stage id key claimed_at m answer s x (departs f n eq dep) k stage =
      rw eq (departs_stage id key claimed_at m n f dep s x (kept_stage draft_id x s m k stage))

  confirm_stage :
      (r : ConfirmRequest) (id key : Text) (s : System) (x : Stage)
      → AtStage draft_id s x
      → Next draft_id (after_begin s (confirm_send r id key s.inbox)) x
  unfolding confirm_send resolve_mailbox_address resolve_mailbox_display_name
  confirm_stage r id key s x stage =
      let (m1, address) = resolve_mailbox_address r.mailbox_address r.now s.inbox in
      let (m2, name) = resolve_mailbox_display_name r.display_name r.now m1 in
      begin_stage id key r.claimed_at m2 _ s x
        (begin_confirm-Beginning id key r.claimed_at m2
          (resolve_reply_identity r.env m2 id address name) r.new_thread_id r.now)
        (Keeps-trans draft_id (remember-Keeps _ _ r.now s.inbox) (remember-Keeps _ _ r.now m1))
        stage

  no_waiting :
      (n : ℕ) (s : System) (f : Flight)
      → flight_at n s.in_flight ≡ some f
      → f.draft.id ≡ draft_id
      → ¬ (waiting draft_id s ≡ 0)
  unfolding waiting
  no_waiting n s f at own w =
      let here : f.draft.id === draft_id ≡ true = (===_iff _ _).1 own in
      ground (arith, here, count_none draft_id n s.in_flight f at w)

  settle_stage :
      (n : ℕ) (outcome : SendOutcome) (e : Ending) (s : System) (f : Flight) (x : Stage)
      → flight_at n s.in_flight ≡ some f
      → f.draft.id ≡ draft_id
      → AtStage draft_id s x
      → Next draft_id (settled n outcome e s (some f)) x
  unfolding waiting
  settle_stage n outcome e s f _ at own (at_idle w a) = absurd (no_waiting n s f at own w)
  settle_stage n outcome e s f _ at own (at_flight w a g d) =
      settle_own draft_id n outcome e s f at own w a g d
  settle_stage n outcome e s f _ at own (at_doubt w a g) = absurd (no_waiting n s f at own w)
  settle_stage n outcome e s f _ at own (at_end w a c) = absurd (no_waiting n s f at own w)

  -- Any operation moves a draft along the diagram of its stages, or leaves it where it is.
  pub apply-Next :
      (o : Operation) (s : System) (x : Stage)
      → All IsKeyed s.in_flight
      → AtStage draft_id s x
      → Next draft_id (apply o s) x
  unfolding apply
  apply-Next (create body id now) s x keyed stage =
      next x stay (kept_stage draft_id x s _ (create-Keeps draft_id body id now s.inbox) stage)
  apply-Next (edit id body now) s x keyed stage =
      next x stay (kept_stage draft_id x s _ (edit-Keeps draft_id id body now s.inbox) stage)
  apply-Next (request_send id now) s x keyed stage =
      next x stay (kept_stage draft_id x s _ (request-Keeps draft_id id now s.inbox) stage)
  apply-Next (cancel id now) s x keyed stage =
      next x stay (kept_stage draft_id x s _ (cancel-Keeps draft_id id now s.inbox) stage)
  apply-Next (confirm r id attempt_key) s x keyed stage = confirm_stage r id _ s x stage
  apply-Next (settle n outcome e) s x keyed stage = elim (Option-cases (flight_at n s.in_flight)) [
    | inl e1 ↦ rw e1 (next x stay stage)
    | inr (f, at) ↦ elim (Bool-cases (f.draft.id === draft_id)) [
      | inl own ↦ rw at (settle_stage n outcome e s f x at ((===_iff _ _).0 own) stage)
      | inr other ↦ rw at (
          next x stay (
            settle_other draft_id n outcome e s f x at (All-at n s.in_flight f at keyed) other
              stage))
    ]
  ]
