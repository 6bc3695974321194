-- ===== src/Draft/Once.antt =====
-- src/do/mailbox-do.ts: a draft's sends over any sequence of calls, with waiting calls in between.
use reccado.Prelude.{
  ℕ, zero, suc, ◌+◌, ◌≡◌, ◌⊎◌, refl, ◌∙◌, subst, true, false, Option, some, List, [], ◌∷◌, ◌++◌,
  any, arith, keep, length, if◌then◌else◌, All, Bool-cases, inl, inr, find_sound,
}
use reccado.Text.{Text, ◌===◌, ===_iff}
use reccado.ApiKey.{Instant}
use reccado.Dispatch.{extract_provider_message_id}
use reccado.Inbox.{Inbox, DraftStatus, MetaValue}
use reccado.Draft.{find_draft, update_drafts, with_status, has_id}
use reccado.Draft.Confirm.{Flight, set_meta, delete_meta, draft_gate}
use reccado.Draft.Settle.{
  SendOutcome, returned, threw, Ending, is_ambiguous, record_sent, record_doubt, add_message,
  record_realtime_event, sent_copy, clashes, settle_confirm,
}
use reccado.Draft.Flights.{
  System, settled, flight_at, without, is_of_draft, may_have_taken, waiting, arrived,
}
use reccado.Draft.Gate.{HasMeta}
use reccado.Draft.Kept.{HasDraft, drafted, IsClosed, closed, Keeps, find-updated}
use reccado.Draft.Stage.{
  Stage, idle, in_flight, doubtful, finished, Edge, refuse, doubt, deliver, AtStage, at_idle,
  at_flight, at_doubt, at_end, IsKeyed, set-Keeps, same-IsClosed, bump_thread-drafts, settle-Keeps,
}

module _ (draft_id : Text) where
  -- The end of a call for the draft itself.
  sent_closes :
      (id : Text) (now : Instant) (m : Inbox)
      → id ≡ draft_id
      → HasDraft draft_id m
      → IsClosed draft_id (update_drafts id (with_status DraftStatus.sent now) m)
  unfolding find_draft
  sent_closes id now m own (drafted d row) =
      let here : d.id === draft_id ≡ true = find_sound (has_id draft_id) m.outbound_drafts d row in
      let there : d.id === id ≡ true = rw own here in
      closed _ (find-updated draft_id id (with_status DraftStatus.sent now) (λ x. refl) m d row)
        (ground (arith, there))

  own_sent :
      (f : Flight) (id : Option Text) (e : Ending) (m : Inbox)
      → f.draft.id ≡ draft_id
      → HasDraft draft_id m
      → ((record_sent f id e m).0 ≡ m) ⊎ IsClosed draft_id (record_sent f id e m).0
  unfolding record_sent add_message record_realtime_event delete_meta
  own_sent f id e m own has_row = elim (Bool-cases (any (clashes (sent_copy f id e)) m.messages)) [
    | inl h ↦ inl (rw (h, record_sent) refl)
    | inr h ↦
        let m1 : Inbox = set_meta f.key (MetaValue.sent id) f.now m in
        let m2 : Inbox = update_drafts f.draft.id (with_status DraftStatus.sent f.now) m1 in
        let m3 : Inbox = delete_meta (draft_gate f.draft.id) m2 in
        let marked : HasDraft draft_id m1 =
          (set-Keeps draft_id f.key (MetaValue.sent id) f.now m).row has_row in
        inr (
          rw (h, record_sent)
            (same-IsClosed draft_id m2 _
              (bump_thread-drafts draft_id f.thread_id _ f.now f.now m3).0
              (sent_closes f.draft.id f.now m1 own marked)))
  ]

  count_without :
      (n : ℕ) (flights : List Flight) (f : Flight)
      → flight_at n flights ≡ some f
      → length (keep (is_of_draft draft_id) flights)
        ≡ (if is_of_draft draft_id f then 1 else 0)
          + length (keep (is_of_draft draft_id) (without n flights))
  unfolding flight_at without keep
  count_without n [] f e = ground arith
  count_without zero (g ∷ flights) f e = ground arith
  count_without (suc n) (g ∷ flights) f e = ground (arith, count_without n flights f e)

  pub count_none :
      (n : ℕ) (flights : List Flight) (f : Flight)
      → flight_at n flights ≡ some f
      → length (keep (is_of_draft draft_id) flights) ≡ 0
      → f.draft.id === draft_id ≡ false
  count_none n flights f e h = ground (arith, count_without n flights f e)

  pub count_more :
      (flights : List Flight) (f : Flight)
      → length (keep (is_of_draft draft_id) (flights ++ f ∷ []))
        ≡ length (keep (is_of_draft draft_id) flights) + (if is_of_draft draft_id f then 1 else 0)
  unfolding keep
  count_more [] f = ground arith
  count_more (g ∷ flights) f = ground (arith, count_more flights f)

pub All-without :
    (n : ℕ) (flights : List Flight) → All IsKeyed flights → All IsKeyed (without n flights)
unfolding without
All-without n [] h = h
All-without zero (f ∷ flights) h = h.1
All-without (suc n) (f ∷ flights) h = (h.0, All-without n flights h.1)

pub All-at :
    (n : ℕ) (flights : List Flight) (f : Flight)
    → flight_at n flights ≡ some f
    → All IsKeyed flights
    → IsKeyed f
unfolding flight_at
All-at n [] f e h = ground arith
All-at zero (g ∷ flights) f e h = let same : g ≡ f = ground arith in subst IsKeyed same h.0
All-at (suc n) (g ∷ flights) f e h = All-at n flights f e h.1

module _ (draft_id : Text) where
  -- An operation that only changes the mailbox.
  pub kept_stage :
      (x : Stage) (s : System) (n : Inbox)
      → Keeps draft_id s.inbox n
      → AtStage draft_id s x
      → AtStage draft_id (record s { inbox = n }) x
  unfolding waiting arrived
  kept_stage _ s n k (at_idle w a) = at_idle w a
  kept_stage _ s n k (at_flight w a g d) = at_flight w a (k.claim g) (k.row d)
  kept_stage _ s n k (at_doubt w a g) = at_doubt w a (k.claim g)
  kept_stage _ s n k (at_end w a c) = at_end w a (k.end c)

  pub data Next (s : System) (x : Stage) : Type 0 where
    next : (y : Stage) → Edge x y → AtStage draft_id s y → Next s x

  -- A call for another draft ends: the counts of this one stay, and so does the rest.
  pub same_stage :
      (x : Stage) (s t : System)
      → waiting draft_id t ≡ waiting draft_id s
      → arrived draft_id t ≡ arrived draft_id s
      → Keeps draft_id s.inbox t.inbox
      → AtStage draft_id s x
      → AtStage draft_id t x
  same_stage _ s t w a k (at_idle hw ha) = at_idle (w ∙ hw) (a ∙ ha)
  same_stage _ s t w a k (at_flight hw ha g d) = at_flight (w ∙ hw) (a ∙ ha) (k.claim g) (k.row d)
  same_stage _ s t w a k (at_doubt hw ha g) = at_doubt (w ∙ hw) (a ∙ ha) (k.claim g)
  same_stage _ s t w a k (at_end hw ha c) = at_end (w ∙ hw) (a ∙ ha) (k.end c)

  pub settle_other :
      (n : ℕ) (outcome : SendOutcome) (e : Ending) (s : System) (f : Flight) (x : Stage)
      → flight_at n s.in_flight ≡ some f
      → IsKeyed f
      → f.draft.id === draft_id ≡ false
      → AtStage draft_id s x
      → AtStage draft_id (settled n outcome e s (some f)) x
  unfolding waiting arrived
  settle_other n outcome e s f x at keyed other =
      let w = count_without draft_id n s.in_flight f at in
      let a = count_more draft_id s.accepted f in
      same_stage x s _ (ground (arith, w)) (ground (arith, a))
        (settle-Keeps draft_id f keyed other outcome e s.inbox)

  -- The waiting call of the draft itself ends.
  pub settle_own :
      (n : ℕ) (outcome : SendOutcome) (e : Ending) (s : System) (f : Flight)
      → flight_at n s.in_flight ≡ some f
      → f.draft.id ≡ draft_id
      → waiting draft_id s ≡ 1
      → arrived draft_id s ≡ 0
      → HasMeta s.inbox (draft_gate draft_id)
      → HasDraft draft_id s.inbox
      → Next (settled n outcome e s (some f)) in_flight
  unfolding waiting arrived settle_confirm may_have_taken record_doubt
  settle_own n (returned reply) e s f at own hw ha gate row =
      let here : f.draft.id === draft_id ≡ true = (===_iff _ _).1 own in
      let w = count_without draft_id n s.in_flight f at in
      let a = count_more draft_id s.accepted f in
      elim (own_sent draft_id f (extract_provider_message_id reply) e s.inbox own row) [
        | inl same ↦
            next doubtful doubt
              (at_doubt (ground (arith, w, here)) (ground (arith, a, here)) (rw same gate))
        | inr end ↦
            next finished deliver (at_end (ground (arith, w, here)) (ground (arith, a, here)) end)
      ]
  settle_own n (threw failure) e s f at own hw ha gate row =
      let here : f.draft.id === draft_id ≡ true = (===_iff _ _).1 own in
      let w = count_without draft_id n s.in_flight f at in
      let a = count_more draft_id s.accepted f in
      elim (Bool-cases (is_ambiguous failure)) [
        | inl h ↦
            rw (h, settled, settle_confirm, may_have_taken)
              (next doubtful doubt (
                at_doubt (ground (arith, w, here)) (ground (arith, a, here))
                  ((set-Keeps draft_id f.key _ e.failed_at s.inbox).claim gate)))
        | inr h ↦
            rw (h, settled, settle_confirm, may_have_taken)
              (next idle refuse (at_idle (ground (arith, w, here)) (ground (arith, a, here))))
      ]
