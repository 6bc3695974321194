-- ===== src/Draft/Single.antt =====
-- src/do/mailbox-do.ts and src/lib/outbound-send.ts: how often a draft is sent.
use reccado.Prelude.{
  ◌+◌, ◌≤◌, ◌≡◌, refl, sym, subst, false, List, [], ◌∷◌, arith, All, All-append, Option-cases, inl,
  inr,
}
use reccado.Text.{Text, ◌===◌}
use reccado.Header.{outbound_send_idempotency_key}
use reccado.Inbox.{Inbox}
use reccado.Draft.Confirm.{Begun, draft_gate}
use reccado.Draft.Thread.{resolve_reply_identity}
use reccado.Draft.Begin.{Beginning, stays, departs, begin_confirm-Beginning}
use reccado.Draft.Flights.{
  System, Operation, create, edit, request_send, cancel, confirm, settle, started, apply, apply_all,
  after_begin, flight_at, waiting, arrived, confirm_send, resolve_mailbox_address,
  resolve_mailbox_display_name,
}
use reccado.Draft.Gate.{draft_gate-send_key}
use reccado.Draft.Stage.{Stage, idle, AtStage, at_idle, at_flight, at_doubt, at_end, IsKeyed}
use reccado.Draft.Once.{next, All-without}
use reccado.Draft.Moves.{apply-Next}

begin-IsKeyed :
    (id key : Text) (m : Inbox) (answer : Inbox × Begun) (s : System)
    → ((draft_id : Text) → draft_gate draft_id === key ≡ false)
    → (at : _) → Beginning id key at m answer
    → All IsKeyed s.in_flight
    → All IsKeyed (after_begin s answer).in_flight
begin-IsKeyed id key m answer s fresh at (stays r eq) keyed = rw eq keyed
begin-IsKeyed id key m answer s fresh at (departs f n eq dep) keyed = rw eq (
    All-append IsKeyed s.in_flight (f ∷ []) keyed
      (subst (λ k. (d : Text) → draft_gate d === k ≡ false) (sym dep.own_key) fresh, tt))

apply-IsKeyed :
    (o : Operation) (s : System) → All IsKeyed s.in_flight → All IsKeyed (apply o s).in_flight
unfolding apply confirm_send
apply-IsKeyed (create body id now) s keyed = keyed
apply-IsKeyed (edit id body now) s keyed = keyed
apply-IsKeyed (request_send id now) s keyed = keyed
apply-IsKeyed (cancel id now) s keyed = keyed
apply-IsKeyed (confirm r id attempt_key) s keyed =
    let key : Text = outbound_send_idempotency_key id attempt_key in
    let (m1, address) = resolve_mailbox_address r.mailbox_address r.now s.inbox in
    let (m2, name) = resolve_mailbox_display_name r.display_name r.now m1 in
    begin-IsKeyed id key m2 _ s (λ d. draft_gate-send_key d id attempt_key) r.claimed_at
      (begin_confirm-Beginning id key r.claimed_at m2
        (resolve_reply_identity r.env m2 id address name) r.new_thread_id r.now)
      keyed
apply-IsKeyed (settle n outcome e) s keyed = elim (Option-cases (flight_at n s.in_flight)) [
  | inl none_at ↦ rw none_at keyed
  | inr (f, at) ↦ rw at (All-without n s.in_flight keyed)
]

stage-le_one :
    (draft_id : Text) (s : System) (x : Stage)
    → AtStage draft_id s x
    → waiting draft_id s + arrived draft_id s ≤ 1
stage-le_one draft_id s _ (at_idle w a) = ground arith
stage-le_one draft_id s _ (at_flight w a g d) = ground arith
stage-le_one draft_id s _ (at_doubt w a g) = ground arith
stage-le_one draft_id s _ (at_end w a c) = ground arith

staged-le_one :
    (draft_id : Text) (operations : List Operation) (s : System) (x : Stage)
    → All IsKeyed s.in_flight
    → AtStage draft_id s x
    → waiting draft_id (apply_all operations s) + arrived draft_id (apply_all operations s) ≤ 1
unfolding apply_all
staged-le_one draft_id [] s x keyed stage = stage-le_one draft_id s x stage
staged-le_one draft_id (o ∷ operations) s x keyed stage =
    elim (apply-Next draft_id o s x keyed stage) [
      | next y edge there ↦
          staged-le_one draft_id operations (apply o s) y (apply-IsKeyed o s keyed) there
    ]

-- However drafts are created, edited, armed, cancelled and confirmed in a mailbox, with any attempt
-- keys and also while sends wait for the provider, and whatever the provider answers: of one draft
-- there is never more than one send that waits, or that the provider took or may have taken.
pub sends_of_draft-le_one :
    (draft_id : Text) (operations : List Operation) (m : Inbox)
    → let s = apply_all operations (started m) in waiting draft_id s + arrived draft_id s ≤ 1
unfolding waiting arrived
sends_of_draft-le_one draft_id operations m =
    staged-le_one draft_id operations (started m) idle tt (at_idle refl refl)
