-- ===== src/Delivery/Replies.antt =====
-- The replies of the delivery-event route of src/do/mailbox-do.ts.
use reccado.Dispatch.{set_marker}
use reccado.Suppression.{add_suppression}
use reccado.Delivery.{
  suppress_recipient, resolve_ambiguous_request, claim_id, update_request, settle_proven,
  settle_unknown, settle_marker, is_recorded, record_delivery_event, handle_delivery_event,
  update_delivery_status, process_event, process_correlated, differs, Processed, DeliveryReply,
  has_provider_id,
}
use reccado.Prelude.{
  ◌≡◌, refl, ◌∙◌, ◌↔◌, Bool, true, false, Option, none, some, List, [], ◌∷◌, ◌++◌, arith, inl, inr,
  Bool-cases, Option-cases, find, keep, take,
}
use reccado.Text.{Text, ◌===◌, ===_refl, to_lower}
use reccado.ApiKey.{Instant, instant}
use reccado.Mailbox.{Mailbox, RequestRow, DeliveryEventRow}
use reccado.Event.{EmailSendingEvent, EventClassification}
use reccado.Request.{get_transactional_request}
use reccado.Delivery.{
  is_candidate, EnvelopeCorrelation, adjudicate, correlate_event_to_unknown_request,
  handle_delivery_event_route,
}
use reccado.Delivery.Kept.{Move, handle_delivery_event_route-Keeps}

-- An event leaves each request its id and its payload hash, and its status too, unless that is
-- unknown: then it may become sent or failed.
pub handle_delivery_event_route-moves :
    (event : EmailSendingEvent) (hint : Option Text) (now : Instant) (m : Mailbox) (k i : Text)
    (r : RequestRow)
    → get_transactional_request m k i ≡ some r
    → (s : RequestRow) × (get_transactional_request
          (handle_delivery_event_route event hint now m).0
          k
          i
        ≡ some s)
      × (s.request_id ≡ r.request_id)
      × (s.payload_hash ≡ r.payload_hash)
      × Move r.status s.status
handle_delivery_event_route-moves event hint now m k i r e =
    let (s, f, moves) = (handle_delivery_event_route-Keeps event hint now m).kept k i r e in
    (s, f, moves.identity.request_id, moves.identity.payload_hash, moves.move)

adjudicate_sole :
    (rs : List RequestRow) (id : Text)
    → (adjudicate (take 2 rs) ≡ EnvelopeCorrelation.matched id)
      ↔ ((r : RequestRow) × (rs ≡ r ∷ []) × (r.request_id ≡ id))
adjudicate_sole [] id = ground arith
adjudicate_sole (r ∷ []) id = (λ h. (r, refl, ground arith), λ (s, e, f). ground arith)
adjudicate_sole (r ∷ (s ∷ rs)) id = (λ h. ground arith, λ (t, e, f). ground arith)

-- An event is matched to a request exactly when its time can be read and the request is the only one
-- that is unknown, has no provider id, lies in the window and has the event's sender and recipient.
pub correlate_event_to_unknown_request-sole :
    (m : Mailbox) (event : EmailSendingEvent) (at : Instant) (id : Text)
    → event.timestamp ≡ instant at
    → (correlate_event_to_unknown_request m event ≡ EnvelopeCorrelation.matched id) ↔ (
        (r : RequestRow) × (keep (is_candidate event at) m.transactional_requests ≡ r ∷ [])
        × (r.request_id ≡ id))
unfolding correlate_event_to_unknown_request
correlate_event_to_unknown_request-sole m event at id e =
    rw (e, correlate_event_to_unknown_request)
      (adjudicate_sole (keep (is_candidate event at) m.transactional_requests) id)

-- The log of events grows by the event that is handled, and by nothing else.
events-suppress_recipient :
    (event : EmailSendingEvent) (c : EventClassification) (now : Instant) (m : Mailbox)
    → (suppress_recipient event c now m).transactional_delivery_events
      ≡ m.transactional_delivery_events
unfolding add_suppression
events-suppress_recipient event c now m = ground arith

events-resolve :
    (id : Text) (event : EmailSendingEvent) (c : EventClassification) (now : Instant) (m : Mailbox)
    → (resolve_ambiguous_request id event c now m).0.transactional_delivery_events
      ≡ m.transactional_delivery_events
unfolding resolve_ambiguous_request claim_id update_request settle_proven settle_unknown
    settle_marker set_marker
events-resolve id event c now m = ground arith

recorded_by :
    (m n : Mailbox) (id : Text)
    → n.transactional_delivery_events ≡ m.transactional_delivery_events
    → is_recorded m id ≡ true
    → is_recorded n id ≡ true
unfolding is_recorded
recorded_by m n id same h = rw same h

recorded_append :
    (xs : List DeliveryEventRow) (x : DeliveryEventRow) (id : Text)
    → x.event_id ≡ id
    → elim (find (λ e. e.event_id === id) (xs ++ x ∷ [])) [ none ↦ false | some e ↦ true ] ≡ true
unfolding find
recorded_append [] x id h = rw (h, ===_refl id) refl
recorded_append (y ∷ ys) x id h = ground (arith, recorded_append ys x id h)

is_recorded-record :
    (event : EmailSendingEvent) (t : Bool) (id : Option Text) (now : Instant) (m : Mailbox)
    → is_recorded (record_delivery_event event t id now m) event.event_id ≡ true
unfolding record_delivery_event is_recorded
is_recorded-record event t id now m = elim (Bool-cases (is_recorded m event.event_id)) [
  | inl h ↦ rw h h
  | inr h ↦ rw h (recorded_append m.transactional_delivery_events _ event.event_id refl)
]

is_recorded-handle :
    (event : EmailSendingEvent) (c : EventClassification) (id : Text) (now : Instant) (m : Mailbox)
    → is_recorded (handle_delivery_event event c (some id) now m).0 event.event_id ≡ true
unfolding handle_delivery_event update_delivery_status update_request
is_recorded-handle event c id now m =
    let logged = record_delivery_event event c.terminal (some id) now m in
    let recorded = suppress_recipient event c now logged in
    recorded_by logged (handle_delivery_event event c (some id) now m).0 event.event_id
      (events-resolve id event c now recorded ∙ events-suppress_recipient event c now logged)
      (is_recorded-record event c.terminal (some id) now m)

processed_correlated :
    (event : EmailSendingEvent) (hint : Option Text) (now : Instant) (e : EnvelopeCorrelation)
    (m : Mailbox) (x : Processed)
    → (process_correlated event hint now e m).1 ≡ DeliveryReply.processed x
    → is_recorded (process_correlated event hint now e m).0 event.event_id ≡ true
unfolding process_correlated process_event
processed_correlated event hint now EnvelopeCorrelation.no_candidate m x h = ground arith
processed_correlated event hint now EnvelopeCorrelation.ambiguous m x h = ground arith
processed_correlated event hint now (EnvelopeCorrelation.matched id) m x h =
    elim (Bool-cases (differs hint id)) [
      | inl d ↦ ground arith
      | inr d ↦ rw d (is_recorded-handle event _ id now m)
    ]

no_mismatch :
    {x : Processed}
    → (DeliveryReply.sender_mismatch ≡ DeliveryReply.processed x → ⊥)
      × (DeliveryReply.recipient_mismatch ≡ DeliveryReply.processed x → ⊥)
no_mismatch = (λ h. ground arith, λ h. ground arith)

processed_recorded :
    (event : EmailSendingEvent) (hint : Option Text) (now : Instant) (m : Mailbox) (x : Processed)
    → (handle_delivery_event_route event hint now m).1 ≡ DeliveryReply.processed x
    → is_recorded (handle_delivery_event_route event hint now m).0 event.event_id ≡ true
unfolding handle_delivery_event_route process_event
processed_recorded event hint now m x reply = elim (Bool-cases (is_recorded m event.event_id)) [
  | inl h ↦ rw (h, handle_delivery_event_route) h
  | inr h ↦
      elim (Option-cases
        (find (has_provider_id event.provider_message_id) m.transactional_requests)) [
          | inl e ↦
              rw (h, handle_delivery_event_route, e)
                (processed_correlated event hint now _ m x
                  (rw (h, handle_delivery_event_route, e) at reply))
          | inr (row, e) ↦ elim (Bool-cases (to_lower row.sender === to_lower event.from)) [
            | inr s ↦ absurd (no_mismatch.0 (rw (h, handle_delivery_event_route, e, s) at reply))
            | inl s ↦ elim (Bool-cases (to_lower row.to_addr === to_lower event.to)) [
              | inr t ↦
                  absurd (no_mismatch.1 (rw (h, handle_delivery_event_route, e, s, t) at reply))
              | inl t ↦
                  rw (h, handle_delivery_event_route, e, s, t)
                    (is_recorded-handle event _ row.request_id now m)
            ]
          ]
        ]
]

known :
    (event : EmailSendingEvent) (hint : Option Text) (now : Instant) (m : Mailbox)
    → is_recorded m event.event_id ≡ true
    → handle_delivery_event_route event hint now m ≡ (m, DeliveryReply.idempotent)
unfolding handle_delivery_event_route
known event hint now m h = rw (h, handle_delivery_event_route) refl

-- An event that was processed changes nothing when it is delivered again, at whatever time and with
-- whatever hint: the reply says that it is known.
pub handle_delivery_event_route-again :
    (event : EmailSendingEvent) (hint later_hint : Option Text) (now later : Instant) (m : Mailbox)
    (x : Processed)
    → (handle_delivery_event_route event hint now m).1 ≡ DeliveryReply.processed x
    → let after = (handle_delivery_event_route event hint now m).0 in
      handle_delivery_event_route event later_hint later after ≡ (after, DeliveryReply.idempotent)
handle_delivery_event_route-again event hint later_hint now later m x reply =
    known event later_hint later _ (processed_recorded event hint now m x reply)
