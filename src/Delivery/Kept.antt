-- ===== src/Delivery/Kept.antt =====
-- src/do/mailbox-suppressions.ts and the route of src/do/mailbox-do.ts: what an event does to the
-- status of each transactional request.
use reccado.Prelude.{
  ◌≡◌, refl, ◌∙◌, Bool, true, Option, none, some, arith, inl, inr, Bool-cases, Option-cases, find,
}
use reccado.Text.{Text, ◌===◌, to_lower}
use reccado.ApiKey.{Instant}
use reccado.Mailbox.{Mailbox, RequestRow, RequestStatus, DeliveryStatus}
use reccado.Event.{EmailSendingEvent, EventClassification}
use reccado.Dispatch.{set_marker}
use reccado.Suppression.{add_suppression}
use reccado.Request.Kept.{
  SameRequest, same, SameRequest-trans, Keeps, Keeps-refl, Keeps-trans, same_rows-Keeps,
  update_where-Keeps,
}
use reccado.Delivery.{
  differs, lacks_id, is_unknown, proven_status, has_provider_id, is_recorded, find_request,
  update_request, record_delivery_event, update_delivery_status, claim_id, settle_unknown,
  settle_marker, settle_proven, Proven, resolve_ambiguous_request, suppress_recipient,
  handle_delivery_event, process_event, process_correlated, EnvelopeCorrelation,
  handle_delivery_event_route,
}

-- What an event may do to a status: nothing, or settle an unknown one.
pub data Move : RequestStatus → RequestStatus → Type 0 where
  stays : {s : RequestStatus} → Move s s
  proves_sent : Move RequestStatus.unknown RequestStatus.sent
  proves_failed : Move RequestStatus.unknown RequestStatus.failed

Move-trans : {a b c : RequestStatus} → Move a b → Move b c → Move a c
Move-trans stays g = g
Move-trans proves_sent stays = proves_sent
Move-trans proves_failed stays = proves_failed

pub record Moves (r s : RequestRow) : Type 0 where
  pub identity : SameRequest r s
  pub move : Move r.status s.status

Moves-refl : (r : RequestRow) → Moves r r
Moves-refl r = record { identity = same r; move = stays }

Moves-trans : (r s t : RequestRow) → Moves r s → Moves s t → Moves r t
Moves-trans r s t a b = record {
  identity = SameRequest-trans r s t a.identity b.identity;
  move = Move-trans a.move b.move;
}

unknown_moves : (s : RequestStatus) (v : Proven) → is_unknown s ≡ true → Move s (proven_status v)
unknown_moves RequestStatus.unknown Proven.sent h = proves_sent
unknown_moves RequestStatus.unknown Proven.failed h = proves_failed
unknown_moves RequestStatus.pending v h = ground arith
unknown_moves RequestStatus.sent v h = ground arith
unknown_moves RequestStatus.duplicate v h = ground arith
unknown_moves RequestStatus.rejected v h = ground arith
unknown_moves RequestStatus.failed v h = ground arith

pub rows-suppress_recipient :
    (event : EmailSendingEvent) (c : EventClassification) (now : Instant) (m : Mailbox)
    → (suppress_recipient event c now m).transactional_requests ≡ m.transactional_requests
unfolding add_suppression
rows-suppress_recipient event c now m = ground arith

pub rows-record_delivery_event :
    (event : EmailSendingEvent) (t : Bool) (id : Option Text) (now : Instant) (m : Mailbox)
    → (record_delivery_event event t id now m).transactional_requests ≡ m.transactional_requests
unfolding record_delivery_event
rows-record_delivery_event event t id now m = ground arith

pub rows-settle_marker :
    (id : Text) (v : Proven) (provider : Text) (now : Instant) (m : Mailbox)
    → (settle_marker id v provider now m).transactional_requests ≡ m.transactional_requests
unfolding settle_marker set_marker
rows-settle_marker id v provider now m = ground arith

claim_id-Keeps :
    (row : RequestRow) (id provider : Text) (now : Instant) (m : Mailbox)
    → Keeps Moves m (claim_id row id provider now m)
unfolding claim_id update_request
claim_id-Keeps row id provider now m = elim (Bool-cases (lacks_id row.provider_message_id)) [
  | inl h ↦ rw h (
      update_where-Keeps Moves-refl _ _ refl
        (λ r. record {
          request_id = refl;
          key_id = refl;
          idempotency_key = refl;
          payload_hash = refl;
        })
        (λ r h. record {
          identity = record {
            request_id = refl;
            key_id = refl;
            idempotency_key = refl;
            payload_hash = refl;
          };
          move = stays;
        }))
  | inr h ↦ rw h (Keeps-refl Moves-refl m)
]

settle_unknown-Keeps :
    (id : Text) (v : Proven) (now : Instant) (m : Mailbox)
    → Keeps Moves m (settle_unknown id v now m)
unfolding settle_unknown
settle_unknown-Keeps id v now m =
    update_where-Keeps Moves-refl _ _ refl
      (λ r. record {
        request_id = refl;
        key_id = refl;
        idempotency_key = refl;
        payload_hash = refl;
      })
      (λ r h. record {
        identity = record {
          request_id = refl;
          key_id = refl;
          idempotency_key = refl;
          payload_hash = refl;
        };
        move = unknown_moves r.status v (ground arith);
      })

update_delivery_status-Keeps :
    (id : Text) (d : DeliveryStatus) (now : Instant) (m : Mailbox)
    → Keeps Moves m (update_delivery_status id d now m)
unfolding update_delivery_status update_request
update_delivery_status-Keeps id d now m =
    update_where-Keeps Moves-refl _ _ refl
      (λ r. record {
        request_id = refl;
        key_id = refl;
        idempotency_key = refl;
        payload_hash = refl;
      })
      (λ r h. record {
        identity = record {
          request_id = refl;
          key_id = refl;
          idempotency_key = refl;
          payload_hash = refl;
        };
        move = stays;
      })

settle_proven-Keeps :
    (id : Text) (o : Option Proven) (provider : Text) (now : Instant) (m : Mailbox)
    → Keeps Moves m (settle_proven id o provider now m).0
unfolding settle_proven
settle_proven-Keeps id none provider now m = Keeps-refl Moves-refl m
settle_proven-Keeps id (some v) provider now m =
    Keeps-trans Moves-trans (settle_unknown-Keeps id v now m) (
      same_rows-Keeps Moves-refl _ _
        (rows-settle_marker id v provider now (settle_unknown id v now m)))

resolve_ambiguous_request-Keeps :
    (id : Text) (event : EmailSendingEvent) (c : EventClassification) (now : Instant) (m : Mailbox)
    → Keeps Moves m (resolve_ambiguous_request id event c now m).0
unfolding resolve_ambiguous_request
resolve_ambiguous_request-Keeps id event c now m = elim (Option-cases (find_request m id)) [
  | inl e ↦ rw (e, resolve_ambiguous_request) (Keeps-refl Moves-refl m)
  | inr (row, e) ↦ elim (Bool-cases (is_unknown row.status)) [
    | inl u ↦
        rw (e, resolve_ambiguous_request, u)
          (Keeps-trans Moves-trans (claim_id-Keeps row id event.provider_message_id now m)
            (settle_proven-Keeps id _ _ now _))
    | inr k ↦ rw (e, resolve_ambiguous_request, k) (Keeps-refl Moves-refl m)
  ]
]

recorded-Keeps :
    (event : EmailSendingEvent) (c : EventClassification) (id : Option Text) (now : Instant)
    (m : Mailbox)
    → Keeps Moves m
        (suppress_recipient event c now (record_delivery_event event c.terminal id now m))
recorded-Keeps event c id now m =
    let n = record_delivery_event event c.terminal id now m in
    same_rows-Keeps Moves-refl m (suppress_recipient event c now n)
      (rows-suppress_recipient event c now n ∙ rows-record_delivery_event event c.terminal id now m)

handle_delivery_event-Keeps :
    (event : EmailSendingEvent) (c : EventClassification) (id : Option Text) (now : Instant)
    (m : Mailbox)
    → Keeps Moves m (handle_delivery_event event c id now m).0
unfolding handle_delivery_event
handle_delivery_event-Keeps event c none now m = recorded-Keeps event c none now m
handle_delivery_event-Keeps event c (some id) now m =
    let recorded =
      suppress_recipient event c now (record_delivery_event event c.terminal (some id) now m) in
    let resolved = resolve_ambiguous_request id event c now recorded in
    Keeps-trans Moves-trans (recorded-Keeps event c (some id) now m) (
      Keeps-trans Moves-trans (resolve_ambiguous_request-Keeps id event c now recorded)
        (update_delivery_status-Keeps id c.delivery_status now resolved.0))

process_correlated-Keeps :
    (event : EmailSendingEvent) (hint : Option Text) (now : Instant) (e : EnvelopeCorrelation)
    (m : Mailbox)
    → Keeps Moves m (process_correlated event hint now e m).0
unfolding process_correlated process_event
process_correlated-Keeps event hint now EnvelopeCorrelation.no_candidate m = Keeps-refl Moves-refl m
process_correlated-Keeps event hint now EnvelopeCorrelation.ambiguous m = Keeps-refl Moves-refl m
process_correlated-Keeps event hint now (EnvelopeCorrelation.matched id) m =
    elim (Bool-cases (differs hint id)) [
      | inl h ↦ rw h (Keeps-refl Moves-refl m)
      | inr h ↦ rw h (handle_delivery_event-Keeps event _ (some id) now m)
    ]

pub handle_delivery_event_route-Keeps :
    (event : EmailSendingEvent) (hint : Option Text) (now : Instant) (m : Mailbox)
    → Keeps Moves m (handle_delivery_event_route event hint now m).0
unfolding handle_delivery_event_route process_event
handle_delivery_event_route-Keeps event hint now m =
    elim (Bool-cases (is_recorded m event.event_id)) [
      | inl h ↦ rw (h, handle_delivery_event_route) (Keeps-refl Moves-refl m)
      | inr h ↦
          elim (Option-cases
            (find (has_provider_id event.provider_message_id) m.transactional_requests)) [
              | inl e ↦
                  rw (h, handle_delivery_event_route, e)
                    (process_correlated-Keeps event hint now _ m)
              | inr (row, e) ↦ elim (Bool-cases (to_lower row.sender === to_lower event.from)) [
                | inr s ↦ rw (h, handle_delivery_event_route, e, s) (Keeps-refl Moves-refl m)
                | inl s ↦ elim (Bool-cases (to_lower row.to_addr === to_lower event.to)) [
                  | inr t ↦ rw (h, handle_delivery_event_route, e, s, t) (Keeps-refl Moves-refl m)
                  | inl t ↦
                      rw (h, handle_delivery_event_route, e, s, t)
                        (handle_delivery_event-Keeps event _ (some row.request_id) now m)
                ]
              ]
            ]
    ]
