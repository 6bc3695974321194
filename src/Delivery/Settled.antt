-- ===== src/Delivery/Settled.antt =====
-- src/do/mailbox-suppressions.ts: the resolution of a request that was left unknown.
use mathlib.Core.Option
use reccado.Prelude.{
  Option, [], ◌∷◌, ◌⊎◌, ◌≡◌, refl, ap, ◌∙◌, Bool, true, false, none, some, arith, find, find_sound,
  update_where, find-update_where, if◌then◌else◌,
}
use reccado.Text.{Text, ===_iff}
use reccado.ApiKey.{Instant}
use reccado.Mailbox.{Mailbox, RequestRow, envelope_correlation}
use reccado.Event.{EmailSendingEvent, EventClassification, classify_email_event}
use reccado.Delivery.{
  has_id, find_request, update_request, claim_id, lacks_id, is_unknown, Proven, proven_status,
  proven_error, settle_unknown, settle_marker, settle_proven, status_proven_by,
  resolve_ambiguous_request, update_delivery_status, record_delivery_event, suppress_recipient,
  handle_delivery_event, EnvelopeCorrelation, correlate_event_to_unknown_request, differs,
  process_correlated, process_event, is_recorded, has_provider_id, handle_delivery_event_route,
}
use reccado.Delivery.Kept.{rows-suppress_recipient, rows-record_delivery_event, rows-settle_marker}

hint_agrees :
    (hint : Option Text) (id : Text) → (hint ≡ none) ⊎ (hint ≡ some id) → differs hint id ≡ false
hint_agrees none id h = refl
hint_agrees (some []) id h = refl
hint_agrees (some (c ∷ s)) id h = ground (arith, (===_iff (c ∷ s) id).1)

module _ (id : Text) where
  found_has_id : (m : Mailbox) (r : RequestRow) → find_request m id ≡ some r → has_id id r ≡ true
  unfolding find_request
  found_has_id m r e = find_sound (has_id id) m.transactional_requests r e

  -- An UPDATE of the row by its id, or by its id and a test that it passes.
  updated :
      (m n : Mailbox) (p : RequestRow → Bool) (f : RequestRow → RequestRow) (r : RequestRow)
      → n.transactional_requests ≡ update_where p f m.transactional_requests
      → ((s : RequestRow) → has_id id (f s) ≡ has_id id s)
      → find_request m id ≡ some r
      → p r ≡ true
      → find_request n id ≡ some (f r)
  unfolding find_request
  updated m n p f r rows kept e h =
      ap (find (has_id id)) rows
      ∙ find-update_where (has_id id) p f m.transactional_requests kept
      ∙ ap (Option.map (λ s. if p s then f s else s)) e
      ∙ rw h refl

  same_rows :
      (m n : Mailbox)
      → n.transactional_requests ≡ m.transactional_requests
      → find_request n id ≡ find_request m id
  unfolding find_request
  same_rows m n e = ap (find (has_id id)) e

  module _ (provider : Text) (v : Proven) (now : Instant) where
    -- The row once the provider's id is claimed and the status settled.
    abbrev claimed : RequestRow → RequestRow
    claimed r = record r { provider_message_id = some provider; updated_at = now }

    abbrev resolved : RequestRow → RequestRow
    resolved r = record (claimed r) {
      status = proven_status v;
      resolved_via = some envelope_correlation;
      error_code = proven_error v;
      variables = none;
      updated_at = now;
    }

    find-claim_id :
        (m : Mailbox) (r : RequestRow)
        → find_request m id ≡ some r
        → r.provider_message_id ≡ none
        → find_request (claim_id r id provider now m) id ≡ some (claimed r)
    unfolding claim_id update_request
    find-claim_id m r e idless =
        updated m (claim_id r id provider now m) (has_id id) claimed r
          (rw (ap lacks_id idless) refl) (λ s. refl) e (found_has_id m r e)

    find-settle_unknown :
        (m : Mailbox) (r : RequestRow)
        → find_request m id ≡ some (claimed r)
        → is_unknown r.status ≡ true
        → find_request (settle_unknown id v now m) id ≡ some (resolved r)
    unfolding settle_unknown
    find-settle_unknown m r e u =
        updated m (settle_unknown id v now m) _ _ (claimed r) refl (λ s. refl) e
          (ground (arith, found_has_id m (claimed r) e, u))

  module _ (event : EmailSendingEvent) (v : Proven) (now : Instant) where
    resolve_proven :
        (c : EventClassification) (m : Mailbox) (r : RequestRow)
        → find_request m id ≡ some r
        → is_unknown r.status ≡ true
        → status_proven_by c ≡ some v
        → resolve_ambiguous_request id event c now m ≡ (
          settle_marker id v event.provider_message_id now
              (settle_unknown id v now (claim_id r id event.provider_message_id now m)),
          some v,
        )
    unfolding resolve_ambiguous_request
    resolve_proven c m r e u s =
        let settled : settle_proven id (status_proven_by c) event.provider_message_id now
              (claim_id r id event.provider_message_id now m)
            ≡ (
              settle_marker id v event.provider_message_id now
                  (settle_unknown id v now (claim_id r id event.provider_message_id now m)),
              some v,
            ) =
          unfold settle_proven in rw s refl in
        ground (arith, e, u, settled)

    find-resolve :
        (c : EventClassification) (m : Mailbox) (r : RequestRow)
        → find_request m id ≡ some r
        → is_unknown r.status ≡ true
        → r.provider_message_id ≡ none
        → status_proven_by c ≡ some v
        → find_request (resolve_ambiguous_request id event c now m).0 id
          ≡ some (resolved event.provider_message_id v now r)
    find-resolve c m r e u idless s =
        let provider = event.provider_message_id in
        let one = claim_id r id provider now m in
        let two = settle_unknown id v now one in
        ap (λ x. find_request x.0 id) (resolve_proven c m r e u s)
        ∙ same_rows two (settle_marker id v provider now two)
            (rows-settle_marker id v provider now two)
        ∙ find-settle_unknown provider v now one r (find-claim_id provider v now m r e idless) u

    -- The row at the end, with the delivery status of the event.
    abbrev pub delivered_row : EventClassification → RequestRow → RequestRow
    delivered_row c r = record (resolved event.provider_message_id v now r) {
      delivery_status = some c.delivery_status;
      delivery_event_at = some now;
      updated_at = now;
    }

    find-handle :
        (c : EventClassification) (m : Mailbox) (r : RequestRow)
        → find_request m id ≡ some r
        → is_unknown r.status ≡ true
        → r.provider_message_id ≡ none
        → status_proven_by c ≡ some v
        → find_request (handle_delivery_event event c (some id) now m).0 id
          ≡ some (delivered_row c r)
    unfolding handle_delivery_event update_delivery_status update_request
    find-handle c m r e u idless s =
        let logged = record_delivery_event event c.terminal (some id) now m in
        let recorded = suppress_recipient event c now logged in
        let after = (resolve_ambiguous_request id event c now recorded).0 in
        let kept =
          same_rows m recorded (
            rows-suppress_recipient event c now logged
            ∙ rows-record_delivery_event event c.terminal (some id) now m)
          ∙ e in
        let found = find-resolve c recorded r kept u idless s in
        updated after (handle_delivery_event event c (some id) now m).0 (has_id id) _
          (resolved event.provider_message_id v now r) refl (λ x. refl) found
          (found_has_id after (resolved event.provider_message_id v now r) found)

    -- A new event that no provider id in the mailbox answers to, that is matched to an unknown request
    -- without a provider id, and that comes with no hint or with that request's id as its hint, settles
    -- that request: if the event proves that the provider took
    -- the message the request becomes sent, if it proves the opposite it becomes failed. The row gets
    -- the event's provider id, the note that it was correlated, the event's delivery status, and no
    -- longer holds variables.
    pub handle_delivery_event_route-settles :
        (m : Mailbox) (r : RequestRow) (hint : Option Text)
        → (hint ≡ none) ⊎ (hint ≡ some id)
        → is_recorded m event.event_id ≡ false
        → find (has_provider_id event.provider_message_id) m.transactional_requests ≡ none
        → correlate_event_to_unknown_request m event ≡ EnvelopeCorrelation.matched id
        → find_request m id ≡ some r
        → is_unknown r.status ≡ true
        → r.provider_message_id ≡ none
        → status_proven_by (classify_email_event event) ≡ some v
        → let after = (handle_delivery_event_route event hint now m).0 in
          (s : RequestRow) × (find_request after id ≡ some s)
          × (s.status ≡ proven_status v)
          × (s.provider_message_id ≡ some event.provider_message_id)
          × (s.resolved_via ≡ some envelope_correlation)
          × (s.delivery_status ≡ some (classify_email_event event).delivery_status)
          × (s.variables ≡ none)
    unfolding handle_delivery_event_route process_correlated process_event
    handle_delivery_event_route-settles m r hint agrees new unseen matched e u idless s =
        let c = classify_email_event event in
        let found = find-handle c m r e u idless s in
        (
          delivered_row c r,
          rw (new, handle_delivery_event_route, unseen, matched, hint_agrees hint id agrees) found,
          refl,
          refl,
          refl,
          refl,
          refl,
        )
