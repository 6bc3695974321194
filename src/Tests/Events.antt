-- ===== src/Tests/Events.antt =====
-- Delivery events, suppressions and template syncs at concrete inputs.
use reccado.Prelude.{find}
use reccado.Mailbox.{envelope_correlation}
use reccado.Event.{classify_email_event}
use reccado.Delivery.{is_recorded, find_request, has_provider_id, status_proven_by}
use reccado.Delivery.Settled.{handle_delivery_event_route-settles}
use reccado.Prelude.{
  inr, ℕ, ◌+◌, ◌*◌, ◌≤◌, ◌≡◌, ◌≢◌, ◌↔◌, ◌⊎◌, refl, arith, Bool, true, false, Option, none, some,
  List, [], ◌∷◌, leb, length, keep, if◌then◌else◌,
}
use reccado.Text.{Text, ascii}
use reccado.Template.{Template}
use reccado.ApiKey.{instant}
use reccado.Mailbox.{
  Mailbox, RequestRow, RequestStatus, EventType, SuppressionRow, SuppressionReason, hard_bounce,
  complaint, empty,
}
use reccado.Event.{EmailSendingEvent, BounceType}
use reccado.Request.{get_transactional_request}
use reccado.Suppression.{
  find_suppression, is_recipient_suppressed, add_suppression, remove_suppression,
  suppression_expiry_for, day_ms,
}
use reccado.Suppression.Expiry.{add_suppression-lapsed}
use reccado.Delivery.{
  EnvelopeCorrelation, DeliveryReply, Processed, Correlation, Proven, is_candidate,
  correlate_event_to_unknown_request, handle_delivery_event_route,
}
use reccado.Delivery.Kept.{Move}
use reccado.Delivery.Replies.{handle_delivery_event_route-moves}
use reccado.TemplateStore.{synced, SyncOutcome, sync_templates, max_template_sync_batch}
use reccado.TemplateStore.Sync.{IsSound, sync_templates-atomic}
use reccado.Tests.{mailbox, mailbox_id, key_id}

-- A request whose send ended in doubt.
abbrev unknown_row : RequestRow
unknown_row = record {
  request_id = ascii "r1";
  key_id = key_id;
  client_idempotency_key = ascii "order-1";
  payload_hash = ascii "v2:00";
  status = RequestStatus.unknown;
  to_addr = ascii "Eve@b.io";
  template_id = ascii "hi";
  variables = none;
  sender = ascii "shop@a.io";
  provider_message_id = none;
  error_code = none;
  delivery_status = none;
  delivery_event_at = none;
  resolved_via = none;
  created_at = 1_000_000_000;
  updated_at = 1_000_000_000;
}

abbrev in_doubt : Mailbox
in_doubt = record mailbox { transactional_requests = unknown_row ∷ [] }

abbrev bounce : EmailSendingEvent
bounce = record {
  event_id = ascii "ev1";
  event_type = EventType.bounced;
  provider_message_id = ascii "pm1";
  to = ascii "eve@b.io";
  from = ascii "Shop@a.io";
  timestamp = instant 1_000_060_000;
  bounce_type = some BounceType.hard;
}

abbrev resolved : Processed
resolved = record {
  delivery_status = reccado.Mailbox.DeliveryStatus.bounced;
  suppressed = true;
  request_id = ascii "r1";
  correlation = Correlation.envelope;
  resolved_status = some Proven.sent;
}

in_doubt_has_row : get_transactional_request in_doubt key_id (ascii "order-1") ≡ some unknown_row
unfolding get_transactional_request reccado.Text.◌===◌
in_doubt_has_row = refl

handle_delivery_event_route-moves_example :
    (s : RequestRow) × (get_transactional_request
        (handle_delivery_event_route bounce none 1_000_070_000 in_doubt).0
        key_id
        (ascii "order-1")
      ≡ some s)
    × (s.request_id ≡ ascii "r1")
    × (s.payload_hash ≡ ascii "v2:00")
    × Move RequestStatus.unknown s.status
handle_delivery_event_route-moves_example =
    handle_delivery_event_route-moves bounce none 1_000_070_000 in_doubt key_id (ascii "order-1")
      unknown_row in_doubt_has_row

bounce_resolves :
    (handle_delivery_event_route bounce none 1_000_070_000 in_doubt).1
    ≡ DeliveryReply.processed resolved
unfolding handle_delivery_event_route reccado.Delivery.is_recorded
    reccado.Delivery.process_correlated correlate_event_to_unknown_request keep
    reccado.Delivery.in_window reccado.Text.to_lower reccado.Text.trim
    reccado.Delivery.process_event reccado.Event.classify_email_event
    reccado.Delivery.handle_delivery_event reccado.Delivery.resolve_ambiguous_request
    reccado.Delivery.find_request add_suppression find_suppression
    reccado.Delivery.record_delivery_event reccado.Delivery.settle_proven
    reccado.Delivery.status_proven_by
bounce_resolves = refl

bounce_is_new : is_recorded in_doubt bounce.event_id ≡ false
unfolding is_recorded
bounce_is_new = refl

bounce_is_unseen : find (has_provider_id bounce.provider_message_id) (unknown_row ∷ []) ≡ none
unfolding find
bounce_is_unseen = refl

bounce_is_matched :
    correlate_event_to_unknown_request in_doubt bounce ≡ EnvelopeCorrelation.matched (ascii "r1")
unfolding handle_delivery_event_route reccado.Delivery.is_recorded
    reccado.Delivery.process_correlated correlate_event_to_unknown_request keep
    reccado.Delivery.in_window reccado.Text.to_lower reccado.Text.trim
    reccado.Delivery.process_event reccado.Event.classify_email_event
    reccado.Delivery.handle_delivery_event reccado.Delivery.resolve_ambiguous_request
    reccado.Delivery.find_request add_suppression find_suppression
    reccado.Delivery.record_delivery_event reccado.Delivery.settle_proven
    reccado.Delivery.status_proven_by
bounce_is_matched = refl

in_doubt_has_request : find_request in_doubt (ascii "r1") ≡ some unknown_row
unfolding find_request
in_doubt_has_request = refl

bounce_proves_sent : status_proven_by (classify_email_event bounce) ≡ some Proven.sent
unfolding status_proven_by classify_email_event
bounce_proves_sent = refl

handle_delivery_event_route-settles_example :
    let after = (handle_delivery_event_route bounce (some (ascii "r1")) 1_000_070_000 in_doubt).0 in
    (s : RequestRow) × (find_request after (ascii "r1") ≡ some s)
    × (s.status ≡ RequestStatus.sent)
    × (s.provider_message_id ≡ some (ascii "pm1"))
    × (s.resolved_via ≡ some envelope_correlation)
    × (s.delivery_status ≡ some (classify_email_event bounce).delivery_status)
    × (s.variables ≡ none)
handle_delivery_event_route-settles_example =
    handle_delivery_event_route-settles (ascii "r1") bounce Proven.sent 1_000_070_000 in_doubt
      unknown_row (some (ascii "r1")) (inr refl) bounce_is_new bounce_is_unseen bounce_is_matched
      in_doubt_has_request refl refl bounce_proves_sent

abbrev bounced_row : SuppressionRow
bounced_row = record {
  email = ascii "eve@b.io";
  reason = hard_bounce;
  source_event_id = none;
  created_at = 5;
  updated_at = 5;
  expires_at = some 10;
}

abbrev bounced : Mailbox
bounced = record mailbox { recipient_suppressions = bounced_row ∷ [] }

bounced_has_row :
    find_suppression bounced (reccado.Suppression.normal_email (ascii "eve@b.io"))
    ≡ some bounced_row
unfolding reccado.Text.starts_with reccado.Text.trim reccado.Text.split reccado.Text.◌===◌
    reccado.Prelude.all reccado.Prelude.any reccado.Prelude.keep reccado.Prelude.find
    reccado.Suppression.find_suppression reccado.Suppression.is_lapsed
    reccado.Suppression.is_recipient_suppressed reccado.Text.contains reccado.Text.ends_with
    reccado.Text.has_unit reccado.Text.is_space reccado.Text.lower_unit reccado.Text.onto_first
    reccado.Text.to_lower reccado.Text.trim_start
bounced_has_row = refl

add_suppression-lapsed_example :
    is_recipient_suppressed
      (add_suppression
        (ascii "eve@b.io")
        complaint
        none
        (suppression_expiry_for complaint 20)
        20
        bounced)
      (ascii "eve@b.io")
      20
    ≡ none
add_suppression-lapsed_example =
    add_suppression-lapsed (ascii "eve@b.io") complaint none (suppression_expiry_for complaint 20)
      20 bounced bounced_row bounced_has_row (unfold reccado.Suppression.is_lapsed in refl)

abbrev batch : List Template
batch = record { id = ascii "bye"; subject = ascii "Bye"; body_text = none; body_html = none } ∷ []

sync_templates-atomic_example :
    ((outcomes : List (Text × SyncOutcome)) × ((sync_templates mailbox mailbox_id batch true 9).1
        ≡ synced outcomes)
      × (length batch ≤ max_template_sync_batch)
      × IsSound [] batch)
    ⊎ ((sync_templates mailbox mailbox_id batch true 9).0 ≡ mailbox)
sync_templates-atomic_example = sync_templates-atomic mailbox mailbox_id batch true 9
