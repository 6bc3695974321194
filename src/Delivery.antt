-- ===== src/Delivery.antt =====
-- src/do/mailbox-suppressions.ts and the delivery-event route of src/do/mailbox-do.ts: what a lifecycle event
-- of the provider does to the mailbox. The clock stands still while one event is handled.
mod Resolving
unfoldable pub use Resolving.*
pub mod Replies
pub mod Settled
pub mod Kept
use reccado.Prelude.{
  ℕ, ◌+◌, ◌-◌, ◌*◌, Bool, true, false, ◌&&◌, ◌||◌, not, Option, none, some, List, [], ◌∷◌, ◌++◌,
  leb, if◌then◌else◌, find, keep, update_where, take,
}
use reccado.Text.{Text, ◌===◌, trim, to_lower}
use reccado.ApiKey.{Instant, DateText, instant, unparsable}
use reccado.Mailbox.{
  Mailbox, RequestRow, RequestStatus, ErrorCode, permanent_failure, DeliveryStatus,
  DeliveryEventRow, Resolution, envelope_correlation, MarkerValue, SuppressionReason,
}
use reccado.Event.{EmailSendingEvent, EventClassification, classify_email_event}
use reccado.Dispatch.{
  transactional_send_marker_key, read_send_marker, SendMarkerStatus, find_marker, set_marker,
}
use reccado.Suppression.{normal_email, add_suppression, suppression_expiry_for, day_ms}

abbrev pub suppress_recipient :
    EmailSendingEvent → EventClassification → Instant → Mailbox → Mailbox
suppress_recipient event c now m = elim c.suppress_reason [
  | none ↦ m
  | some reason ↦
      if c.suppress
      then add_suppression event.to reason (some event.event_id) (suppression_expiry_for reason now)
          now m
      else m
]

-- The function `handleDeliveryEvent`.
unfoldable pub handle_delivery_event :
    EmailSendingEvent
    → EventClassification
    → Option Text
    → Instant
    → Mailbox
    → Mailbox × Option Proven
handle_delivery_event event c request_id now m =
    let recorded =
      suppress_recipient event c now (record_delivery_event event c.terminal request_id now m) in
    elim request_id [
      | none ↦ (recorded, none)
      | some id ↦
          let (resolved, proven) = resolve_ambiguous_request id event c now recorded in
          (update_delivery_status id c.delivery_status now resolved, proven)
    ]

pub data Correlation : Type 0 where
  provider_id envelope : Correlation

pub record Processed : Type 0 where
  pub delivery_status : DeliveryStatus
  pub suppressed : Bool
  pub request_id : Text
  pub correlation : Correlation
  pub resolved_status : Option Proven

pub data DeliveryReply : Type 0 where
  processed : Processed → DeliveryReply
  idempotent : DeliveryReply
  correlation_ambiguous request_not_found correlation_hint_mismatch : DeliveryReply
  sender_mismatch recipient_mismatch : DeliveryReply

-- The inner function `processEvent`.
unfoldable pub process_event :
    EmailSendingEvent → Text → Correlation → Instant → Mailbox → Mailbox × DeliveryReply
process_event event request_id correlation now m =
    let c = classify_email_event event in
    let (after, proven) = handle_delivery_event event c (some request_id) now m in
    (
      after,
      processed (record {
        delivery_status = c.delivery_status;
        suppressed = c.suppress;
        request_id = request_id;
        correlation = correlation;
        resolved_status = proven;
      }),
    )

abbrev pub differs : Option Text → Text → Bool
differs none request_id = false
differs (some []) request_id = false
differs (some (c ∷ hint)) request_id = not ((c ∷ hint) === request_id)

unfoldable pub process_correlated :
    EmailSendingEvent
    → Option Text
    → Instant
    → EnvelopeCorrelation
    → Mailbox
    → Mailbox × DeliveryReply
process_correlated event hint now no_candidate m = (m, request_not_found)
process_correlated event hint now ambiguous m = (m, correlation_ambiguous)
process_correlated event hint now (matched request_id) m =
    if differs hint request_id
    then (m, correlation_hint_mismatch)
    else process_event event request_id envelope now m

abbrev pub has_provider_id : Text → RequestRow → Bool
has_provider_id id r = elim r.provider_message_id [ none ↦ false | some i ↦ i === id ]

-- The route, behind the parsing of its body.
unfoldable pub handle_delivery_event_route :
    EmailSendingEvent → Option Text → Instant → Mailbox → Mailbox × DeliveryReply
unfolding find
handle_delivery_event_route event hint now m =
    if is_recorded m event.event_id
    then (m, idempotent)
    else elim (find (has_provider_id event.provider_message_id) m.transactional_requests) [
      | none ↦ process_correlated event hint now (correlate_event_to_unknown_request m event) m
      | some row ↦
          if not (to_lower row.sender === to_lower event.from)
          then (m, sender_mismatch)
          else if not (to_lower row.to_addr === to_lower event.to)
          then (m, recipient_mismatch)
          else process_event event row.request_id provider_id now m
    ]
