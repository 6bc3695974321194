-- ===== src/Delivery/Resolving.antt =====
-- src/do/mailbox-suppressions.ts: the log of events, the correlation of an event with a request by
-- its envelope, and the resolution of unknown requests.
use reccado.Prelude.{
  ℕ, ◌+◌, ◌-◌, ◌*◌, Bool, true, false, ◌&&◌, not, Option, none, some, List, [], ◌∷◌, ◌++◌, leb,
  if◌then◌else◌, find, keep, update_where, take,
}
use reccado.Text.{Text, ◌===◌, to_lower}
use reccado.ApiKey.{Instant, instant, unparsable}
use reccado.Mailbox.{
  Mailbox, RequestRow, RequestStatus, ErrorCode, permanent_failure, DeliveryStatus,
  envelope_correlation, MarkerValue,
}
use reccado.Event.{EmailSendingEvent, EventClassification}
use reccado.Dispatch.{
  transactional_send_marker_key, read_send_marker, SendMarkerStatus, find_marker, set_marker,
}
use reccado.Suppression.{normal_email, day_ms}

abbrev pub has_id : Text → RequestRow → Bool
has_id request_id r = r.request_id === request_id

unfoldable pub find_request : Mailbox → Text → Option RequestRow
unfolding find ◌===◌
find_request m request_id = find (has_id request_id) m.transactional_requests

unfoldable pub update_request : Text → (RequestRow → RequestRow) → Mailbox → Mailbox
unfolding update_where
update_request request_id f m = record m {
  transactional_requests = update_where (has_id request_id) f m.transactional_requests;
}

unfoldable pub is_recorded : Mailbox → Text → Bool
unfolding find ◌===◌
is_recorded m event_id =
    elim (find (λ e. e.event_id === event_id) m.transactional_delivery_events) [
      | none ↦ false
      | some e ↦ true
    ]

-- `INSERT OR IGNORE` by `event_id`
unfoldable pub record_delivery_event :
    EmailSendingEvent → Bool → Option Text → Instant → Mailbox → Mailbox
record_delivery_event event terminal request_id now m =
    if is_recorded m event.event_id then m else record m {
      transactional_delivery_events =
          m.transactional_delivery_events
          ++ record {
            event_id = event.event_id;
            request_id = request_id;
            provider_message_id = event.provider_message_id;
            recipient = normal_email event.to;
            event_type = event.event_type;
            terminal = terminal;
            created_at = now;
          }
            ∷ [];
    }

unfoldable pub update_delivery_status : Text → DeliveryStatus → Instant → Mailbox → Mailbox
update_delivery_status request_id status now = update_request request_id (λ r. record r {
  delivery_status = some status;
  delivery_event_at = some now;
  updated_at = now;
})

abbrev pub envelope_window_ms : ℕ
envelope_window_ms = 7 * day_ms

abbrev pub envelope_skew_ms : ℕ
envelope_skew_ms = 5 * 60 * 1000

-- The bounds of `envelopeCorrelationWindow`. An instant before 1970 is below every `created_at`, as 0
-- is.
unfoldable pub in_window : Instant → Instant → Bool
in_window event_at created_at =
    leb (event_at - envelope_window_ms) created_at && leb created_at (event_at + envelope_skew_ms)

abbrev pub is_null {ℓ} : {A : Type ℓ} → Option A → Bool
is_null none = true
is_null (some a) = false

abbrev pub is_unknown : RequestStatus → Bool
is_unknown RequestStatus.unknown = true
is_unknown _ = false

abbrev pub is_candidate : EmailSendingEvent → Instant → RequestRow → Bool
is_candidate event event_at r =
    is_unknown r.status
    && (is_null r.provider_message_id
        && (in_window event_at r.created_at
            && (to_lower r.sender === normal_email event.from
                && to_lower r.to_addr === normal_email event.to)))

pub data EnvelopeCorrelation : Type 0 where
  matched : Text → EnvelopeCorrelation
  no_candidate ambiguous : EnvelopeCorrelation

abbrev pub adjudicate : List RequestRow → EnvelopeCorrelation
adjudicate [] = no_candidate
adjudicate (r ∷ []) = matched r.request_id
adjudicate (r ∷ (s ∷ rest)) = ambiguous

unfoldable pub correlate_event_to_unknown_request :
    Mailbox → EmailSendingEvent → EnvelopeCorrelation
correlate_event_to_unknown_request m event = elim event.timestamp [
  | unparsable ↦ no_candidate
  | instant at ↦ adjudicate (take 2 (keep (is_candidate event at) m.transactional_requests))
]

pub data Proven : Type 0 where
  sent failed : Proven

abbrev pub proven_by_status : DeliveryStatus → Option Proven
proven_by_status DeliveryStatus.delivered = some sent
proven_by_status DeliveryStatus.bounced = some sent
proven_by_status DeliveryStatus.complained = some sent
proven_by_status DeliveryStatus.rejected = some failed
proven_by_status DeliveryStatus.failed = some failed
proven_by_status DeliveryStatus.deferred = none
proven_by_status DeliveryStatus.unknown = none

unfoldable pub status_proven_by : EventClassification → Option Proven
status_proven_by c = if not c.terminal then none else proven_by_status c.delivery_status

-- `!row.provider_message_id`: null, or the empty text
abbrev pub lacks_id : Option Text → Bool
lacks_id none = true
lacks_id (some []) = true
lacks_id (some (c ∷ s)) = false

unfoldable pub claim_id : RequestRow → Text → Text → Instant → Mailbox → Mailbox
claim_id row request_id provider_id now m =
    if lacks_id row.provider_message_id
    then update_request request_id
        (λ r. record r { provider_message_id = some provider_id; updated_at = now }) m
    else m

abbrev pub proven_status : Proven → RequestStatus
proven_status sent = RequestStatus.sent
proven_status failed = RequestStatus.failed

abbrev pub proven_error : Proven → Option ErrorCode
proven_error sent = none
proven_error failed = some permanent_failure

abbrev pub proven_marker : Proven → Text → MarkerValue
proven_marker sent provider_id = MarkerValue.sent (some provider_id)
proven_marker failed provider_id = MarkerValue.failed (some permanent_failure)

-- The UPDATE guarded by `status = 'unknown'`.
unfoldable pub settle_unknown : Text → Proven → Instant → Mailbox → Mailbox
settle_unknown request_id proven now m = record m {
  transactional_requests =
      update_where (λ r. has_id request_id r && is_unknown r.status)
        (λ r. record r {
          status = proven_status proven;
          resolved_via = some envelope_correlation;
          error_code = proven_error proven;
          variables = none;
          updated_at = now;
        })
        m.transactional_requests;
}

abbrev pub is_unknown_marker : SendMarkerStatus → Bool
is_unknown_marker SendMarkerStatus.unknown = true
is_unknown_marker _ = false

unfoldable pub settle_marker : Text → Proven → Text → Instant → Mailbox → Mailbox
settle_marker request_id proven provider_id now m =
    let key = transactional_send_marker_key request_id in
    elim (find_marker m key) [
      | none ↦ m
      | some row ↦
          if is_unknown_marker (read_send_marker row.value).status
          then set_marker key (proven_marker proven provider_id) now m
          else m
    ]

unfoldable pub settle_proven :
    Text → Option Proven → Text → Instant → Mailbox → Mailbox × Option Proven
settle_proven request_id none provider_id now m = (m, none)
settle_proven request_id (some proven) provider_id now m = (
  settle_marker request_id proven provider_id now (settle_unknown request_id proven now m),
  some proven,
)

unfoldable pub resolve_ambiguous_request :
    Text → EmailSendingEvent → EventClassification → Instant → Mailbox → Mailbox × Option Proven
resolve_ambiguous_request request_id event c now m = elim (find_request m request_id) [
  | none ↦ (m, none)
  | some row ↦
      if is_unknown row.status
      then settle_proven request_id (status_proven_by c) event.provider_message_id now
          (claim_id row request_id event.provider_message_id now m)
      else (m, none)
]
