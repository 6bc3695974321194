-- ===== src/Dispatch.antt =====
-- src/do/mailbox-send-utils.ts, src/lib/outbound-classification.ts and `doTransactionalSend` of
-- src/do/transactional-send-ops.ts: the call of the provider behind a marker.
use reccado.Prelude.{
  Bool, true, not, Option, none, some, List, [], ◌∷◌, ◌++◌, any, find, update_where, if◌then◌else◌,
}
use reccado.Text.{Text, ascii, ◌===◌, to_lower, includes}
use reccado.ApiKey.{Instant}
use reccado.Mailbox.{
  Mailbox, MetaRow, MarkerValue, OutboundEmail, ErrorCode, ambiguous, permanent_failure,
}
use reccado.Request.{ResponseStatus}

-- `transactionalSendMarkerKey`
unfoldable pub transactional_send_marker_key : Text → Text
transactional_send_marker_key request_id = ascii "txn:v1:" ++ request_id

pub data SendMarkerStatus : Type 0 where
  sending sent failed unknown : SendMarkerStatus

pub record SendMarker : Type 0 where
  pub status : SendMarkerStatus
  pub provider_message_id : Option Text
  pub error : Option ErrorCode

-- `readSendMarker`; a text that is none of ours reads as a completed send.
unfoldable pub read_send_marker : MarkerValue → SendMarker
read_send_marker MarkerValue.sending = record {
  status = SendMarkerStatus.sending;
  provider_message_id = none;
  error = none;
}
read_send_marker (MarkerValue.unknown e) = record {
  status = SendMarkerStatus.unknown;
  provider_message_id = none;
  error = e;
}
read_send_marker (MarkerValue.failed e) = record {
  status = SendMarkerStatus.failed;
  provider_message_id = none;
  error = e;
}
read_send_marker (MarkerValue.sent id) = record {
  status = SendMarkerStatus.sent;
  provider_message_id = id;
  error = none;
}
read_send_marker MarkerValue.other = record {
  status = SendMarkerStatus.sent;
  provider_message_id = none;
  error = none;
}

-- A property of the provider's answer: a string, or anything else.
pub data Field : Type 0 where
  text : Text → Field
  other : Field

pub data ProviderReply : Type 0 where
  object : (message_id id provider_message_id : Field) → ProviderReply
  no_object : ProviderReply

-- `extractProviderMessageId`: the first of the three that is a string
unfoldable pub extract_provider_message_id : ProviderReply → Option Text
extract_provider_message_id (object (text s) id provider_message_id) = some s
extract_provider_message_id (object other (text s) provider_message_id) = some s
extract_provider_message_id (object other other (text s)) = some s
extract_provider_message_id (object other other other) = none
extract_provider_message_id no_object = none

pub data ProviderError : Type 0 where
  ambiguous_send_error : ProviderError
  error_with_message : Text → ProviderError
  not_an_error : ProviderError

-- The texts that say the provider did not take the message.
abbrev pub non_delivery_signals : List Text
non_delivery_signals =
    ascii "permanent"
    ∷ (ascii "rejected"
        ∷ (ascii "invalid"
            ∷ (ascii "not found"
                ∷ (ascii "does not exist"
                    ∷ (ascii "address rejected"
                        ∷ (ascii "mailbox unavailable"
                            ∷ (ascii "user unknown"
                                ∷ (ascii "spam blocked" ∷ (ascii "policy rejection" ∷ [])))))))))

-- `error instanceof AmbiguousSendError || isAmbiguousProviderError(error)`
unfoldable pub is_ambiguous_provider_error : ProviderError → Bool
is_ambiguous_provider_error ambiguous_send_error = true
is_ambiguous_provider_error not_an_error = true
is_ambiguous_provider_error (error_with_message message) =
    not (any (includes (to_lower message)) non_delivery_signals)

pub data ProviderOutcome : Type 0 where
  returned : ProviderReply → ProviderOutcome
  threw : ProviderError → ProviderOutcome

pub record SendOutcome : Type 0 where
  pub status : ResponseStatus
  pub provider_message_id : Option Text
  pub error_category : Option ErrorCode

unfoldable pub find_marker : Mailbox → Text → Option MetaRow
unfolding find
find_marker m key = find (λ row. row.key === key) m.mailbox_meta

unfoldable pub set_marker : Text → MarkerValue → Instant → Mailbox → Mailbox
unfolding update_where
set_marker key value now m = record m {
  mailbox_meta =
      update_where (λ row. row.key === key) (λ row. record row { value = value; updated_at = now })
        m.mailbox_meta;
}

-- What a marker that is already there decides; none for `sending`.
unfoldable pub marker_outcome : SendMarker → Option SendOutcome
marker_outcome marker = elim marker.status [
  | SendMarkerStatus.sent ↦ some (record {
    status = ResponseStatus.sent;
    provider_message_id = marker.provider_message_id;
    error_category = none;
  })
  | SendMarkerStatus.unknown ↦ some (record {
    status = ResponseStatus.unknown;
    provider_message_id = none;
    error_category = some ambiguous;
  })
  | SendMarkerStatus.failed ↦ some (record {
    status = ResponseStatus.permanent_failure;
    provider_message_id = none;
    error_category = some permanent_failure;
  })
  | SendMarkerStatus.sending ↦ none
]

-- The marker that the provider's outcome leaves, and what the caller is told.
unfoldable pub classify_outcome : ProviderOutcome → MarkerValue × SendOutcome
classify_outcome (returned reply) =
    let id = extract_provider_message_id reply in
    (
      MarkerValue.sent id,
      record { status = ResponseStatus.sent; provider_message_id = id; error_category = none },
    )
classify_outcome (threw error) =
    if is_ambiguous_provider_error error
    then (
      MarkerValue.unknown (some ambiguous),
      record {
        status = ResponseStatus.unknown;
        provider_message_id = none;
        error_category = some ambiguous;
      },
    )
    else (
      MarkerValue.failed (some permanent_failure),
      record {
        status = ResponseStatus.permanent_failure;
        provider_message_id = none;
        error_category = some permanent_failure;
      },
    )

-- The INSERT of the marker, and the call of the provider.
unfoldable pub send_marked :
    Text → OutboundEmail → ProviderOutcome → Instant → Instant → Mailbox → Mailbox × SendOutcome
send_marked key email outcome reserved_at settled_at m =
    let (value, told) = classify_outcome outcome in
    let reserved : Mailbox = record m {
      mailbox_meta =
          m.mailbox_meta
          ++ record { key = key; value = MarkerValue.sending; updated_at = reserved_at } ∷ [];
      outbox = m.outbox ++ email ∷ [];
    } in
    (set_marker key value settled_at reserved, told)

-- The primary key of `mailbox_meta` refuses a second INSERT; the code then reports a send.
abbrev pub already_reserved : Mailbox → Mailbox × SendOutcome
already_reserved m =
    (m, record { status = ResponseStatus.sent; provider_message_id = none; error_category = none })

abbrev pub or_reserved : Option SendOutcome → Mailbox → Mailbox × SendOutcome
or_reserved (some told) m = (m, told)
or_reserved none m = already_reserved m

-- `doTransactionalSend`
unfoldable pub do_transactional_send :
    Text → OutboundEmail → ProviderOutcome → Instant → Instant → Mailbox → Mailbox × SendOutcome
do_transactional_send request_id email outcome reserved_at settled_at m =
    let key = transactional_send_marker_key request_id in
    elim (find_marker m key) [
      | some row ↦ or_reserved (marker_outcome (read_send_marker row.value)) m
      | none ↦ send_marked key email outcome reserved_at settled_at m
    ]
