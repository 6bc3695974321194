-- ===== src/History/SameKeys.antt =====
-- src/do/mailbox-do.ts: the calls that leave the keys of a mailbox alone.
use reccado.Prelude.{◌≡◌, refl, ◌∙◌, Option, none, some, arith, inl, inr, Option-cases, find}
use reccado.Text.{Text}
use reccado.ApiKey.{Platform, Instant}
use reccado.Mailbox.{Mailbox, OutboundEmail}
use reccado.Event.{EmailSendingEvent, EventClassification, classify_email_event}
use reccado.Dispatch.{ProviderOutcome, SendOutcome, send_marked, set_marker, do_transactional_send}
use reccado.Send.{
  Prepared, Surroundings, SendRequest, Checked, ok, refused, prepare, settle_row, settle,
  send_and_settle, reserve, send_inserted, reserve_and_send, submit, submit_checked,
  handle_transactional_send,
}
use reccado.Request.{insert_transactional_request}
use reccado.Suppression.{add_suppression}
use reccado.Delivery.{
  update_request, record_delivery_event, update_delivery_status, claim_id, settle_unknown,
  settle_marker, settle_proven, resolve_ambiguous_request, suppress_recipient,
  handle_delivery_event, Correlation, provider_id, envelope, EnvelopeCorrelation, no_candidate,
  ambiguous, matched, correlate_event_to_unknown_request, has_provider_id, process_event,
  process_correlated, handle_delivery_event_route,
}

-- The call left the keys alone.
abbrev pub SameKeys : Mailbox → Mailbox → Type 0
SameKeys m n = n.api_keys ≡ m.api_keys

settle-SameKeys :
    (q : Prepared) (env : Surroundings) (m : Mailbox) (told : SendOutcome)
    → SameKeys m (settle q env (m, told)).0
unfolding settle settle_row
settle-SameKeys q env m told = ground arith

dispatch-SameKeys :
    (id : Text) (email : OutboundEmail) (outcome : ProviderOutcome) (r s : Instant) (m : Mailbox)
    → SameKeys m (do_transactional_send id email outcome r s m).0
unfolding do_transactional_send send_marked set_marker
dispatch-SameKeys id email outcome r s m = ground arith

send_and_settle-SameKeys :
    (q : Prepared) (env : Surroundings) (m : Mailbox) → SameKeys m (send_and_settle q env m).0
unfolding send_and_settle
send_and_settle-SameKeys q env m = settle-SameKeys q env _ _ ∙ dispatch-SameKeys _ _ _ _ _ m

send_inserted-SameKeys :
    (p : Platform) (q : Prepared) (env : Surroundings) (m : Mailbox)
    → SameKeys m (send_inserted p q env m).0
unfolding send_inserted
send_inserted-SameKeys p q env m = ground (arith, send_and_settle-SameKeys q env m)

reserve-SameKeys :
    (p : Platform) (q : Prepared) (env : Surroundings) (m n : Mailbox)
    → reserve p q env m ≡ some n
    → SameKeys m n
unfolding reserve insert_transactional_request
reserve-SameKeys p q env m n h = ground arith

submit-SameKeys :
    (p : Platform) (q : Prepared) (env : Surroundings) (m : Mailbox)
    → SameKeys m (submit p q env m).0
unfolding submit reserve_and_send
submit-SameKeys p q env m = elim (Option-cases (reserve p q env m)) [
  | inl e ↦ ground (arith, e)
  | inr (n, e) ↦ ground (arith, e, send_inserted-SameKeys p q env n, reserve-SameKeys p q env m n e)
]

submit_checked-SameKeys :
    (p : Platform) (c : Checked Prepared) (env : Surroundings) (m : Mailbox)
    → SameKeys m (submit_checked p c env m).0
submit_checked-SameKeys p (refused key_id e) env m = refl
submit_checked-SameKeys p (ok q) env m = submit-SameKeys p q env m

pub send-SameKeys :
    (p : Platform) (pepper : Text) (request : SendRequest) (env : Surroundings) (m : Mailbox)
    → SameKeys m (handle_transactional_send p pepper request env m).0
unfolding handle_transactional_send
send-SameKeys p pepper request env m =
    submit_checked-SameKeys p (prepare p pepper m request env) env m

resolve-SameKeys :
    (id : Text) (event : EmailSendingEvent) (c : EventClassification) (now : Instant) (m : Mailbox)
    → SameKeys m (resolve_ambiguous_request id event c now m).0
unfolding resolve_ambiguous_request settle_proven settle_marker settle_unknown set_marker claim_id
    update_request
resolve-SameKeys id event c now m = ground arith

logged-SameKeys :
    (event : EmailSendingEvent) (c : EventClassification) (id : Option Text) (now : Instant)
    (m : Mailbox)
    → SameKeys m (suppress_recipient event c now (record_delivery_event event c.terminal id now m))
unfolding add_suppression record_delivery_event
logged-SameKeys event c id now m = ground arith

handle-SameKeys :
    (event : EmailSendingEvent) (c : EventClassification) (id : Option Text) (now : Instant)
    (m : Mailbox)
    → SameKeys m (handle_delivery_event event c id now m).0
unfolding handle_delivery_event update_delivery_status update_request
handle-SameKeys event c none now m = logged-SameKeys event c none now m
handle-SameKeys event c (some id) now m =
    resolve-SameKeys id event c now
      (suppress_recipient event c now (record_delivery_event event c.terminal (some id) now m))
    ∙ logged-SameKeys event c (some id) now m

process-SameKeys :
    (event : EmailSendingEvent) (id : Text) (by : Correlation) (now : Instant) (m : Mailbox)
    → SameKeys m (process_event event id by now m).0
unfolding process_event
process-SameKeys event id by now m =
    handle-SameKeys event (classify_email_event event) (some id) now m

correlated-SameKeys :
    (event : EmailSendingEvent) (hint : Option Text) (now : Instant) (e : EnvelopeCorrelation)
    (m : Mailbox)
    → SameKeys m (process_correlated event hint now e m).0
unfolding process_correlated
correlated-SameKeys event hint now no_candidate m = refl
correlated-SameKeys event hint now ambiguous m = refl
correlated-SameKeys event hint now (matched id) m =
    ground (arith, process-SameKeys event id envelope now m)

pub event-SameKeys :
    (event : EmailSendingEvent) (hint : Option Text) (now : Instant) (m : Mailbox)
    → SameKeys m (handle_delivery_event_route event hint now m).0
unfolding handle_delivery_event_route
event-SameKeys event hint now m =
    elim (Option-cases
      (find (has_provider_id event.provider_message_id) m.transactional_requests)) [
        | inl e ↦ ground (
          arith,
          e,
          correlated-SameKeys event hint now (correlate_event_to_unknown_request m event) m,
        )
        | inr (row, e) ↦ ground (arith, e, process-SameKeys event row.request_id provider_id now m)
      ]
