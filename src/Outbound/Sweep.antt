-- ===== src/Outbound/Sweep.antt =====
-- src/cloudflare/scheduled.ts: reconcileStaleOutboundSends with listStaleSendingOutboundSends of
-- src/db/d1.ts: the sweep of sends that stay at `sending`.
use reccado.Prelude.{
  ℕ, ◌-◌, ◌*◌, Bool, true, false, ◌&&◌, none, some, List, [], ◌∷◌, if◌then◌else◌, leb, ltb, length,
  take, keep,
}
use reccado.Text.{ascii}
use reccado.ApiKey.{Instant}
use reccado.Outbound.{
  Ledger, OutboundSendRow, SendStatus, sending, unknown, reason, OpsEvent, stale_reconciled,
  insert_ops_event, update_outbound_send_status,
}

abbrev pub stale_sending_threshold_ms : ℕ
stale_sending_threshold_ms = 10 * 60 * 1000

abbrev pub stale_sending_sweep_limit : ℕ
stale_sending_sweep_limit = 50

abbrev pub is_sending_row : SendStatus → Bool
is_sending_row sending = true
is_sending_row _ = false

-- `status = 'sending' AND updated_at < ?`
unfoldable pub is_stale : Instant → OutboundSendRow → Bool
is_stale older_than row = is_sending_row row.status && ltb row.updated_at older_than

-- Earliest update first.
unfoldable pub insert_by_update : OutboundSendRow → List OutboundSendRow → List OutboundSendRow
insert_by_update row [] = row ∷ []
insert_by_update row (r ∷ rows) =
    let rest = insert_by_update row rows in
    if leb row.updated_at r.updated_at then row ∷ r ∷ rows else r ∷ rest

unfoldable pub by_update : List OutboundSendRow → List OutboundSendRow
unfolding insert_by_update
by_update [] = []
by_update (row ∷ rows) = insert_by_update row (by_update rows)

-- `listStaleSendingOutboundSends`
unfoldable pub list_stale_sending : Instant → ℕ → Ledger → List OutboundSendRow
unfolding by_update keep is_stale
list_stale_sending older_than limit l =
    take limit (by_update (keep (is_stale older_than) l.outbound_sends))

abbrev pub stale_event : OutboundSendRow → OpsEvent
stale_event row = record {
  event_type = stale_reconciled;
  subject = row.mailbox_id;
  draft_id = row.draft_id;
  idempotency_key = row.idempotency_key;
  reason = none;
}

-- The body of the loop.
unfoldable pub mark_unknown : Instant → OutboundSendRow → Ledger → Ledger
unfolding insert_ops_event update_outbound_send_status
mark_unknown now row l = insert_ops_event (stale_event row) (
    update_outbound_send_status row.idempotency_key unknown none
      (some (reason (ascii "stale_sending_timeout_needs_review"))) now l)

unfoldable pub mark_each : Instant → List OutboundSendRow → Ledger → Ledger
unfolding mark_unknown
mark_each now [] l = l
mark_each now (row ∷ rows) l = mark_each now rows (mark_unknown now row l)

-- `reconcileStaleOutboundSends`, at the scheduled time, with the reading `now` of the clock
unfoldable pub reconcile_stale_outbound_sends : Instant → Instant → Ledger → Ledger × ℕ
unfolding list_stale_sending mark_each
reconcile_stale_outbound_sends scheduled_time now l =
    let stale =
      list_stale_sending (scheduled_time - stale_sending_threshold_ms) stale_sending_sweep_limit
        l in
    (mark_each now stale l, length stale)

-- How many rows are stale.
unfoldable pub stale_count : Instant → Ledger → ℕ
unfolding keep is_stale
stale_count older_than l = length (keep (is_stale older_than) l.outbound_sends)
