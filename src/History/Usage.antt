-- ===== src/History/Usage.antt =====
-- src/do/transactional-send-ops.ts: the usage counters along a history of calls.
use reccado.Send.{
  Surroundings, Checked, ok, refused, Prepared, submit_checked, handle_transactional_send,
}
use reccado.Send.Fresh.{IsFresh}
use reccado.Send.Outcome.{replayed, over_quota, dispatched, submit-outcome}
use reccado.TemplateStore.{update_template, archive_template}
use reccado.History.{
  HasFreshId, AllFresh, apply_all, send, delivery_event, reconcile, unsuppress, create_key,
  revoke_key, rotate_key, rename_key, new_template, edit_template, retire_template, template_sync,
}
use reccado.History.Others.{
  Untouched, create_api_key-Untouched, revoke_api_key-Untouched, rotate_api_key-Untouched,
  rename-Untouched, create_template-Untouched, sync_templates-Untouched,
}
use reccado.Event.{classify_email_event}
use reccado.Prelude.{
  ℕ, ◌≤◌, ◌≡◌, refl, ◌∙◌, arith, Option, some, List, [], ◌∷◌, inl, inr, Option-cases, find,
}
use reccado.Text.{Text}
use reccado.ApiKey.{Platform, Instant}
use reccado.Mailbox.{Mailbox, UsageRow, WindowKey}
use reccado.Event.{EmailSendingEvent, EventClassification}
use reccado.Dispatch.{set_marker}
use reccado.Suppression.{add_suppression, remove_suppression}
use reccado.Request.{reconcile_stale_transactional_requests}
use reccado.Quota.{get_usage_count, max_per_minute}
use reccado.Quota.Limits.{check_and_increment_quota-within_minute}
use reccado.Delivery.{
  suppress_recipient, record_delivery_event, resolve_ambiguous_request, claim_id, update_request,
  update_delivery_status, settle_proven, settle_unknown, settle_marker, handle_delivery_event,
  EnvelopeCorrelation, process_correlated, process_event, has_provider_id,
  correlate_event_to_unknown_request, handle_delivery_event_route,
}
use reccado.History.{Operation, apply}

-- The call charged nothing.
unfoldable pub Uncharged : Mailbox → Mailbox → Type 0
Uncharged m n = n.api_key_usage ≡ m.api_key_usage

resolve-Uncharged :
    (id : Text) (event : EmailSendingEvent) (c : EventClassification) (now : Instant) (m : Mailbox)
    → Uncharged m (resolve_ambiguous_request id event c now m).0
unfolding Uncharged resolve_ambiguous_request claim_id update_request settle_proven settle_unknown
    settle_marker set_marker
resolve-Uncharged id event c now m = ground arith

record-Uncharged :
    (event : EmailSendingEvent) (c : EventClassification) (id : Option Text) (now : Instant)
    (m : Mailbox)
    → Uncharged m (suppress_recipient event c now (record_delivery_event event c.terminal id now m))
unfolding Uncharged add_suppression record_delivery_event
record-Uncharged event c id now m = ground arith

handle-Uncharged :
    (event : EmailSendingEvent) (c : EventClassification) (id : Text) (now : Instant) (m : Mailbox)
    → Uncharged m (handle_delivery_event event c (some id) now m).0
unfolding Uncharged handle_delivery_event update_delivery_status update_request
handle-Uncharged event c id now m =
    let recorded =
      suppress_recipient event c now (record_delivery_event event c.terminal (some id) now m) in
    resolve-Uncharged id event c now recorded ∙ record-Uncharged event c (some id) now m

correlated-Uncharged :
    (event : EmailSendingEvent) (hint : Option Text) (now : Instant) (e : EnvelopeCorrelation)
    (m : Mailbox)
    → Uncharged m (process_correlated event hint now e m).0
unfolding Uncharged process_correlated process_event
correlated-Uncharged event hint now EnvelopeCorrelation.no_candidate m = refl
correlated-Uncharged event hint now EnvelopeCorrelation.ambiguous m = refl
correlated-Uncharged event hint now (EnvelopeCorrelation.matched id) m =
    ground (arith, handle-Uncharged event (classify_email_event event) id now m)

pub event-Uncharged :
    (event : EmailSendingEvent) (hint : Option Text) (now : Instant) (m : Mailbox)
    → Uncharged m (handle_delivery_event_route event hint now m).0
unfolding Uncharged handle_delivery_event_route process_event
event-Uncharged event hint now m =
    elim (Option-cases
      (find (has_provider_id event.provider_message_id) m.transactional_requests)) [
        | inl e ↦ ground (
          arith,
          e,
          correlated-Uncharged event hint now (correlate_event_to_unknown_request m event) m,
        )
        | inr (row, e) ↦
            ground
              (arith, e, handle-Uncharged event (classify_email_event event) row.request_id now m)
      ]

module _ (p : Platform) (l : Text) (n : ℕ) where
  -- The calls that the counter of the key's minute has counted.
  abbrev counted : Mailbox → ℕ
  counted m = get_usage_count m.api_key_usage l (WindowKey.rate_minute n)

  uncharged :
      {us vs : List UsageRow}
      → vs ≡ us
      → get_usage_count us l (WindowKey.rate_minute n) ≤ max_per_minute
      → get_usage_count vs l (WindowKey.rate_minute n) ≤ max_per_minute
  uncharged same h = rw same h

  submit-within :
      (c : Checked Prepared) (env : Surroundings) (m : Mailbox)
      → IsFresh env.request_id m
      → counted m ≤ max_per_minute
      → counted (submit_checked p c env m).0 ≤ max_per_minute
  submit-within (refused k e) env m fresh h = h
  submit-within (ok q) env m fresh h = elim (submit-outcome p q env m fresh) [
    | replayed r e a ↦ rw a h
    | over_quota e c a ↦ rw a h
    | dispatched usage e c d ↦
        rw (d.answer, d.charged)
          (check_and_increment_quota-within_minute q.key q.key_id env.quota_at m.api_key_usage usage
            l n c h)
  ]

  apply-within :
      (o : Operation) (m : Mailbox)
      → HasFreshId o m
      → counted m ≤ max_per_minute
      → counted (apply p o m) ≤ max_per_minute
  unfolding apply handle_transactional_send Uncharged Untouched remove_suppression
      reconcile_stale_transactional_requests update_template archive_template
  apply-within (send pepper request env) m fresh h = submit-within _ env m fresh h
  apply-within (delivery_event event hint now) m fresh h =
      uncharged (event-Uncharged event hint now m) h
  apply-within (reconcile older_than now) m fresh h = h
  apply-within (unsuppress email override) m fresh h = h
  apply-within (create_key pepper mailbox_id input new) m fresh h =
      uncharged (create_api_key-Untouched p pepper m mailbox_id input new).1 h
  apply-within (revoke_key key_id reason event_id now) m fresh h =
      uncharged (revoke_api_key-Untouched m key_id reason event_id now).1 h
  apply-within (rotate_key pepper mailbox_id old_key_id new) m fresh h =
      uncharged (rotate_api_key-Untouched p pepper m mailbox_id old_key_id new).1 h
  apply-within (rename_key key_id sender_name event_id now) m fresh h =
      uncharged (rename-Untouched m key_id sender_name event_id now).1 h
  apply-within (new_template mailbox_id input now) m fresh h =
      uncharged (create_template-Untouched m mailbox_id input now).1 h
  apply-within (edit_template mailbox_id input now) m fresh h = h
  apply-within (retire_template mailbox_id template_id now) m fresh h = h
  apply-within (template_sync mailbox_id batch archive now) m fresh h =
      uncharged (sync_templates-Untouched m mailbox_id batch archive now).1 h

  -- However the calls follow one another, if each send has a new request id then the counter of a key
  -- and a minute, once within 60, stays within 60.
  pub apply_all-within_minute :
      (os : List Operation) (m : Mailbox)
      → AllFresh p os m
      → get_usage_count m.api_key_usage l (WindowKey.rate_minute n) ≤ max_per_minute
      → get_usage_count (apply_all p os m).api_key_usage l (WindowKey.rate_minute n)
        ≤ max_per_minute
  unfolding apply_all AllFresh
  apply_all-within_minute [] m fresh h = h
  apply_all-within_minute (o ∷ os) m fresh h =
      apply_all-within_minute os (apply p o m) fresh.1 (apply-within o m fresh.0 h)
