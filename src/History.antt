-- ===== src/History.antt =====
-- src/do/mailbox-do.ts: the calls that one mailbox answers, one after the other. A Durable Object runs
-- its storage operations in one thread, and each call is taken here as one step.
pub mod Kept
pub mod KeyCalls
pub mod Others
pub mod Usage
pub mod Once
pub mod Replay
pub mod Revoked
pub mod SameKeys
use reccado.Template.{Template}
use reccado.KeyOps.{
  CreateApiKeyInput, NewKey, Done, done, threw, missing, create_api_key, revoke_api_key,
  rotate_api_key, update_api_key_sender_name,
}
use reccado.TemplateStore.{create_template, update_template, archive_template, sync_templates}
use reccado.Prelude.{
  ℕ, ◌+◌, ◌-◌, Bool, true, false, ◌&&◌, Option, none, some, List, [], ◌∷◌, if◌then◌else◌, length,
  ◌≡◌,
}
use reccado.Text.{Text, ◌===◌}
use reccado.ApiKey.{Platform, Instant}
use reccado.Mailbox.{Mailbox, OutboundEmail}
use reccado.Event.{EmailSendingEvent}
use reccado.Request.{reconcile_stale_transactional_requests}
use reccado.Suppression.{remove_suppression}
use reccado.Delivery.{handle_delivery_event_route}
use reccado.Send.{
  SendRequest, Surroundings, Checked, ok, refused, Prepared, prepare, handle_transactional_send,
}
use reccado.Send.Fresh.{IsFresh}

pub data Operation : Type 0 where
  send : Text → SendRequest → Surroundings → Operation
  delivery_event : EmailSendingEvent → Option Text → Instant → Operation
  reconcile : Instant → Instant → Operation
  unsuppress : Text → Bool → Operation
  create_key : Text → Text → CreateApiKeyInput → NewKey → Operation
  revoke_key : Text → Option Text → Text → Instant → Operation
  rotate_key : Text → Text → Text → NewKey → Operation
  rename_key : Text → Option Text → Text → Instant → Operation
  new_template : Text → Template → Instant → Operation
  edit_template : Text → Template → Instant → Operation
  retire_template : Text → Text → Instant → Operation
  template_sync : Text → List Template → Bool → Instant → Operation

-- A call that throws or finds nothing leaves the mailbox.
abbrev pub or_same : Mailbox → Done → Mailbox
or_same m (done r) = r.mailbox
or_same m (threw e) = m
or_same m missing = m

abbrev pub or_kept : Mailbox → Option Mailbox → Mailbox
or_kept m none = m
or_kept m (some after) = after

-- `crypto.randomUUID` gives each call an id that the mailbox has not seen.
abbrev pub HasFreshId : Operation → Mailbox → Type 0
HasFreshId (send pepper request env) m = IsFresh env.request_id m
HasFreshId _ m = Unit {0}

abbrev pub is_for : Text → Text → Checked Prepared → Bool
is_for key_id idempotency_key (ok q) =
    q.key_id === key_id && q.client_idempotency_key === idempotency_key
is_for key_id idempotency_key (refused k e) = false

module _ (p : Platform) where
  -- The mailbox after one call.
  unfoldable pub apply : Operation → Mailbox → Mailbox
  apply (send pepper request env) m = (handle_transactional_send p pepper request env m).0
  apply (delivery_event event hint now) m = (handle_delivery_event_route event hint now m).0
  apply (reconcile older_than now) m = (reconcile_stale_transactional_requests m older_than now).0
  apply (unsuppress email override) m = (remove_suppression email override m).0
  apply (create_key pepper mailbox_id input new) m =
      or_same m (create_api_key p pepper m mailbox_id input new)
  apply (revoke_key key_id reason event_id now) m =
      or_same m (revoke_api_key m key_id reason event_id now)
  apply (rotate_key pepper mailbox_id old_key_id new) m =
      or_same m (rotate_api_key p pepper m mailbox_id old_key_id new)
  apply (rename_key key_id sender_name event_id now) m =
      or_same m (update_api_key_sender_name m key_id sender_name event_id now)
  apply (new_template mailbox_id input now) m = or_kept m (create_template m mailbox_id input now)
  apply (edit_template mailbox_id input now) m = (update_template m mailbox_id input now).0
  apply (retire_template mailbox_id template_id now) m =
      (archive_template m mailbox_id template_id now).0
  apply (template_sync mailbox_id batch archive now) m =
      (sync_templates m mailbox_id batch archive now).0

  unfoldable pub apply_all : List Operation → Mailbox → Mailbox
  apply_all [] m = m
  apply_all (o ∷ os) m = apply_all os (apply o m)

  abbrev pub concerns : Text → Text → Operation → Mailbox → Bool
  concerns key_id idempotency_key (send pepper request env) m =
      is_for key_id idempotency_key (prepare p pepper m request env)
  concerns key_id idempotency_key _ m = false

  abbrev pub growth : Operation → Mailbox → ℕ
  growth o m = length (apply o m).outbox - length m.outbox

  -- How many emails the sends under the key and the idempotency key hand to the provider.
  unfoldable pub emails_for : Text → Text → List Operation → Mailbox → ℕ
  emails_for key_id idempotency_key [] m = 0
  emails_for key_id idempotency_key (o ∷ os) m =
      (if concerns key_id idempotency_key o m then growth o m else 0)
      + emails_for key_id idempotency_key os (apply o m)

  unfoldable pub AllFresh : List Operation → Mailbox → Type 0
  AllFresh [] m = Unit {0}
  AllFresh (o ∷ os) m = HasFreshId o m × AllFresh os (apply o m)
