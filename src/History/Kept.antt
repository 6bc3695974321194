-- ===== src/History/Kept.antt =====
-- What the calls of a mailbox keep of the transactional requests.
use reccado.Prelude.{refl, Bool, Option, List, [], ◌∷◌}
use reccado.Text.{Text}
use reccado.ApiKey.{Instant}
use reccado.Mailbox.{Mailbox}
use reccado.Event.{EmailSendingEvent}
use reccado.Request.{mark_stale, mark_all_stale, stale_ids, reconcile_stale_transactional_requests}
use reccado.Request.Kept.{
  SameRequest, same, SameRequest-trans, Keeps, Keeps-refl, Keeps-trans, same_rows-Keeps,
  update_where-Keeps, Keeps-weaken,
}
use reccado.Suppression.{remove_suppression}
use reccado.Delivery.{handle_delivery_event_route}
use reccado.Delivery.Kept

pub event-Keeps :
    (event : EmailSendingEvent) (hint : Option Text) (now : Instant) (m : Mailbox)
    → Keeps SameRequest m (handle_delivery_event_route event hint now m).0
event-Keeps event hint now m =
    Keeps-weaken (λ r s a. a.identity) (Kept.handle_delivery_event_route-Keeps event hint now m)

mark_all_stale-Keeps :
    (ids : List Text) (now : Instant) (m : Mailbox)
    → Keeps SameRequest m
        (record m { transactional_requests = mark_all_stale ids now m.transactional_requests })
unfolding mark_all_stale
mark_all_stale-Keeps [] now m = Keeps-refl same m
mark_all_stale-Keeps (id ∷ ids) now m =
    let next : Mailbox = record m {
      transactional_requests = mark_stale id now m.transactional_requests;
    } in
    let first : Keeps SameRequest m next =
      update_where-Keeps same _ _ refl
        (λ r. record {
          request_id = refl;
          key_id = refl;
          idempotency_key = refl;
          payload_hash = refl;
        })
        (λ r h. record {
          request_id = refl;
          key_id = refl;
          idempotency_key = refl;
          payload_hash = refl;
        }) in
    Keeps-trans SameRequest-trans first (mark_all_stale-Keeps ids now next)

pub reconcile-Keeps :
    (m : Mailbox) (older_than now : Instant)
    → Keeps SameRequest m (reconcile_stale_transactional_requests m older_than now).0
unfolding reconcile_stale_transactional_requests
reconcile-Keeps m older_than now =
    mark_all_stale-Keeps (stale_ids older_than m.transactional_requests) now m

pub remove_suppression-Keeps :
    (email : Text) (b : Bool) (m : Mailbox) → Keeps SameRequest m (remove_suppression email b m).0
unfolding remove_suppression
remove_suppression-Keeps email b m = same_rows-Keeps same m _ refl
