-- ===== src/Request/Rows.antt =====
-- src/do/transactional-send-ops.ts: `getTransactionalRequest` after `insertTransactionalRequest`.
use reccado.Prelude.{
  ◌≡◌, ◌∙◌, none, some, [], ◌∷◌, arith, find, find-append_none, find-append_some,
  find-delete_where_all, find-delete_where_kept, find_elsewhere,
}
use reccado.Text.{Text, ◌===◌, ===_refl}
use reccado.Mailbox.{Mailbox, RequestRow}
use reccado.Request.{is_request, get_transactional_request, insert_transactional_request}

pub get-insert_self :
    (row : RequestRow) (m : Mailbox)
    → get_transactional_request
        (insert_transactional_request row m)
        row.key_id
        row.client_idempotency_key
      ≡ some row
unfolding get_transactional_request insert_transactional_request
get-insert_self row m =
    find-append_none (is_request row.key_id row.client_idempotency_key) _ (row ∷ [])
      (find-delete_where_all _ _ m.transactional_requests (λ a h. ground arith))
    ∙ ground (arith, ===_refl row.key_id, ===_refl row.client_idempotency_key)

-- Where its id is new, the INSERT replaces no row of another request.
pub get-insert_taken :
    (row : RequestRow) (m : Mailbox) (key_id idempotency_key : Text) (r : RequestRow)
    → find (λ r. r.request_id === row.request_id) m.transactional_requests ≡ none
    → get_transactional_request m row.key_id row.client_idempotency_key ≡ none
    → get_transactional_request m key_id idempotency_key ≡ some r
    → get_transactional_request (insert_transactional_request row m) key_id idempotency_key ≡ some r
unfolding get_transactional_request insert_transactional_request
get-insert_taken row m key_id idempotency_key r fresh free taken =
    let p = is_request key_id idempotency_key in
    find-append_some p _ (row ∷ []) r (
      find-delete_where_kept p _ m.transactional_requests r taken (
        ground (
          arith,
          find_elsewhere p (λ r. r.request_id === row.request_id) m.transactional_requests r fresh
              taken,
          find_elsewhere p (is_request row.key_id row.client_idempotency_key)
              m.transactional_requests r free taken,
        )))

pub get_by_rows :
    (m n : Mailbox)
    → m.transactional_requests ≡ n.transactional_requests
    → (k i : Text) → get_transactional_request m k i ≡ get_transactional_request n k i
unfolding get_transactional_request
get_by_rows m n e k i = rw e
