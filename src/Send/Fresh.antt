-- ===== src/Send/Fresh.antt =====
-- One pass of `handleTransactionalSend` behind its checks, for a request whose idempotency key is
-- new: the row, the provider call and the answer.
use mathlib.Core.Option
use reccado.Request.Rows.{get-insert_self, get-insert_taken, get_by_rows}
use reccado.Prelude.{
  ◌≡◌, refl, ap, ◌∙◌, none, some, List, [], ◌∷◌, ◌++◌, inl, inr, Bool-cases, find,
  find-update_where, find_elsewhere, if◌then◌else◌,
}
use reccado.Text.{Text, ◌===◌, ===_refl}
use reccado.ApiKey.{Platform, Instant}
use reccado.Mailbox.{Mailbox, OutboundEmail, RequestRow, RequestStatus, UsageRow}
use reccado.Request.{
  db_status_for_send_outcome, map_db_status_to_response, is_request, get_transactional_request,
  insert_transactional_request, TransactionalSendResult,
}
use reccado.Quota.{check_and_increment_quota}
use reccado.Dispatch.{
  ProviderOutcome, returned, threw, SendOutcome, transactional_send_marker_key,
  is_ambiguous_provider_error, find_marker, set_marker, classify_outcome, send_marked,
  do_transactional_send,
}
use reccado.Send.{
  Prepared, Surroundings, new_row, reserve, email_of, settled, settle_row, provider_error, settle,
  send_and_settle, send_inserted, reserve_and_send, submit,
}

-- The new request id is the id of no row, and its marker is not set.
pub record IsFresh (request_id : Text) (m : Mailbox) : Type 0 where
  pub no_row : find (λ r. r.request_id === request_id) m.transactional_requests ≡ none
  pub no_marker : find_marker m (transactional_send_marker_key request_id) ≡ none

-- Each outcome of the provider has a status that the row may hold, and the row's status maps back to
-- the one in the answer.
pub outcome_status :
    (o : ProviderOutcome)
    → (status : RequestStatus) × (db_status_for_send_outcome (classify_outcome o).1.status
        ≡ some status)
      × (map_db_status_to_response status ≡ (classify_outcome o).1.status)
unfolding classify_outcome db_status_for_send_outcome map_db_status_to_response
outcome_status (returned reply) = (RequestStatus.sent, refl, refl)
outcome_status (threw e) = elim (Bool-cases (is_ambiguous_provider_error e)) [
  | inl unsure ↦ rw unsure (RequestStatus.unknown, refl, refl)
  | inr certain ↦ rw certain (RequestStatus.failed, refl, refl)
]

-- The marker's INSERT and its UPDATE leave the rows alone.
pub rows-send_marked :
    (key : Text) (email : OutboundEmail) (o : ProviderOutcome) (a b : Instant) (m : Mailbox)
    → let after = send_marked key email o a b m in
      (after.0.transactional_requests ≡ m.transactional_requests)
      × (after.0.outbox ≡ m.outbox ++ email ∷ [])
      × (after.0.api_key_usage ≡ m.api_key_usage)
      × (after.1 ≡ (classify_outcome o).1)
unfolding send_marked set_marker
rows-send_marked key email o a b m = (refl, refl, refl, refl)

pub get-settle_row :
    (request_id key_id idempotency_key : Text) (told : SendOutcome) (status : RequestStatus)
    (now : Instant) (m : Mailbox)
    → get_transactional_request (settle_row request_id told status now m) key_id idempotency_key
      ≡ Option.map
          (λ r. if r.request_id === request_id then settled told status now r else r)
          (get_transactional_request m key_id idempotency_key)
unfolding get_transactional_request settle_row
get-settle_row request_id key_id idempotency_key told status now m =
    find-update_where (is_request key_id idempotency_key) (λ r. r.request_id === request_id)
      (settled told status now) m.transactional_requests (λ a. refl)

module _ (p : Platform) (q : Prepared) (env : Surroundings) where
  abbrev pub told : SendOutcome
  told = (classify_outcome env.outcome).1

  -- The row of the request when the call is over.
  abbrev pub settled_row : RequestStatus → RequestRow
  settled_row status = settled told status env.updated_at (new_row p q env)

  -- What `send_and_settle` answers and leaves for a marker that is not set.
  abbrev pub result_of : TransactionalSendResult
  result_of = record {
    status = told.status;
    request_id = env.request_id;
    key_id = q.key_id;
    provider_message_id = told.provider_message_id;
    error = provider_error told.error_category;
  }

  settle-told :
      (after : Mailbox) (status : RequestStatus)
      → db_status_for_send_outcome told.status ≡ some status
      → settle q env (after, told)
        ≡ (settle_row env.request_id told status env.updated_at after, some result_of)
  unfolding settle
  settle-told after status e = rw (e, settle)

  do_transactional_send_fresh :
      (m : Mailbox)
      → find_marker m (transactional_send_marker_key env.request_id) ≡ none
      → do_transactional_send env.request_id
          (email_of q)
          env.outcome
          env.reserved_at
          env.settled_at
          m
        ≡ (
          (send_marked
              (transactional_send_marker_key env.request_id)
              (email_of q)
              env.outcome
              env.reserved_at
              env.settled_at
              m).0,
          told,
        )
  unfolding do_transactional_send send_marked
  do_transactional_send_fresh m h = rw (h, do_transactional_send)

  pub send_and_settle_fresh :
      (m : Mailbox)
      → find_marker m (transactional_send_marker_key env.request_id) ≡ none
      → (after : Mailbox) × (status : RequestStatus) × (send_and_settle q env m
          ≡ (settle_row env.request_id told status env.updated_at after, some result_of))
        × (after.transactional_requests ≡ m.transactional_requests)
        × (after.outbox ≡ m.outbox ++ email_of q ∷ [])
        × (after.api_key_usage ≡ m.api_key_usage)
        × (map_db_status_to_response status ≡ told.status)
  unfolding send_and_settle
  send_and_settle_fresh m h =
      let key = transactional_send_marker_key env.request_id in
      let done = send_marked key (email_of q) env.outcome env.reserved_at env.settled_at m in
      let (status, e, back) = outcome_status env.outcome in
      let (rows, out, usage, same) =
        rows-send_marked key (email_of q) env.outcome env.reserved_at env.settled_at m in
      (
        done.0,
        status,
        ap (settle q env) (do_transactional_send_fresh m h) ∙ settle-told done.0 status e,
        rows,
        out,
        usage,
        back,
      )

  -- The email went to the provider once, and the request has its row.
  pub record Dispatched (m : Mailbox) (usage : List UsageRow) : Type 0 where
    pub after : Mailbox
    pub status : RequestStatus
    pub answer : submit p q env m ≡ (after, some result_of)
    pub outbox : after.outbox ≡ m.outbox ++ email_of q ∷ []
    pub charged : after.api_key_usage ≡ usage
    pub row :
        get_transactional_request after q.key_id q.client_idempotency_key
        ≡ some (settled_row status)
    pub mapped : map_db_status_to_response status ≡ told.status

  abbrev reserved_mailbox : Mailbox → List UsageRow → Mailbox
  reserved_mailbox m usage =
      insert_transactional_request (new_row p q env) (record m { api_key_usage = usage })

  reserve_fresh :
      (m : Mailbox) (usage : List UsageRow)
      → get_transactional_request m q.key_id q.client_idempotency_key ≡ none
      → check_and_increment_quota q.key q.key_id env.quota_at m.api_key_usage ≡ some usage
      → reserve p q env m ≡ some (reserved_mailbox m usage)
  unfolding reserve
  reserve_fresh m usage e c = rw (e, reserve, c)

  send_inserted_fresh :
      (m : Mailbox) (r : RequestRow)
      → get_transactional_request m q.key_id q.client_idempotency_key ≡ some r
      → send_inserted p q env m ≡ send_and_settle q env m
  unfolding send_inserted
  send_inserted_fresh m r e = rw (e, send_inserted)

  submit_reserved :
      (m : Mailbox) (usage : List UsageRow)
      → get_transactional_request m q.key_id q.client_idempotency_key ≡ none
      → check_and_increment_quota q.key q.key_id env.quota_at m.api_key_usage ≡ some usage
      → submit p q env m ≡ send_and_settle q env (reserved_mailbox m usage)
  unfolding submit reserve_and_send new_row
  submit_reserved m usage e c =
      let start : Mailbox = record m { api_key_usage = usage } in
      rw (e, submit, reserve_fresh m usage e c, reserve_and_send)
        (send_inserted_fresh (reserved_mailbox m usage) (new_row p q env)
          (get-insert_self (new_row p q env) start))

  settled_self :
      (status : RequestStatus)
      → (if env.request_id === env.request_id then settled_row status else new_row p q env)
        ≡ settled_row status
  settled_self status = rw (===_refl env.request_id)

  others_kept :
      (m : Mailbox) (usage : List UsageRow) (sent : Mailbox) (status : RequestStatus) (k i : Text)
      (r : RequestRow)
      → get_transactional_request m q.key_id q.client_idempotency_key ≡ none
      → IsFresh env.request_id m
      → sent.transactional_requests ≡ (reserved_mailbox m usage).transactional_requests
      → get_transactional_request m k i ≡ some r
      → get_transactional_request (settle_row env.request_id told status env.updated_at sent) k i
        ≡ some r
  unfolding get_transactional_request new_row insert_transactional_request
  others_kept m usage sent status k i r e fresh rows taken =
      let start : Mailbox = record m { api_key_usage = usage } in
      let other =
        find_elsewhere (is_request k i) (λ r. r.request_id === env.request_id)
          m.transactional_requests r fresh.no_row taken in
      get-settle_row env.request_id k i told status env.updated_at sent
      ∙ ap (Option.map _) (
          get_by_rows sent (reserved_mailbox m usage) rows k i
          ∙ get-insert_taken (new_row p q env) start k i r fresh.no_row e taken)
      ∙ rw other refl

  pub submit_fresh :
      (m : Mailbox) (usage : List UsageRow)
      → get_transactional_request m q.key_id q.client_idempotency_key ≡ none
      → IsFresh env.request_id m
      → check_and_increment_quota q.key q.key_id env.quota_at m.api_key_usage ≡ some usage
      → Dispatched m usage
  unfolding insert_transactional_request new_row
  submit_fresh m usage e fresh c =
      let start = reserved_mailbox m usage in
      let (sent, status, answer, rows, out, charged, back) =
        send_and_settle_fresh start
          (unfold insert_transactional_request find_marker in fresh.no_marker) in
      record {
        after = settle_row env.request_id told status env.updated_at sent;
        status = status;
        answer = submit_reserved m usage e c ∙ answer;
        outbox = unfold settle_row insert_transactional_request in out;
        charged = unfold settle_row insert_transactional_request in charged;
        row =
            get-settle_row env.request_id q.key_id q.client_idempotency_key told status
              env.updated_at sent
            ∙ ap (Option.map _) (
                get_by_rows sent start rows q.key_id q.client_idempotency_key
                ∙ get-insert_self (new_row p q env) _)
            ∙ ap some (settled_self status);
        mapped = back;
      }

  -- The other requests stay as they are.
  pub submit-others :
      (m : Mailbox) (usage : List UsageRow) (k i : Text) (r : RequestRow)
      → get_transactional_request m q.key_id q.client_idempotency_key ≡ none
      → IsFresh env.request_id m
      → check_and_increment_quota q.key q.key_id env.quota_at m.api_key_usage ≡ some usage
      → get_transactional_request m k i ≡ some r
      → get_transactional_request (submit p q env m).0 k i ≡ some r
  submit-others m usage k i r e fresh c taken =
      let start = reserved_mailbox m usage in
      let (sent, status, answer, rows, out, charged, back) =
        send_and_settle_fresh start
          (unfold insert_transactional_request find_marker in fresh.no_marker) in
      rw (submit_reserved m usage e c, answer)
        (others_kept m usage sent status k i r e fresh rows taken)
