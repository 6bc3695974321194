-- ===== src/History/Replay.antt =====
-- src/do/transactional-send-ops.ts: how a call under a taken idempotency key is answered, now and later.
use reccado.Prelude.{◌≡◌, ◌≢◌, refl, sym, ap, ◌∙◌, true, false, none, some, List, ◌++◌, arith}
use reccado.Text.{Text, ascii, ===_refl, ===_iff, starts_with}
use reccado.ApiKey.{Platform}
use reccado.Mailbox.{Mailbox, RequestRow, UsageRow}
use reccado.Payload.{HashInput, transactional_payload_hash, payload_hash_matches}
use reccado.Quota.{check_and_increment_quota}
use reccado.Request.{
  get_transactional_request, map_db_status_to_response, idempotency_conflict,
  idempotency_key_already_used_with_different_payload, TransactionalSendResult,
}
use reccado.Send.{Surroundings, Prepared, hash_input, replay, submit, new_row}
use reccado.Send.Fresh.{IsFresh, Dispatched, settled_row, submit_fresh}
use reccado.Send.Outcome.{submit_taken}
use reccado.History.{Operation, apply_all, AllFresh}
use reccado.History.Once.{apply_all-Keeps}

module _ (p : Platform) where
  starts_with_v2 : (s : Text) → starts_with (ascii "v2:" ++ s) (ascii "v2:") ≡ true
  unfolding starts_with
  starts_with_v2 s = refl

  -- A payload matches the hash that is stored for it.
  pub payload_hash_matches_self :
      (input : HashInput) → payload_hash_matches p (transactional_payload_hash p input) input ≡ true
  unfolding payload_hash_matches transactional_payload_hash
  payload_hash_matches_self input = rw (starts_with_v2 _) (===_refl _)

  abbrev pub original_answer : Prepared → RequestRow → TransactionalSendResult
  original_answer q r = record {
    status = map_db_status_to_response r.status;
    request_id = r.request_id;
    key_id = q.key_id;
    provider_message_id = r.provider_message_id;
    error = none;
  }

  abbrev pub conflict_answer : Prepared → RequestRow → TransactionalSendResult
  conflict_answer q r = record {
    status = idempotency_conflict;
    request_id = r.request_id;
    key_id = q.key_id;
    provider_message_id = none;
    error = some idempotency_key_already_used_with_different_payload;
  }

  replay_same :
      (q : Prepared) (r : RequestRow)
      → r.payload_hash ≡ transactional_payload_hash p (hash_input q)
      → replay p q r ≡ original_answer q r
  unfolding replay
  replay_same q r e = rw (e, replay, payload_hash_matches_self (hash_input q))

  replay_other :
      (q : Prepared) (r : RequestRow)
      → payload_hash_matches p r.payload_hash (hash_input q) ≡ false
      → replay p q r ≡ conflict_answer q r
  unfolding replay
  replay_other q r e = rw (e, replay)

  -- What a call under the idempotency key of a request finds, however many calls later.
  pub record Remembered (q : Prepared) (env : Surroundings) (m : Mailbox) : Type 0 where
    pub row : RequestRow
    pub found : get_transactional_request m q.key_id q.client_idempotency_key ≡ some row
    pub request_id : row.request_id ≡ env.request_id
    pub payload_hash : row.payload_hash ≡ transactional_payload_hash p (hash_input q)

  remembered :
      (q : Prepared) (env : Surroundings) (m : Mailbox) (usage : List UsageRow)
      (os : List Operation)
      → Dispatched p q env m usage
      → AllFresh p os (submit p q env m).0
      → Remembered q env (apply_all p os (submit p q env m).0)
  unfolding new_row
  remembered q env m usage os d fresh =
      let taken : get_transactional_request (submit p q env m).0 q.key_id q.client_idempotency_key
          ≡ some (settled_row p q env d.status) =
        rw d.answer d.row in
      let (s, found, a) =
        (apply_all-Keeps p os (submit p q env m).0 fresh).kept q.key_id q.client_idempotency_key
          (settled_row p q env d.status) taken in
      record { row = s; found = found; request_id = a.request_id; payload_hash = a.payload_hash }

  -- The answer to a call under the idempotency key of a remembered request, by the two payloads.
  answer_same :
      (q again : Prepared) (env later : Surroundings) (m : Mailbox)
      → (r : Remembered q env m) → again.key_id ≡ q.key_id
      → again.client_idempotency_key ≡ q.client_idempotency_key
      → transactional_payload_hash p (hash_input again)
        ≡ transactional_payload_hash p (hash_input q)
      → submit p again later m ≡ (m, some (original_answer again r.row))
  answer_same q again env later m r key idem same =
      submit_taken p again later m r.row (rw (key, idem) r.found)
      ∙ ap (λ x. (m, some x)) (replay_same again r.row (r.payload_hash ∙ sym same))

  stored_differs :
      (s : Text) (input : HashInput)
      → s ≢ transactional_payload_hash p input
      → starts_with s (ascii "v2:") ≡ true
      → payload_hash_matches p s input ≡ false
  unfolding payload_hash_matches
  stored_differs s input ne h =
      rw (h, payload_hash_matches) (ground (arith, ===_iff s (transactional_payload_hash p input)))

  answer_other :
      (q again : Prepared) (env later : Surroundings) (m : Mailbox)
      → (r : Remembered q env m) → again.key_id ≡ q.key_id
      → again.client_idempotency_key ≡ q.client_idempotency_key
      → transactional_payload_hash p (hash_input q)
        ≢ transactional_payload_hash p (hash_input again)
      → submit p again later m ≡ (m, some (conflict_answer again r.row))
  unfolding transactional_payload_hash
  answer_other q again env later m r key idem differs =
      submit_taken p again later m r.row (rw (key, idem) r.found)
      ∙ ap (λ x. (m, some x))
          (replay_other again r.row (
            ap (λ h. payload_hash_matches p h (hash_input again)) r.payload_hash
            ∙ stored_differs _ (hash_input again) differs (starts_with_v2 _)))

  module _ (q : Prepared) (env : Surroundings) (m : Mailbox) (usage : List UsageRow)
      (os : List Operation) (again : Prepared) (later : Surroundings) where
    -- After an email went out, and after any further calls with new request ids, a second call under
    -- the same key and idempotency key whose payload has the same hash, once it is behind the checks,
    -- changes nothing, and is answered without an error: with the first call's request id and what
    -- the row of that request now tells. A call that a check refuses is not covered.
    pub submit-answers_again :
        get_transactional_request m q.key_id q.client_idempotency_key ≡ none
        → IsFresh env.request_id m
        → check_and_increment_quota q.key q.key_id env.quota_at m.api_key_usage ≡ some usage
        → AllFresh p os (submit p q env m).0
        → again.key_id ≡ q.key_id
        → again.client_idempotency_key ≡ q.client_idempotency_key
        → transactional_payload_hash p (hash_input again)
          ≡ transactional_payload_hash p (hash_input q)
        → let now = apply_all p os (submit p q env m).0 in
          (row : RequestRow) × (get_transactional_request now q.key_id q.client_idempotency_key
            ≡ some row)
          × (row.request_id ≡ env.request_id)
          × (submit p again later now ≡ (now, some (original_answer again row)))
    submit-answers_again free fresh charged news key idem same =
        let now = apply_all p os (submit p q env m).0 in
        let r =
          remembered q env m usage os (submit_fresh p q env m usage free fresh charged) news in
        (r.row, r.found, r.request_id, answer_same q again env later now r key idem same)

    -- After an email went out, and after any further calls with new request ids, a second call under
    -- the same key and idempotency key whose payload has another hash, once it is behind the checks,
    -- changes nothing, and is answered with a conflict that names the first call's request id. A call
    -- that a check refuses is not covered.
    pub submit-conflicts :
        get_transactional_request m q.key_id q.client_idempotency_key ≡ none
        → IsFresh env.request_id m
        → check_and_increment_quota q.key q.key_id env.quota_at m.api_key_usage ≡ some usage
        → AllFresh p os (submit p q env m).0
        → again.key_id ≡ q.key_id
        → again.client_idempotency_key ≡ q.client_idempotency_key
        → transactional_payload_hash p (hash_input q)
          ≢ transactional_payload_hash p (hash_input again)
        → let now = apply_all p os (submit p q env m).0 in
          (row : RequestRow) × (row.request_id ≡ env.request_id)
          × (submit p again later now ≡ (now, some (conflict_answer again row)))
    submit-conflicts free fresh charged news key idem differs =
        let now = apply_all p os (submit p q env m).0 in
        let r =
          remembered q env m usage os (submit_fresh p q env m usage free fresh charged) news in
        (r.row, r.request_id, answer_other q again env later now r key idem differs)
