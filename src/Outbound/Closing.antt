-- ===== src/Outbound/Closing.antt =====
-- src/lib/outbound-send.ts with confirmSendDraft of src/do/mailbox-do.ts: what the ledger says of a send.
use mathlib.Core.Option
use reccado.Prelude.{
  ◌≤◌, ◌≡◌, ◌≢◌, refl, ◌∙◌, ap, Bool, true, false, Option, none, some, [], ◌∷◌, any, find, arith,
  if◌then◌else◌, find-update_where, find-append_none, find_sound, Bool-cases, inl, inr, ltb,
}
use reccado.Text.{Text, ascii, ===_refl}
use reccado.ApiKey.{Instant}
use reccado.Dispatch.{extract_provider_message_id}
use reccado.Identity.{SenderIdentity}
use reccado.Inbox.{Inbox, DraftRow, MessageRow, MetaValue}
use reccado.Draft.{find_draft, value_or}
use reccado.Draft.Confirm.{
  ConfirmReply, ReplyStatus, done, replied, plain_reply, Flight, find_meta, draft_gate, is_pending,
  recipient_count, max_recipients, claim_gate, confirm_unmarked, begin_confirm, flight_for,
}
use reccado.Draft.Settle.{
  SendOutcome, returned, threw, Ending, is_ambiguous, error_message, sent_copy, clashes,
  record_sent, sent_answer, doubt_answer, record_doubt, record_refusal, settle_confirm,
}
use reccado.Draft.Flights.{http_status_of_message, confirm_http_status}
use reccado.Draft.Gate.{HasMeta, has, insert_meta-HasMeta}
use reccado.Draft.Thread.{find_thread_parent}
use reccado.Draft.Begin.{delete-insert_meta, flight_for-fields}
use reccado.Draft.Answered.{provider_id_of}
use reccado.Outbound.{
  Ledger, http, OutboundSendRow, IndexRow, SendStatus, sending, sent, failed, unknown, has_send_key,
  with_outcome, get_outbound_send, update_outbound_send_status, create_outbound_send_if_missing,
  upsert_message_index, insert_ops_event,
}
use reccado.Outbound.Confirm.{
  sent_id, index_row, index_copy, refresh_card, ConfirmInput, answered, proceeds, existing_reply,
  open_send, response_of, close_sent, close_ambiguous, close_duplicate, close_reply, close_send,
  record_confirmed, sending_reply, new_send,
}

-- The row under a key, with its status.
pub data HasStatus (key : Text) (status : SendStatus) (l : Ledger) : Type 0 where
  row :
      (r : OutboundSendRow)
      → get_outbound_send l key ≡ some r
      → r.status ≡ status
      → HasStatus key status l

update-HasStatus :
    (key : Text) (status : SendStatus) (id : Option Text) (code : _) (now : Instant) (l : Ledger)
    (old : SendStatus)
    → HasStatus key old l
    → HasStatus key status (update_outbound_send_status key status id code now l)
unfolding update_outbound_send_status get_outbound_send
update-HasStatus key status id code now l old (row r e h) =
    let p : OutboundSendRow → Bool = has_send_key key in
    let f : OutboundSendRow → OutboundSendRow = with_outcome status id code now in
    let here : p r ≡ true = find_sound p l.outbound_sends r e in
    row (f r)
      (find-update_where p p f l.outbound_sends (λ x. refl)
        ∙ ap (Option.map (λ a. if p a then f a else a)) e
        ∙ ap (λ b. some (if b then f r else r)) here)
      refl

record_confirmed-sends :
    (i : ConfirmInput) (l : Ledger) → (record_confirmed i l).outbound_sends ≡ l.outbound_sends
unfolding record_confirmed insert_ops_event
record_confirmed-sends i l = ground arith

create-row :
    (r : OutboundSendRow) (l : Ledger)
    → get_outbound_send l r.idempotency_key ≡ none
    → get_outbound_send (create_outbound_send_if_missing r l).0 r.idempotency_key ≡ some r
unfolding create_outbound_send_if_missing get_outbound_send find
create-row r l e =
    rw (e, create_outbound_send_if_missing)
      (find-append_none (has_send_key r.idempotency_key) l.outbound_sends (r ∷ []) e
        ∙ ap (λ b. if b then some r else none) (===_refl r.idempotency_key))

opened_row :
    (i : ConfirmInput) (l : Ledger)
    → get_outbound_send l i.key ≡ none
    → get_outbound_send (open_send true i l).0 i.key ≡ some (new_send i)
unfolding open_send get_outbound_send
opened_row i l e =
    rw (e, open_send, record_confirmed-sends i (create_outbound_send_if_missing (new_send i) l).0)
      (create-row (new_send i) l e)

-- A send is opened once: a call that goes on with a new key leaves a row that says `sending`, and
-- while it does a second call under the key changes nothing and is told that the first one sends.
pub open_send-once :
    (i j : ConfirmInput) (l : Ledger)
    → get_outbound_send l i.key ≡ none
    → j.key ≡ i.key
    → let (m, gate) = open_send true i l in
      (gate ≡ proceeds)
      × HasStatus i.key sending m
      × (open_send true j m ≡ (m, answered (sending_reply j.draft_id)))
unfolding open_send existing_reply
open_send-once i j l e same =
    let opened = opened_row i l e in
    let again : get_outbound_send (open_send true i l).0 j.key ≡ some (new_send i) =
      rw same opened in
    (rw (e, open_send) refl, row (new_send i) opened refl, rw again refl)

upsert_message_index-sends :
    (r : IndexRow) (l : Ledger) → (upsert_message_index r l).outbound_sends ≡ l.outbound_sends
unfolding upsert_message_index
upsert_message_index-sends r l = ground arith

module _ (key : Text) (status : SendStatus) where
  same-HasStatus :
      (l m : Ledger)
      → m.outbound_sends ≡ l.outbound_sends
      → HasStatus key status l
      → HasStatus key status m
  unfolding get_outbound_send
  same-HasStatus l m e (row r found h) = row r (rw e found) h

  index_copy-HasStatus :
      (i : ConfirmInput) (local_id : Text) (copy : Option MessageRow) (l : Ledger)
      → HasStatus key status l
      → HasStatus key status (index_copy i local_id copy l)
  index_copy-HasStatus i local_id none l h = h
  index_copy-HasStatus i local_id (some c) l h =
      same-HasStatus l _ (upsert_message_index-sends (index_row i local_id c) l) h

  refresh_card-HasStatus :
      (thread_id : Option Text) (l : Ledger)
      → HasStatus key status l
      → HasStatus key status (refresh_card thread_id l)
  refresh_card-HasStatus none l h = h
  refresh_card-HasStatus (some thread_id) l h = same-HasStatus l _ refl h

sent_id-named : (s : Text) → s ≢ [] → sent_id true (some s) ≡ some s
sent_id-named [] h = absurd (h refl)
sent_id-named (c ∷ s) h = refl

-- What the ledger is to say of a send, by what the provider did.
unfoldable pub closes_as : SendOutcome → SendStatus
closes_as (returned reply) = sent
closes_as (threw failure) = if is_ambiguous failure then unknown else failed

module _ (i : ConfirmInput) (l : Ledger) (old : SendStatus) (there : HasStatus i.key old l) where
  close_sent-HasStatus :
      (reply : ConfirmReply) (local_id : Text)
      → HasStatus i.key sent (close_sent i reply local_id l)
  unfolding close_sent
  close_sent-HasStatus reply local_id = refresh_card-HasStatus i.key sent reply.thread_id _ (
      index_copy-HasStatus i.key sent i local_id reply.copy _ (
        update-HasStatus i.key sent (some (value_or reply.provider_message_id i.key)) none i.now l
          old there))

  close_ambiguous-HasStatus :
      (reply : ConfirmReply) → HasStatus i.key unknown (close_ambiguous i reply l)
  unfolding close_ambiguous insert_ops_event
  close_ambiguous-HasStatus reply =
      same-HasStatus i.key unknown _ _ refl
        (update-HasStatus i.key unknown none _ i.now l old there)

  -- A confirmed draft went to the provider, its sent copy has an id that is not empty and clashes with
  -- no stored message, and the mailbox's response reaches the ledger. Then the ledger's row, which was
  -- there before, says `sent` where the provider answered, `unknown` where it may have taken the mail,
  -- and `failed` where it did not.
  pub close_send-tells :
      (f : Flight) (outcome : SendOutcome) (e : Ending) (n : Inbox)
      → e.message_local_id ≢ []
      → any (clashes (sent_copy f (provider_id_of outcome) e)) n.messages ≡ false
      → HasStatus i.key
          (closes_as outcome)
          (close_send i (response_of (settle_confirm f outcome e n).1) l)
  unfolding settle_confirm closes_as close_send provider_id_of response_of record_refusal
      record_doubt record_sent confirm_http_status close_reply
  close_send-tells f (returned reply) e n named new =
      let row = sent_copy f (extract_provider_message_id reply) e in
      rw (new, record_sent, sent_id-named e.message_local_id named)
        (close_sent-HasStatus (sent_answer f (extract_provider_message_id reply) e row)
          e.message_local_id)
  close_send-tells f (threw failure) e n named new = elim (Bool-cases (is_ambiguous failure)) [
    | inl h ↦
        rw (h, settle_confirm) (close_ambiguous-HasStatus (doubt_answer f (error_message failure)))
    | inr h ↦
        rw (h, settle_confirm)
          (update-HasStatus i.key failed none
            (some (http (http_status_of_message (error_message failure)))) i.now l old there)
  ]

-- What `confirmSendDraft` answers where another call has claimed the draft.
abbrev pub claimed_reply : Text → ConfirmReply
claimed_reply draft_id = record (plain_reply draft_id ReplyStatus.sent) {
  duplicate = true;
  reason = some (ascii "already_sending");
}

claim_held :
    (f : Flight) (claimed_at : Instant) (m : Inbox)
    → find_meta m f.key ≡ none
    → HasMeta m (draft_gate f.draft.id)
    → claim_gate f claimed_at m ≡ (m, done (replied (claimed_reply f.draft.id)))
unfolding claim_gate
claim_held f claimed_at m unmarked gate =
    elim (insert_meta-HasMeta (draft_gate f.draft.id) f.key MetaValue.sending f.now m gate) [
      | has held e ↦
          rw (e, claim_gate)
            (ap (λ n. (n, done (replied (claimed_reply f.draft.id))))
              (delete-insert_meta f.key MetaValue.sending f.now m unmarked))
    ]

claimed_answer :
    (identity : SenderIdentity) (draft_id key new_thread_id : Text) (now claimed_at : Instant)
    (m : Inbox) (d : DraftRow)
    → find_draft m draft_id ≡ some d
    → is_pending d.status ≡ true
    → recipient_count d ≤ max_recipients
    → find_meta m key ≡ none
    → HasMeta m (draft_gate d.id)
    → begin_confirm identity draft_id key new_thread_id now claimed_at m
      ≡ (m, done (replied (claimed_reply d.id)))
unfolding begin_confirm confirm_unmarked
claimed_answer identity draft_id key new_thread_id now claimed_at m d e pending few unmarked gate =
    let parent = find_thread_parent m d.thread_id d.parent_message_id in
    let f : Flight = flight_for d key new_thread_id identity now parent in
    let (same, own) =
      flight_for-fields draft_id key claimed_at m d new_thread_id identity now parent in
    let few_enough : ltb max_recipients (recipient_count d) ≡ false = ground arith in
    rw (e, unmarked, begin_confirm, pending, few_enough, confirm_unmarked)
      (claim_held f claimed_at m (rw own unmarked) (rw same gate)
        ∙ ap (λ x. (m, done (replied (claimed_reply x.id)))) same)

-- Another attempt to send a draft, while the first one's outcome is not known: the draft is pending
-- with at most 50 recipients, a call has claimed it, and the key is new. The attempt sends nothing
-- and changes nothing in the mailbox, yet it is answered with the status `sent`, and the ledger's
-- row of the attempt then says `sent`.
pub attempt_in_doubt-told_sent :
    (identity : SenderIdentity) (i : ConfirmInput) (new_thread_id : Text) (now claimed_at : Instant)
    (m : Inbox) (d : DraftRow) (l : Ledger)
    → find_draft m i.draft_id ≡ some d
    → is_pending d.status ≡ true
    → recipient_count d ≤ max_recipients
    → find_meta m i.key ≡ none
    → HasMeta m (draft_gate d.id)
    → HasStatus i.key sending l
    → (begin_confirm identity i.draft_id i.key new_thread_id now claimed_at m
        ≡ (m, done (replied (claimed_reply d.id))))
      × HasStatus i.key sent (close_send i (response_of (replied (claimed_reply d.id))) l)
unfolding close_send response_of confirm_http_status close_reply close_duplicate
attempt_in_doubt-told_sent identity i new_thread_id now claimed_at m d l e pending few unmarked gate
      there =
    (
      claimed_answer identity i.draft_id i.key new_thread_id now claimed_at m d e pending few
          unmarked gate,
      update-HasStatus i.key sent (some i.key) none i.now l sending there,
    )
