-- ===== src/Tests/Drafts.antt =====
-- Drafts, their confirmation and the ledger of sends at concrete inputs.
use mathlib.Core.List.{cons≢nil}
use reccado.Prelude.{
  ℕ, ◌*◌, suc, ◌+◌, ◌≤◌, ◌≡◌, refl, arith, true, none, some, List, [], ◌∷◌, length, min,
}
use reccado.Text.{to_lower, Text, ascii, trim}
use reccado.Dispatch.{ProviderReply, Field}
use reccado.Identity.{SenderEnv, SenderIdentity, resolve_sender_identity}
use reccado.Identity.Sender.{
  MayLeaveAs, answer_address, IsUsableName, resolve_sender_identity-honest,
}
use reccado.Mime.{strip_once, strip_loop, normalize_subject}
use reccado.Mime.Subject.{strip_loop-ends}
use reccado.Inbox.{Inbox, DraftRow, DraftStatus, MetaValue, empty}
use reccado.Draft.{DraftInput}
use reccado.Draft.Confirm.{
  Flight, done, departed, replied, marker_reply, insert_meta, draft_gate, begin_confirm,
}
use reccado.Draft.Settle.{SendOutcome, returned, threw, SendError, Ending, settle_confirm}
use reccado.Draft.Gate.{has}
use reccado.Draft.Kept.{drafted}
use reccado.Draft.Begin.{Beginning, begin_confirm-Beginning, Departure}
use reccado.Draft.Again.{refusal-restores}
use reccado.Draft.Answered.{lasting_marker, settle_confirm-remembered}
use reccado.Draft.Flights.{
  Operation, create, request_send, confirm, settle, ConfirmRequest, started, apply, apply_all,
  waiting, arrived,
}
use reccado.Draft.Stage.{idle, at_idle}
use reccado.Draft.Once.{Next}
use reccado.Draft.Moves.{apply-Next}
use reccado.Draft.Single.{sends_of_draft-le_one}
use reccado.Outbound.{Ledger, sending, sent}
use reccado.Outbound.Confirm.{
  ConfirmInput, proceeds, answered, new_send, sending_reply, open_send, response_of, close_send,
}
use reccado.Outbound.Closing.{
  HasStatus, row, claimed_reply, open_send-once, close_send-tells, attempt_in_doubt-told_sent,
}
use reccado.Outbound.Sweep.{stale_sending_sweep_limit, stale_count, reconcile_stale_outbound_sends}
use reccado.Outbound.Progress.{sweep_all, sweep_all-progress}

abbrev pub letter : DraftInput
letter = record {
  thread_id = none;
  parent_message_id = none;
  to = some (ascii "ann@example.org" ∷ []);
  cc = none;
  bcc = none;
  subject = some (ascii "Hello");
  body_text = some (ascii "Hi Ann");
  body_html = none;
  created_by = none;
  idempotency_key = none;
}

abbrev pub request : ConfirmRequest
request = record {
  env = record { mail_from_address = some (ascii "post@example.com"); mail_sending_domains = none };
  mailbox_address = some (ascii "bo@example.com");
  display_name = none;
  new_thread_id = ascii "t1";
  now = 30;
  claimed_at = 31;
}

abbrev pub ending : Ending
ending = record {
  message_local_id = ascii "m1";
  failed_at = 40;
  body_html_r2_key = none;
  raw_sha256 = ascii "00";
}

abbrev pub taken : SendOutcome
taken = returned (ProviderReply.object (Field.text (ascii "<p1@relay>")) Field.other Field.other)

abbrev refused : SendOutcome
refused = threw (SendError.error (ascii "mailbox unavailable"))

-- The draft is refused under one key, sent under another, and confirmed twice more.
abbrev story : List Operation
story =
    create letter (ascii "d1") 10
    ∷ request_send (ascii "d1") 20
    ∷ confirm request (ascii "d1") (ascii "a")
    ∷ settle 0 refused ending
    ∷ confirm request (ascii "d1") (ascii "b")
    ∷ confirm request (ascii "d1") (ascii "c")
    ∷ settle 0 taken ending
    ∷ confirm request (ascii "d1") (ascii "b")
    ∷ []

story_arrives : arrived (ascii "d1") (apply_all story (started empty)) ≡ 1
unfolding reccado.Prelude.any reccado.Dispatch.is_ambiguous_provider_error reccado.Draft.add_draft
    reccado.Draft.create_draft reccado.Draft.request_send_draft reccado.Draft.Confirm.claim_gate
    reccado.Draft.Confirm.confirm_unmarked reccado.Draft.Confirm.begin_confirm
    reccado.Draft.Settle.is_ambiguous reccado.Draft.Settle.record_sent
    reccado.Draft.Settle.record_refusal reccado.Draft.Settle.settle_confirm
    reccado.Draft.Flights.confirm_send reccado.Draft.Flights.confirm_http_status
    reccado.Draft.Flights.apply reccado.Draft.Flights.apply_all reccado.Draft.Flights.arrived
story_arrives = refl

sends_of_draft-le_one_example :
    let s = apply_all story (started empty) in waiting (ascii "d1") s + arrived (ascii "d1") s ≤ 1
sends_of_draft-le_one_example = sends_of_draft-le_one (ascii "d1") story empty

-- A mailbox with the draft, which waits for its confirmation.
abbrev waiting_draft : DraftRow
waiting_draft = record {
  id = ascii "d1";
  thread_id = none;
  parent_message_id = none;
  to = ascii "ann@example.org" ∷ [];
  cc = [];
  bcc = [];
  subject = ascii "Hello";
  body_text = some (ascii "Hi Ann");
  body_html = none;
  status = DraftStatus.pending_confirmation;
  created_by = ascii "user";
  created_at = 10;
  updated_at = 20;
  idempotency_key = none;
}

abbrev before : Inbox
before = record empty { outbound_drafts = waiting_draft ∷ [] }

abbrev bo : SenderIdentity
bo = record {
  from = ascii "post@example.com";
  from_name = none;
  reply_to = some (ascii "bo@example.com");
}

abbrev key : Text
key = ascii "send:v1:d1:a"

abbrev flight : Flight
flight = record {
  draft = waiting_draft;
  key = key;
  thread_id = ascii "t1";
  in_reply_to = none;
  references = [];
  identity = bo;
  now = 30;
}

abbrev claimed : Inbox
claimed =
    insert_meta (draft_gate (ascii "d1")) (MetaValue.text key) 31
      (insert_meta key MetaValue.sending 30 before)

abbrev departure : Departure (ascii "d1") key 31 before claimed flight
unfolding reccado.Draft.Confirm.recipient_count reccado.Draft.Confirm.claim_gate
    reccado.Draft.Flights.confirm_send
departure = record {
  row = refl;
  pending = refl;
  few = omega arith;
  own_key = refl;
  unmarked = refl;
  unclaimed = refl;
  claims = refl;
}

departs_so :
    begin_confirm bo (ascii "d1") key (ascii "t1") 30 31 before ≡ (claimed, departed flight)
unfolding reccado.Draft.Confirm.claim_gate reccado.Draft.Confirm.confirm_unmarked
    reccado.Draft.Confirm.begin_confirm reccado.Draft.Flights.confirm_send
departs_so = refl

apply-Next_example :
    Next (ascii "d1") (apply (confirm request (ascii "d1") (ascii "a")) (started before)) idle
unfolding reccado.Draft.Flights.apply_all reccado.Draft.Flights.waiting
    reccado.Draft.Flights.arrived
apply-Next_example =
    apply-Next (ascii "d1") (confirm request (ascii "d1") (ascii "a")) (started before) idle tt
      (at_idle refl refl)

begin_confirm-Beginning_example :
    Beginning
      (ascii "d1")
      key
      31
      before
      (begin_confirm bo (ascii "d1") key (ascii "t1") 30 31 before)
begin_confirm-Beginning_example =
    begin_confirm-Beginning (ascii "d1") key 31 before bo (ascii "t1") 30

abbrev unavailable : SendError
unavailable = SendError.error (ascii "mailbox unavailable")

refusal-restores_example : (settle_confirm flight (threw unavailable) ending claimed).0 ≡ before
unfolding reccado.Prelude.any reccado.Prelude.all reccado.Dispatch.is_ambiguous_provider_error
    reccado.Dispatch.find_marker reccado.Draft.Settle.is_ambiguous
    reccado.Draft.Settle.error_message reccado.Draft.Flights.http_status_of_message
    reccado.Draft.Flights.confirm_http_status
refusal-restores_example =
    refusal-restores (ascii "d1") key 31 before claimed flight departure unavailable ending refl

settle_confirm-remembered_example :
    let s = (settle_confirm flight taken ending claimed).0 in
    begin_confirm bo (ascii "d1") key (ascii "t2") 50 51 s
    ≡ (s, done (replied (marker_reply (ascii "d1") (lasting_marker taken))))
unfolding reccado.Prelude.any reccado.Draft.Confirm.claim_gate reccado.Draft.Flights.confirm_send
    reccado.Draft.Flights.apply
settle_confirm-remembered_example =
    settle_confirm-remembered flight ending claimed (has _ refl) (drafted waiting_draft refl) taken
      bo (ascii "t2") 50 51 refl refl refl

abbrev input : ConfirmInput
input = record {
  mailbox_id = ascii "mbx";
  draft_id = ascii "d1";
  key = key;
  approval_mode = none;
  new_id = ascii "o1";
  event_written = true;
  now = 30;
}

abbrev no_sends : Ledger
no_sends = record { outbound_sends = []; message_index = []; ops_events = []; card_refreshes = [] }

abbrev one_send : Ledger
one_send = record no_sends { outbound_sends = new_send input ∷ [] }

open_send-once_example :
    let (m, gate) = open_send true input no_sends in
    (gate ≡ proceeds)
    × HasStatus key sending m
    × (open_send true input m ≡ (m, answered (sending_reply (ascii "d1"))))
unfolding reccado.Outbound.Confirm.open_send reccado.Outbound.Confirm.response_of
    reccado.Outbound.Confirm.close_sent reccado.Outbound.Confirm.close_ambiguous
open_send-once_example = open_send-once input input no_sends refl refl

close_send-tells_example :
    HasStatus key sent
      (close_send input (response_of (settle_confirm flight taken ending claimed).1) one_send)
unfolding reccado.Outbound.Closing.closes_as reccado.Prelude.any reccado.Draft.Confirm.claim_gate
    reccado.Draft.Confirm.confirm_unmarked reccado.Outbound.Confirm.record_confirmed
    reccado.Outbound.Confirm.open_send
close_send-tells_example =
    close_send-tells input one_send sending (row (new_send input) refl refl) flight taken ending
      claimed (λ e. cons≢nil e) refl

-- The first attempt holds the draft; this is another one.
abbrev other_input : ConfirmInput
other_input = record input { key = ascii "send:v1:d1:b" }

attempt_in_doubt-told_sent_example :
    (begin_confirm bo (ascii "d1") other_input.key (ascii "t2") 50 51 claimed
      ≡ (claimed, done (replied (claimed_reply (ascii "d1")))))
    × HasStatus other_input.key sent (
        close_send other_input
          (response_of (replied (claimed_reply (ascii "d1"))))
          (record no_sends { outbound_sends = new_send other_input ∷ [] }))
unfolding reccado.Draft.Confirm.claim_gate reccado.Draft.Confirm.confirm_unmarked
    reccado.Draft.Flights.confirm_send reccado.Outbound.Confirm.open_send
attempt_in_doubt-told_sent_example =
    attempt_in_doubt-told_sent bo other_input (ascii "t2") 50 51 claimed waiting_draft
      (record no_sends { outbound_sends = new_send other_input ∷ [] }) refl refl (omega arith) refl
      (has _ refl) (row (new_send other_input) refl refl)

-- Two runs, a minute apart.
abbrev runs : List (ℕ × ℕ)
runs = (1000000, 1000001) ∷ (1060000, 1060001) ∷ []

sweep_all-progress_example :
    stale_count 400000 (sweep_all runs one_send)
      + min (stale_sending_sweep_limit * 2) (stale_count 400000 one_send)
    ≤ stale_count 400000 one_send
sweep_all-progress_example =
    sweep_all-progress 400000 runs one_send (ground arith, (ground arith, tt))

one_send_is_stale : stale_count 400000 one_send ≡ 1
unfolding stale_count reccado.Prelude.keep reccado.Outbound.Sweep.is_stale
    reccado.Outbound.Confirm.open_send reccado.Outbound.Confirm.record_confirmed
    reccado.Outbound.create_outbound_send_if_missing reccado.Outbound.get_outbound_send
    reccado.Outbound.insert_ops_event reccado.Prelude.find
one_send_is_stale = refl

strip_loop-ends_example :
    let s = trim (ascii " Re: Fwd: hello") in
    strip_once (strip_loop (suc (length s)) s) ≡ strip_loop (suc (length s)) s
strip_loop-ends_example = strip_loop-ends (ascii " Re: Fwd: hello")

hello_is_left : normalize_subject (some (ascii " Re: FWD:  Hello")) ≡ some (ascii "hello")
unfolding reccado.Draft.Settle.last_seq reccado.Draft.Settle.record_realtime_event
    reccado.Draft.Settle.add_message reccado.Draft.Settle.record_sent
hello_is_left = refl

abbrev shop_env : SenderEnv
shop_env = record {
  mail_from_address = some (ascii "post@example.com");
  mail_sending_domains = some (ascii "example.org, Shop.Example");
}

resolve_sender_identity-honest_example :
    let identity =
      resolve_sender_identity shop_env (some (ascii "Hi@shop.example ")) (some (ascii "Shop")) in
    MayLeaveAs shop_env identity.from
    × (to_lower (answer_address identity) ≡ ascii "hi@shop.example")
    × IsUsableName identity.from_name
unfolding reccado.Identity.normal_address reccado.Mime.normalize_subject
resolve_sender_identity-honest_example =
    resolve_sender_identity-honest shop_env (some (ascii "Hi@shop.example ")) (some (ascii "Shop"))
      (ascii "hi@shop.example") refl
