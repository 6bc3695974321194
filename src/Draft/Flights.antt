-- ===== src/Draft/Flights.antt =====
-- src/do/mailbox-do.ts: the draft routes of one mailbox, called in any order, also while sends wait for
-- the provider. A send that is never settled is one whose Durable Object went away.
use reccado.Prelude.{
  ℕ, zero, suc, Bool, true, Option, none, some, List, [], ◌∷◌, ◌++◌, length, keep, if◌then◌else◌,
}
use reccado.Text.{Text, ascii, ◌===◌, trim, to_lower, has_unit, includes}
use reccado.ApiKey.{Instant}
use reccado.Header.{non_empty, outbound_send_idempotency_key}
use reccado.Identity.{SenderEnv}
use reccado.Inbox.{Inbox, MetaValue}
use reccado.Draft.{
  DraftError, DraftInput, create_draft, update_draft, request_send_draft, cancel_draft,
}
use reccado.Draft.Thread.{resolve_reply_identity}
use reccado.Draft.Confirm.{
  ConfirmResult, replied, thrown, provider_threw, ambiguous, too_many_recipients, Begun, done,
  departed, Flight, find_meta, insert_meta, set_meta, begin_confirm,
}
use reccado.Draft.Settle.{SendOutcome, returned, threw, Ending, is_ambiguous, settle_confirm}

-- `INSERT … ON CONFLICT(key) DO UPDATE`
unfoldable pub put_meta : Text → MetaValue → Instant → Inbox → Inbox
put_meta key value now m = elim (find_meta m key) [
  | some row ↦ set_meta key value now m
  | none ↦ insert_meta key value now m
]

-- The text under a key that no marker uses.
unfoldable pub cached_text : Inbox → Text → Option Text
cached_text m key = elim (find_meta m key) [
  | none ↦ none
  | some row ↦ elim row.value [ MetaValue.text s ↦ some s | _ ↦ none ]
]

abbrev pub remember : Text → Option Text → Instant → Inbox → Inbox × Option Text
remember key none now m = (m, cached_text m key)
remember key (some s) now m = (put_meta key (MetaValue.text s) now m, some s)

abbrev pub address_candidate : Option Text → Option Text
address_candidate none = none
address_candidate (some provided) =
    if has_unit (to_lower (trim provided)) b'@' then some (to_lower (trim provided)) else none

-- `resolveMailboxAddress`
unfoldable pub resolve_mailbox_address : Option Text → Instant → Inbox → Inbox × Option Text
unfolding put_meta cached_text has_unit trim to_lower
resolve_mailbox_address provided now m =
    remember (ascii "primary_address") (address_candidate provided) now m

abbrev pub name_candidate : Option Text → Option Text
name_candidate none = none
name_candidate (some provided) = non_empty (trim provided)

-- `resolveMailboxDisplayName`
unfoldable pub resolve_mailbox_display_name : Option Text → Instant → Inbox → Inbox × Option Text
unfolding put_meta cached_text non_empty trim
resolve_mailbox_display_name provided now m =
    remember (ascii "display_name") (name_candidate provided) now m

-- What the confirm route is given: by the operator, by the request, and by the surroundings.
pub record ConfirmRequest : Type 0 where
  pub env : SenderEnv
  pub mailbox_address : Option Text
  pub display_name : Option Text
  pub new_thread_id : Text
  pub now : Instant
  pub claimed_at : Instant

-- The method `confirmSendDraft` of the Durable Object, up to the send
unfoldable pub confirm_send : ConfirmRequest → Text → Text → Inbox → Inbox × Begun
unfolding resolve_mailbox_address resolve_mailbox_display_name resolve_reply_identity
confirm_send r draft_id key m =
    let (m1, address) = resolve_mailbox_address r.mailbox_address r.now m in
    let (m2, name) = resolve_mailbox_display_name r.display_name r.now m1 in
    begin_confirm (resolve_reply_identity r.env m2 draft_id address name) draft_id key
      r.new_thread_id r.now r.claimed_at m2

-- `/not found/i.test(message) ? 404 : /required/i.test(message) ? 400 : 500`
unfoldable pub http_status_of_message : Text → ℕ
unfolding includes to_lower
http_status_of_message message =
    if includes (to_lower message) (ascii "not found")
    then 404
    else if includes (to_lower message) (ascii "required")
    then 400
    else 500

-- The status of the route's response; "draft not found" is one of the messages above.
unfoldable pub confirm_http_status : ConfirmResult → ℕ
unfolding http_status_of_message
confirm_http_status (replied reply) = elim reply.error [
  | none ↦ 200
  | some e ↦ elim e [ ambiguous ↦ 200 | too_many_recipients n ↦ 400 ]
]
confirm_http_status (thrown DraftError.draft_not_found) = 404
confirm_http_status (thrown DraftError.draft_idempotency_conflict_unresolved) = 500
confirm_http_status (thrown DraftError.constraint_failed) = 500
confirm_http_status (provider_threw message) = http_status_of_message message

-- The mailbox, the calls that wait for the provider, and the sends that it took or may have taken.
pub record System : Type 0 where
  pub inbox : Inbox
  pub in_flight : List Flight
  pub accepted : List Flight

abbrev pub started : Inbox → System
started m = record { inbox = m; in_flight = []; accepted = [] }

-- A confirmation comes with the attempt key, from which the caller makes the idempotency key.
pub data Operation : Type 0 where
  create : DraftInput → Text → Instant → Operation
  edit : Text → DraftInput → Instant → Operation
  request_send cancel : Text → Instant → Operation
  confirm : ConfirmRequest → Text → Text → Operation
  settle : ℕ → SendOutcome → Ending → Operation

unfoldable pub flight_at : ℕ → List Flight → Option Flight
flight_at n [] = none
flight_at zero (f ∷ flights) = some f
flight_at (suc n) (f ∷ flights) = flight_at n flights

unfoldable pub without : ℕ → List Flight → List Flight
without n [] = []
without zero (f ∷ flights) = flights
without (suc n) (f ∷ flights) = f ∷ without n flights

-- Whether the provider took the message, or may have.
unfoldable pub may_have_taken : SendOutcome → Bool
may_have_taken (returned reply) = true
may_have_taken (threw failure) = is_ambiguous failure

abbrev pub after_begin : System → Inbox × Begun → System
after_begin s (m, done result) = record s { inbox = m }
after_begin s (m, departed f) = record s { inbox = m; in_flight = s.in_flight ++ f ∷ [] }

abbrev pub settled : ℕ → SendOutcome → Ending → System → Option Flight → System
settled n outcome e s none = s
settled n outcome e s (some f) = record {
  inbox = (settle_confirm f outcome e s.inbox).0;
  in_flight = without n s.in_flight;
  accepted = if may_have_taken outcome then s.accepted ++ f ∷ [] else s.accepted;
}

unfoldable pub apply : Operation → System → System
unfolding without flight_at may_have_taken outbound_send_idempotency_key
apply (create body id now) s = record s { inbox = (create_draft body id now s.inbox).0 }
apply (edit draft_id body now) s = record s { inbox = (update_draft draft_id body now s.inbox).0 }
apply (request_send draft_id now) s = record s {
  inbox = (request_send_draft draft_id now s.inbox).0;
}
apply (cancel draft_id now) s = record s { inbox = (cancel_draft draft_id now s.inbox).0 }
apply (confirm r draft_id attempt_key) s =
    after_begin s
      (confirm_send r draft_id (outbound_send_idempotency_key draft_id attempt_key) s.inbox)
apply (settle n outcome e) s = settled n outcome e s (flight_at n s.in_flight)

unfoldable pub apply_all : List Operation → System → System
apply_all [] s = s
apply_all (o ∷ operations) s = apply_all operations (apply o s)

abbrev pub is_of_draft : Text → Flight → Bool
is_of_draft draft_id f = f.draft.id === draft_id

-- How many calls for the draft wait for the provider, and how many sends of it may have arrived.
unfoldable pub waiting : Text → System → ℕ
unfolding keep
waiting draft_id s = length (keep (is_of_draft draft_id) s.in_flight)

unfoldable pub arrived : Text → System → ℕ
unfolding keep
arrived draft_id s = length (keep (is_of_draft draft_id) s.accepted)
