-- ===== src/Feedback.antt =====
-- src/lib/feedback-liveness.ts, with the statements it reads: readSenderFeedbackObservations of
-- src/db/d1.ts, and observeSenderFeedback and getTransactionalRequestStatus of
-- src/do/transactional-send-ops.ts. A sentence of the code is the value that it is made from.
pub mod Dark
pub mod Health
pub mod Summary
use reccado.Prelude.{
  is_some, ℕ, suc, ◌-◌, ◌*◌, Bool, true, false, ◌&&◌, ◌||◌, not, Option, none, some, List, [], ◌∷◌,
  any, all, map, drop, find, keep, if◌then◌else◌, leb, ltb, ◌==◌,
}
use reccado.Text.{Text, ◌===◌, to_lower, has_unit, contains}
use reccado.ApiKey.{Instant}
use reccado.Header.{last_index_of}
use reccado.Mailbox.{Mailbox, RequestRow, RequestStatus, ErrorCode, DeliveryStatus, Resolution}
use reccado.Payload.{text_le}

abbrev pub feedback_maturity_ms : ℕ
feedback_maturity_ms = 24 * 60 * 60 * 1000

abbrev pub feedback_lookback_ms : ℕ
feedback_lookback_ms = 30 * 24 * 60 * 60 * 1000

-- `feedbackMaturityCutoff`
abbrev pub feedback_maturity_cutoff : Instant → Instant
feedback_maturity_cutoff now = now - feedback_maturity_ms

-- `feedbackLookbackFloor`
abbrev pub feedback_lookback_floor : Instant → Instant
feedback_lookback_floor now = now - feedback_lookback_ms

-- The columns that the statements read, of `transactional_requests` or of its log in D1.
pub record SendRow : Type 0 where
  pub status : RequestStatus
  pub sender : Text
  pub provider_message_id : Option Text
  pub delivery_event_at : Option Instant
  pub created_at : Instant

abbrev pub columns_of : RequestRow → SendRow
columns_of r = record {
  status = r.status;
  sender = r.sender;
  provider_message_id = r.provider_message_id;
  delivery_event_at = r.delivery_event_at;
  created_at = r.created_at;
}

pub record SenderFeedbackObservation : Type 0 where
  pub domain : Text
  pub dispatched : ℕ
  pub observed : ℕ
  pub last_event_at : Option Instant
  pub last_dispatch_at : Option Instant
  pub silent_mature_dispatches : ℕ
  pub last_silent_mature_at : Option Instant

-- The text behind the first `@`.
unfoldable pub after_at : Text → Text
after_at [] = []
after_at (c ∷ s) = let rest = after_at s in if c == b'@' then s else rest

-- `lower(substr(sender, instr(sender, '@') + 1))`
unfoldable pub sending_domain : SendRow → Text
unfolding has_unit after_at to_lower
sending_domain r = to_lower (if has_unit r.sender b'@' then after_at r.sender else r.sender)

abbrev pub is_sent : RequestStatus → Bool
is_sent RequestStatus.sent = true
is_sent _ = false

-- What a row must be to count: acknowledged by the provider, and recent.
unfoldable pub is_dispatch : Instant → SendRow → Bool
is_dispatch floor r = is_sent r.status && leb floor r.created_at && is_some r.provider_message_id

-- `delivery_event_at IS NULL AND created_at < ?`
abbrev pub is_silent : Instant → SendRow → Bool
is_silent cutoff r = not (is_some r.delivery_event_at) && ltb r.created_at cutoff

-- `SUM(CASE WHEN p THEN 1 ELSE 0 END)`, and 0 over no row
unfoldable pub count_where {ℓ} : {A : Type ℓ} → (A → Bool) → List A → ℕ
count_where p [] = 0
count_where p (x ∷ xs) = let rest = count_where p xs in if p x then suc rest else rest

abbrev pub later_of : Option Instant → Option Instant → Option Instant
later_of none t = t
later_of (some s) none = some s
later_of (some s) (some t) = some (if ltb s t then t else s)

-- `MAX(f)`, which passes over NULL
unfoldable pub max_of {ℓ} : {A : Type ℓ} → (A → Option Instant) → List A → Option Instant
max_of f [] = none
max_of f (x ∷ xs) = later_of (f x) (max_of f xs)

abbrev pub event_at : SendRow → Option Instant
event_at r = r.delivery_event_at

abbrev pub dispatch_at : SendRow → Option Instant
dispatch_at r = some r.created_at

abbrev pub silent_at : Instant → SendRow → Option Instant
silent_at cutoff r = if is_silent cutoff r then some r.created_at else none

-- The aggregates over the rows of one domain.
unfoldable pub observation_of : Text → Instant → List SendRow → SenderFeedbackObservation
unfolding count_where max_of
observation_of domain cutoff rows = record {
  domain = domain;
  dispatched = count_where (λ r. true) rows;
  observed = count_where (λ r. is_some r.delivery_event_at) rows;
  last_event_at = max_of event_at rows;
  last_dispatch_at = max_of dispatch_at rows;
  silent_mature_dispatches = count_where (is_silent cutoff) rows;
  last_silent_mature_at = max_of (silent_at cutoff) rows;
}

abbrev pub is_of_domain : Text → SendRow → Bool
is_of_domain domain r = sending_domain r === domain

-- The rows of the mailbox that the WHERE clause of `observeSenderFeedback` lets through.
unfoldable pub dispatches_of : Mailbox → Text → Instant → List SendRow
unfolding keep is_dispatch sending_domain ◌===◌
dispatches_of m domain floor =
    keep (λ r. is_dispatch floor r && is_of_domain domain r)
      (map columns_of m.transactional_requests)

-- `observeSenderFeedback`
unfoldable pub observe_sender_feedback : Mailbox → Text → Instant → Option SenderFeedbackObservation
unfolding last_index_of to_lower dispatches_of observation_of
observe_sender_feedback m sender now = elim (last_index_of sender b'@') [
  | none ↦ none
  | some at ↦
      (let domain = to_lower (drop (suc at) sender) in
        some (
          observation_of domain (feedback_maturity_cutoff now)
            (dispatches_of m domain (feedback_lookback_floor now))))
]

pub data FeedbackLivenessState : Type 0 where
  live unobserved never_observed went_dark : FeedbackLivenessState

-- `a > b` on the ISO texts, where null is the empty text
abbrev pub is_later : Option Instant → Option Instant → Bool
is_later none t = false
is_later (some s) none = true
is_later (some s) (some t) = ltb t s

-- `classifyFeedbackLiveness`
unfoldable pub classify_feedback_liveness : SenderFeedbackObservation → FeedbackLivenessState
classify_feedback_liveness o =
    if o.dispatched == 0
    then unobserved
    else if o.observed == 0
    then (if ltb 0 o.silent_mature_dispatches then never_observed else unobserved)
    else if o.silent_mature_dispatches == 0
    then live
    else if is_later o.last_silent_mature_at o.last_event_at
    then went_dark
    else live

pub data FeedbackReason : Type 0 where
  too_early : Text → FeedbackReason
  never_produced : Text → ℕ → FeedbackReason
  stopped : Text → Option Instant → ℕ → FeedbackReason

-- `describeFeedbackLiveness`
unfoldable pub describe_feedback_liveness : SenderFeedbackObservation → Option FeedbackReason
unfolding classify_feedback_liveness
describe_feedback_liveness o = elim (classify_feedback_liveness o) [
  | live ↦ none
  | unobserved ↦ some (too_early o.domain)
  | never_observed ↦ some (never_produced o.domain o.silent_mature_dispatches)
  | went_dark ↦ some (stopped o.domain o.last_event_at o.silent_mature_dispatches)
]

-- What `getTransactionalRequestStatus` answers.
pub record RequestStatusReply : Type 0 where
  pub status : RequestStatus
  pub provider_message_id : Option Text
  pub created_at : Instant
  pub error_code : Option ErrorCode
  pub delivery_status : Option DeliveryStatus
  pub delivery_event_at : Option Instant
  pub resolved_via : Option Resolution
  pub feedback_state : FeedbackLivenessState
  pub feedback_reason : Option FeedbackReason

abbrev pub state_of : Option SenderFeedbackObservation → FeedbackLivenessState
state_of none = unobserved
state_of (some o) = classify_feedback_liveness o

abbrev pub reason_of : Option SenderFeedbackObservation → Option FeedbackReason
reason_of none = none
reason_of (some o) = describe_feedback_liveness o

abbrev pub is_asked : Text → Text → RequestRow → Bool
is_asked request_id key_id r = r.request_id === request_id && r.key_id === key_id

-- `getTransactionalRequestStatus`
unfoldable pub get_transactional_request_status :
    Mailbox → Text → Text → Instant → Option RequestStatusReply
unfolding find ◌===◌ observe_sender_feedback classify_feedback_liveness describe_feedback_liveness
get_transactional_request_status m request_id key_id now =
    elim (find (is_asked request_id key_id) m.transactional_requests) [
      | none ↦ none
      | some r ↦
          (let observation = observe_sender_feedback m r.sender now in
            some (record {
              status = r.status;
              provider_message_id = r.provider_message_id;
              created_at = r.created_at;
              error_code = r.error_code;
              delivery_status = r.delivery_status;
              delivery_event_at = r.delivery_event_at;
              resolved_via = r.resolved_via;
              feedback_state = state_of observation;
              feedback_reason = reason_of observation;
            }))
    ]
