-- ===== src/Feedback/Summary.antt =====
-- src/lib/feedback-liveness.ts: the status of all sending domains, over the log that D1 keeps of the
-- requests, with readSenderFeedbackObservations of src/db/d1.ts.
use reccado.Prelude.{
  Bool, true, false, ◌&&◌, Option, none, some, List, [], ◌∷◌, any, map, keep, if◌then◌else◌,
}
use reccado.Text.{Text, ◌===◌, has_unit, contains}
use reccado.ApiKey.{Instant}
use reccado.Payload.{text_le}
use reccado.Feedback.{
  SendRow, SenderFeedbackObservation, FeedbackLivenessState, unobserved, never_observed, went_dark,
  FeedbackReason, feedback_maturity_cutoff, feedback_lookback_floor, sending_domain, is_dispatch,
  is_of_domain, observation_of, classify_feedback_liveness, describe_feedback_liveness,
}

-- The domains of the groups, in the order of the texts.
unfoldable pub insert_domain : Text → List Text → List Text
unfolding text_le ◌===◌
insert_domain domain [] = domain ∷ []
insert_domain domain (d ∷ domains) =
    let rest = insert_domain domain domains in
    if domain === d
    then d ∷ domains
    else if text_le domain d
    then domain ∷ d ∷ domains
    else d ∷ rest

unfoldable pub domains_of : List SendRow → List Text
unfolding insert_domain sending_domain
domains_of [] = []
domains_of (r ∷ rows) = insert_domain (sending_domain r) (domains_of rows)

-- `instr(sender, '@') > 0`, with the other conditions
unfoldable pub is_logged_dispatch : Instant → SendRow → Bool
unfolding is_dispatch has_unit
is_logged_dispatch floor r = is_dispatch floor r && has_unit r.sender b'@'

unfoldable pub logged_dispatches : Instant → List SendRow → List SendRow
unfolding keep is_logged_dispatch
logged_dispatches floor log = keep (is_logged_dispatch floor) log

abbrev pub group_of : Text → List SendRow → List SendRow
group_of domain rows = keep (is_of_domain domain) rows

-- `readSenderFeedbackObservations`
unfoldable pub read_sender_feedback_observations :
    List SendRow → Instant → Instant → List SenderFeedbackObservation
unfolding domains_of logged_dispatches observation_of
read_sender_feedback_observations log cutoff floor =
    let rows = logged_dispatches floor log in
    map (λ domain. observation_of domain cutoff (group_of domain rows)) (domains_of rows)

pub record DomainStatus : Type 0 where
  pub observation : SenderFeedbackObservation
  pub state : FeedbackLivenessState
  pub reason : Option FeedbackReason

pub data FeedbackMode : Type 0 where
  no_sends observing live dark : FeedbackMode

-- The sentence of a mode; of a dark one it joins those of the dark domains.
pub data SummaryReason : Type 0 where
  nothing_dispatched not_yet_decidable : SummaryReason
  dark_domains : List (Option FeedbackReason) → SummaryReason

-- Less `maturityHours`, a constant.
pub record SendingFeedbackStatus : Type 0 where
  pub mode : FeedbackMode
  pub ok : Bool
  pub reason : Option SummaryReason
  pub dark : List Text
  pub domains : List DomainStatus

-- The two states of a channel that does not answer.
abbrev pub is_dark : FeedbackLivenessState → Bool
is_dark FeedbackLivenessState.live = false
is_dark unobserved = false
is_dark never_observed = true
is_dark went_dark = true

abbrev pub is_live_state : FeedbackLivenessState → Bool
is_live_state FeedbackLivenessState.live = true
is_live_state _ = false

abbrev pub status_of : SenderFeedbackObservation → DomainStatus
status_of o = record {
  observation = o;
  state = classify_feedback_liveness o;
  reason = describe_feedback_liveness o;
}

abbrev pub dark_names : List DomainStatus → List Text
dark_names domains = map (λ d. d.observation.domain) (keep (λ d. is_dark d.state) domains)

-- The branches of the summary.
unfoldable pub summary_of : List DomainStatus → List Text → SendingFeedbackStatus
unfolding keep any contains
summary_of [] names = record {
  mode = no_sends;
  ok = true;
  reason = some nothing_dispatched;
  dark = [];
  domains = [];
}
summary_of (d ∷ domains) [] =
    if any (λ d. is_live_state d.state) (d ∷ domains)
    then record { mode = live; ok = true; reason = none; dark = []; domains = d ∷ domains }
    else record {
      mode = observing;
      ok = true;
      reason = some not_yet_decidable;
      dark = [];
      domains = d ∷ domains;
    }
summary_of (d ∷ domains) (name ∷ names) = record {
  mode = dark;
  ok = false;
  reason = some (
      dark_domains (
        map (λ d. d.reason)
          (keep (λ d. contains (name ∷ names) d.observation.domain) (d ∷ domains))));
  dark = name ∷ names;
  domains = d ∷ domains;
}

-- `summarizeSendingFeedback`
unfoldable pub summarize_sending_feedback : List SenderFeedbackObservation → SendingFeedbackStatus
unfolding summary_of classify_feedback_liveness describe_feedback_liveness keep
summarize_sending_feedback observations =
    let domains = map status_of observations in summary_of domains (dark_names domains)

-- `getSendingFeedbackStatus`
unfoldable pub get_sending_feedback_status : List SendRow → Instant → SendingFeedbackStatus
unfolding summarize_sending_feedback read_sender_feedback_observations
get_sending_feedback_status log now = summarize_sending_feedback (
    read_sender_feedback_observations log (feedback_maturity_cutoff now)
      (feedback_lookback_floor now))
