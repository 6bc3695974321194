-- ===== src/Tests/Reports.antt =====
-- src/lib/feedback-liveness.ts: concrete runs of the status of sending domains.
use reccado.Prelude.{◌≡◌, refl, false, Option, none, some, List, [], ◌∷◌}
use reccado.Text.{ascii}
use reccado.ApiKey.{Instant}
use reccado.Mailbox.{RequestStatus}
use reccado.Feedback.{
  SendRow, FeedbackLivenessState, went_dark, never_observed, observation_of,
  classify_feedback_liveness,
}
use reccado.Feedback.Dark.{classify-verdict}
use reccado.Feedback.Summary.{get_sending_feedback_status}
use reccado.Feedback.Health.{get_sending_feedback_status-ok}

abbrev forty_days : Instant
forty_days = 3456000000

abbrev sent_at : Instant → Option Instant → SendRow
sent_at created_at event = record {
  status = RequestStatus.sent;
  sender = ascii "No@B.io";
  provider_message_id = some (ascii "p1");
  delivery_event_at = event;
  created_at = created_at;
}

-- The second send has no event, and is later than the event of the first.
abbrev log : List SendRow
log = sent_at 3000000000 (some 3000000500) ∷ sent_at 3100000000 none ∷ []

status-dark : (get_sending_feedback_status log forty_days).dark ≡ ascii "b.io" ∷ []
unfolding reccado.Feedback.Summary.summarize_sending_feedback
    reccado.Feedback.Summary.get_sending_feedback_status
status-dark = refl

classify-verdict_example :
    classify_feedback_liveness (observation_of (ascii "b.io") 3300000000 log) ≡ went_dark
unfolding reccado.Feedback.Dark.goes_unanswered reccado.Feedback.Dark.verdict
classify-verdict_example = classify-verdict (ascii "b.io") 3300000000 log

get_sending_feedback_status-ok_example : (get_sending_feedback_status log forty_days).ok ≡ false
unfolding reccado.Feedback.Summary.summarize_sending_feedback
    reccado.Feedback.Summary.get_sending_feedback_status reccado.Feedback.Dark.goes_unanswered
    reccado.Feedback.Dark.verdict
get_sending_feedback_status-ok_example = get_sending_feedback_status-ok log forty_days
