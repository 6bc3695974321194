-- ===== src/Event.antt =====
-- src/cloudflare/email-events.ts: an Email Sending event and its classification.
use reccado.Prelude.{Bool, true, false, Option, none, some}
use reccado.Text.{Text}
use reccado.ApiKey.{DateText}
use reccado.Mailbox.{EventType, DeliveryStatus, SuppressionReason, hard_bounce, complaint}

pub data BounceType : Type 0 where
  hard soft : BounceType

-- The fields of the parsed event that the code goes on to use.
pub record EmailSendingEvent : Type 0 where
  pub event_id : Text
  pub event_type : EventType
  pub provider_message_id : Text
  pub to : Text
  pub from : Text
  pub timestamp : DateText
  pub bounce_type : Option BounceType

pub record EventClassification : Type 0 where
  pub terminal : Bool
  pub suppress : Bool
  pub suppress_reason : Option SuppressionReason
  pub delivery_status : DeliveryStatus

abbrev pub quiet : Bool → DeliveryStatus → EventClassification
quiet terminal status = record {
  terminal = terminal;
  suppress = false;
  suppress_reason = none;
  delivery_status = status;
}

abbrev pub suppressing : SuppressionReason → DeliveryStatus → EventClassification
suppressing reason status = record {
  terminal = true;
  suppress = true;
  suppress_reason = some reason;
  delivery_status = status;
}

abbrev pub classify_bounce : Option BounceType → EventClassification
classify_bounce none = quiet true DeliveryStatus.bounced
classify_bounce (some hard) = suppressing hard_bounce DeliveryStatus.bounced
classify_bounce (some soft) = quiet true DeliveryStatus.bounced

abbrev pub classify_type : EventType → Option BounceType → EventClassification
classify_type EventType.delivered bounce = quiet true DeliveryStatus.delivered
classify_type EventType.deferred bounce = quiet false DeliveryStatus.deferred
classify_type EventType.bounced bounce = classify_bounce bounce
classify_type EventType.rejected bounce = quiet true DeliveryStatus.rejected
classify_type EventType.complained bounce = suppressing complaint DeliveryStatus.complained
classify_type EventType.failed bounce = quiet true DeliveryStatus.failed

unfoldable pub classify_email_event : EmailSendingEvent → EventClassification
classify_email_event event = classify_type event.event_type event.bounce_type
