-- ===== src/Mail.antt =====
-- A mailbox that receives, keeps and sends mail: the drafts of src/do/mailbox-do.ts, the ingest of
-- src/do/mailbox-ingest.ts and the actions on messages, in any order.
pub mod Counted
pub mod Counters
use reccado.Prelude.{ℕ, List, [], ◌∷◌, Option, none, some, length, keep}
use reccado.Text.{Text, ◌===◌}
use reccado.ApiKey.{Instant}
use reccado.Inbox.{Inbox, MessageRow}
use reccado.Draft.Settle.{find_thread}
use reccado.Draft.Flights.{System, Operation, apply}
use reccado.Ingest.{commit_ingest, MessageAction, apply_message_action}
use reccado.Ingest.Rows.{InboundMail, Parse, IngestIds}

pub data MailStep : Type 0 where
  draft_step : Operation → MailStep
  receive : InboundMail → Parse → IngestIds → MailStep
  act : Text → MessageAction → Instant → MailStep

unfoldable pub apply_step : MailStep → System → System
unfolding apply commit_ingest apply_message_action
apply_step (draft_step o) s = apply o s
apply_step (receive mail parse ids) s = record s {
  inbox = (commit_ingest mail parse ids s.inbox).0;
}
apply_step (act id action now) s = record s { inbox = apply_message_action id action now s.inbox }

unfoldable pub apply_steps : List MailStep → System → System
unfolding apply_step
apply_steps [] s = s
apply_steps (step ∷ steps) s = apply_steps steps (apply_step step s)

-- The `message_count` of a thread, 0 where there is none, and how many messages are in it.
unfoldable pub thread_count : Inbox → Text → ℕ
thread_count m id = elim (find_thread m id) [ none ↦ 0 | some t ↦ t.message_count ]

unfoldable pub messages_in : Text → List MessageRow → ℕ
unfolding keep ◌===◌
messages_in id rows = length (keep (λ r. r.thread_id === id) rows)
