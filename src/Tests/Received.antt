-- ===== src/Tests/Received.antt =====
-- Received mail and its threads at concrete inputs.
use mathlib.Core.List.{cons≢nil}
use reccado.Prelude.{◌-◌, ◌≡◌, refl, true, false, ◌&&◌, none, some, List, [], ◌∷◌, ◌++◌, any, All}
use reccado.Text.{ascii, ◌===◌, contains}
use reccado.Inbox.{Inbox, empty}
use reccado.Draft.Flights.{create, request_send, confirm, settle, started}
use reccado.Ingest.{inserted, check_ingest, commit_ingest, mark_read}
use reccado.Ingest.Rows.{InboundMail, ParsedMail, parsed, failed, IngestIds}
use reccado.Ingest.Threading.{
  SubjectInput, subject_fallback_window_ms, is_candidate, is_in_thread, is_own, mailbox_own_domains,
  counterparties,
}
use reccado.Ingest.Repeated.{Delivery, commit_all, told_of, commit_ingest-once}
use reccado.Ingest.Subject.{find_thread_by_subject-evidence}
use reccado.Mail.{MailStep, draft_step, receive, act, apply_steps}
use reccado.Mail.Counters.{IsCounted}
use reccado.Mail.Counted.{apply_steps-IsCounted}
use reccado.Tests.Drafts.{letter, request, ending, taken}

abbrev mail : InboundMail
mail = record {
  recipient = ascii "shop@example.com";
  sender = ascii "ann@example.org";
  raw_r2_key = ascii "raw/1";
  raw_sha256 = ascii "aa";
  message_id = some (ascii "1@org");
  subject = some (ascii "Hello");
  in_reply_to = none;
  references = [];
  received_at = 3000000000;
  idempotency_key = ascii "email:v1:1";
}

abbrev body : ParsedMail
body = record {
  from = ascii "ann@example.org";
  to = ascii "shop@example.com" ∷ [];
  cc = [];
  subject = some (ascii "Re: hello");
  in_reply_to = none;
  references = [];
  text = some (ascii "Hi");
  html_key = none;
  snippet = ascii "Hi";
}

abbrev ids : IngestIds
ids = record { message_local_id = ascii "m1"; new_thread_id = ascii "t1"; now = 3000000001 }

abbrev first : Delivery
first = record { mail = mail; parse = parsed body; ids = ids }

-- Another mail, which cannot be parsed.
abbrev second : Delivery
second = record {
  mail = record mail { idempotency_key = ascii "email:v1:2"; raw_sha256 = ascii "bb" };
  parse = failed none (ascii "bad mime");
  ids = record { message_local_id = ascii "m2"; new_thread_id = ascii "t2"; now = 3000000002 };
}

commit_ingest-once_example :
    let n = commit_all (second ∷ []) (commit_ingest mail (parsed body) ids empty).0 in
    let told = told_of n (ascii "aa") (ascii "m1") mail in
    (check_ingest n mail ≡ some told) × (commit_ingest mail (parsed body) ids n ≡ (n, told))
unfolding reccado.Ingest.commit_ingest reccado.Ingest.apply_message_action
    reccado.Ingest.message_count
commit_ingest-once_example =
    commit_ingest-once first empty (second ∷ []) mail (parsed body) ids refl (λ e. cons≢nil e) refl

-- The mailbox after the first mail, and a mail of the same subject to the same address.
abbrev after_first : Inbox
after_first = (commit_ingest mail (parsed body) ids empty).0

abbrev follow_up : SubjectInput
follow_up = record {
  subject_norm = ascii "hello";
  from_addr = ascii "Ann@example.org";
  recipients = ascii "shop@example.com" ∷ [];
  delivered_to = ascii "shop@example.com";
  received_at = 3000090000;
}

find_thread_by_subject-evidence_example :
    let own_domains = mailbox_own_domains after_first (ascii "shop@example.com") in
    let incoming =
      counterparties own_domains (ascii "Ann@example.org" ∷ (ascii "shop@example.com" ∷ [])) in
    (any
        (λ t.
          is_candidate (ascii "hello") (3000090000 - subject_fallback_window_ms) t
          && t.id === ascii "t1")
        after_first.threads
      ≡ true)
    × (any
          (λ r.
            is_in_thread (ascii "t1") r
            && any (contains incoming) (counterparties own_domains (r.from_addr ∷ r.to ++ r.cc)))
          after_first.messages
        ≡ true)
    × All (λ a. is_own own_domains a ≡ false) incoming
unfolding reccado.Draft.Confirm.claim_gate reccado.Ingest.commit_ingest
find_thread_by_subject-evidence_example =
    find_thread_by_subject-evidence after_first follow_up (ascii "t1") refl

-- A mail comes in twice and is read, and a draft is sent.
abbrev day : List MailStep
day =
    receive mail (parsed body) ids
    ∷ receive mail (parsed body) ids
    ∷ act (ascii "m1") mark_read 3000000005
    ∷ draft_step (create letter (ascii "d1") 10)
    ∷ draft_step (request_send (ascii "d1") 20)
    ∷ draft_step (confirm request (ascii "d1") (ascii "a"))
    ∷ draft_step (settle 0 taken ending)
    ∷ []

apply_steps-IsCounted_example : IsCounted (apply_steps day (started empty)).inbox
apply_steps-IsCounted_example = apply_steps-IsCounted day
