-- ===== src/Lib.antt =====
-- The mail core of reccado: how a mailbox authenticates an API key and sends a transactional email
-- once, how it stores and threads the mail it receives, how a draft is confirmed and sent, and how the
-- ledger of sends follows what the mailbox and the provider report.
--
-- A mailbox is a Durable Object (src/do/mailbox-do.ts) with its own SQLite. The model is explicit
-- state passing over two records of tables, each table a list of rows in the order of insertion:
-- `Mailbox.Mailbox` has the tables of transactional sends, with one more list, `outbox`, of what was
-- handed to the provider; `Inbox.Inbox` has those of mail, threads, drafts and their markers. The two
-- sides share only `mailbox_meta`, under keys that differ. A SQL statement is one of the list functions
-- of Prelude/Rows. Each operation is a function from the tables to the tables and its answer. The third
-- state is `Outbound.Ledger`, the tables of the shared D1 database that a confirmed send writes.
--
--   Text              strings of JavaScript, as lists of UTF-16 code units
--   Template          src/lib/transactional-send.ts: extractTemplateVariables,
--                     validateTemplateVariables, interpolateTemplate
--   Policy            src/lib/transactional-send.ts: checkRecipientPolicy, matchRule;
--                     Policy/Rules is validateRecipientPolicy
--   Payload           src/lib/transactional-send.ts: the payload hashes
--   ApiKey            src/lib/transactional-keys.ts, src/lib/crypto.ts: keys and their secrets
--   Mailbox, Inbox    src/do/mailbox-schema-content.ts: the tables
--   Auth              src/do/transactional-send-ops.ts: authenticateTransactionalKey
--   Request           src/do/transactional-send-ops.ts, src/lib/transactional-send.ts: body, rows,
--                     statuses, reconcileStaleTransactionalRequests
--   Quota             src/do/transactional-send-ops.ts: checkAndIncrementQuota
--   Dispatch          src/do/transactional-send-ops.ts: doTransactionalSend, with the markers of
--                     src/do/mailbox-send-utils.ts and src/lib/outbound-classification.ts
--   Send              src/do/transactional-send-ops.ts: handleTransactionalSend
--   Suppression       src/do/mailbox-suppressions.ts: the suppressed recipients
--   Event, Delivery   src/cloudflare/email-events.ts, src/do/mailbox-suppressions.ts and the
--                     delivery-event route of src/do/mailbox-do.ts
--   Feedback          src/lib/feedback-liveness.ts, with observeSenderFeedback and
--                     getTransactionalRequestStatus of src/do/transactional-send-ops.ts;
--                     Feedback/Summary is the status of all domains
--   KeyOps            src/do/transactional-key-ops.ts: creating, revoking and rotating keys
--   TemplateStore     src/do/transactional-send-ops.ts: the stored templates and their sync
--   History           sequences of calls on one mailbox's sending tables
--   Header, Mime      src/lib/email-headers.ts, src/lib/email-metadata.ts, src/lib/idempotency.ts,
--                     normalizeSubject of src/lib/mime.ts: message ids, References, subjects
--   Identity          src/lib/sender-identity.ts: the address that mail goes out as
--   Draft             src/do/mailbox-do.ts: drafts and confirmSendDraft, with its threading
--                     (Draft/Thread), its two halves (Draft/Confirm, Draft/Settle) and the routes in
--                     any order (Draft/Flights)
--   Outbound          the outbound functions of src/db/d1.ts; src/lib/outbound-send.ts is
--                     Outbound/Confirm, the sweep of src/cloudflare/scheduled.ts Outbound/Sweep
--   Ingest, Mail      src/do/mailbox-ingest.ts: ingestInboundEmail, with its rows in Ingest/Rows and
--                     the choice of a thread in Ingest/Threading; Mail is sequences of what
--                     changes messages and threads
--   Tests             concrete runs
--
-- `handle_transactional_send` composes Auth, Request, Template, Policy, Suppression, Payload, Quota
-- and Dispatch in the order of the code. Its checks are a small monad, `Send.Checked`, whose other
-- case is the early return; a thrown CHECK constraint is the answer `none`. Outbound calls Draft:
-- `response_of` turns what confirmSendDraft answers into the response that confirmDraftSend reads.
--
-- A Durable Object runs one call at a time but lets others in while a call waits. A function that
-- waits is therefore two: `begin_confirm` and `settle_confirm` around the provider, `open_send` and
-- `close_send` around the Durable Object, `check_ingest` and `commit_ingest` around the reading of the
-- raw mail. What the first half leaves for the second is a value, `Draft.Confirm.Flight`; `Draft.Flights`
-- keeps the calls that wait in a list, and a sequence of operations on it is an interleaving. A call that
-- is never settled is one whose Durable Object went away. `handle_transactional_send` is one step.
--
-- What a call takes from outside, new ids, the provider's outcome and the readings of the clock, is an
-- argument; the digests and the test for an email address, which are library code, are the record
-- `ApiKey.Platform`, of which nothing is assumed. The parsed form of a raw mail, its snippet included,
-- is the argument `Ingest.Rows.Parse`. `Mime.strip_loop` has the number of its rounds as fuel, one more than
-- the text has units, and each round that goes on shortens the text; the other loops run over lists.
--
-- An instant is its milliseconds since 1970, and an ISO text of the code is its instant. Counters are
-- natural numbers without an upper bound. Letters outside ASCII have no case in `to_lower`. A JSON
-- column is its value. The entries of a template sync are taken to have the right shape, and the text
-- that `mailbox_meta` keeps under a draft's gate is not read as a marker. `open_send` looks at its row
-- once where the code looks before and after the INSERT. Rows of another mailbox are told apart where
-- the code does so.
--
-- Not modelled: the views of threads, search, rules, attachments and jobs of the mailbox; the parsing
-- of MIME and the quoting of a replied body; the HTTP and MCP interfaces, the Telegram bot, the queue
-- consumers and the other D1 projections, which call the modelled operations or do not touch their
-- tables; the ops log of the sending paths; and the projections of keys, which repeat fields of the
-- key's record.
pub mod Prelude
pub mod Text
pub mod Template
pub mod Policy
pub mod ApiKey
pub mod Mailbox
pub mod Auth
pub mod Mail
pub mod Mime
pub mod Payload
pub mod Request
pub mod Quota
pub mod Dispatch
pub mod Draft
pub mod Suppression
pub mod Send
pub mod Event
pub mod Feedback
pub mod Header
pub mod Identity
pub mod Inbox
pub mod Ingest
pub mod Delivery
pub mod History
pub mod KeyOps
pub mod Outbound
pub mod TemplateStore
pub mod Tests
