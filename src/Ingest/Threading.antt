-- ===== src/Ingest/Threading.antt =====
-- src/do/mailbox-ingest.ts: the thread that a received mail joins.
use reccado.Prelude.{
  ℕ, ◌-◌, ◌*◌, Bool, false, not, ◌&&◌, Option, none, some, List, [], ◌∷◌, ◌++◌, any, map, take,
  find, keep, leb, if◌then◌else◌,
}
use reccado.Text.{Text, ascii, ◌===◌, trim, to_lower, has_unit, contains}
use reccado.ApiKey.{Instant}
use reccado.Header.{domain_from_address, normalize_message_id}
use reccado.Inbox.{Inbox, MessageRow, ThreadRow}
use reccado.Draft.Flights.{cached_text}

abbrev pub subject_fallback_window_ms : ℕ
subject_fallback_window_ms = 30 * 24 * 60 * 60 * 1000

abbrev pub subject_fallback_candidates : ℕ
subject_fallback_candidates = 5

abbrev pub participant_scan_limit : ℕ
participant_scan_limit = 50

abbrev pub normal : Text → Text
normal raw = to_lower (trim raw)

abbrev pub domain_list : Option Text → List Text
domain_list none = []
domain_list (some domain) = domain ∷ []

abbrev pub primary_domain : Option Text → List Text
primary_domain none = []
primary_domain (some primary) = domain_list (domain_from_address (normal primary))

-- `mailboxOwnDomains`
unfoldable pub mailbox_own_domains : Inbox → Text → List Text
unfolding domain_from_address cached_text
mailbox_own_domains m delivered_to =
    domain_list (domain_from_address (normal delivered_to))
    ++ primary_domain (cached_text m (ascii "primary_address"))

abbrev pub is_own : List Text → Text → Bool
is_own own_domains address = elim (domain_from_address address) [
  | none ↦ false
  | some domain ↦ contains own_domains domain
]

-- `counterparties`, the set as a list
unfoldable pub counterparties : List Text → List Text → List Text
unfolding has_unit contains domain_from_address
counterparties own_domains [] = []
counterparties own_domains (raw ∷ addresses) =
    let rest = counterparties own_domains addresses in
    if has_unit (normal raw) b'@' && not (is_own own_domains (normal raw))
    then normal raw ∷ rest
    else rest

-- What the fallback is given.
pub record SubjectInput : Type 0 where
  pub subject_norm : Text
  pub from_addr : Text
  pub recipients : List Text
  pub delivered_to : Text
  pub received_at : Instant

abbrev pub has_subject : Text → ThreadRow → Bool
has_subject subject t = elim t.subject_norm [ none ↦ false | some s ↦ s === subject ]

-- `subject_norm = ? AND last_message_at >= ?`
abbrev pub is_candidate : Text → Instant → ThreadRow → Bool
is_candidate subject cutoff t = has_subject subject t && leb cutoff t.last_message_at

unfoldable pub insert_thread : ThreadRow → List ThreadRow → List ThreadRow
insert_thread t [] = t ∷ []
insert_thread t (u ∷ threads) =
    let rest = insert_thread t threads in
    if leb u.last_message_at t.last_message_at then t ∷ u ∷ threads else u ∷ rest

-- `ORDER BY last_message_at DESC`
unfoldable pub latest_threads : List ThreadRow → List ThreadRow
unfolding insert_thread
latest_threads [] = []
latest_threads (t ∷ threads) = insert_thread t (latest_threads threads)

unfoldable pub insert_message : MessageRow → List MessageRow → List MessageRow
insert_message r [] = r ∷ []
insert_message r (s ∷ rows) =
    let rest = insert_message r rows in
    if leb s.received_at r.received_at then r ∷ s ∷ rows else s ∷ rest

-- `ORDER BY received_at DESC`
unfoldable pub latest_messages : List MessageRow → List MessageRow
unfolding insert_message
latest_messages [] = []
latest_messages (r ∷ rows) = insert_message r (latest_messages rows)

abbrev pub is_in_thread : Text → MessageRow → Bool
is_in_thread thread_id r = r.thread_id === thread_id

unfoldable pub scanned_messages : Inbox → Text → List MessageRow
unfolding keep latest_messages ◌===◌
scanned_messages m thread_id =
    take participant_scan_limit (latest_messages (keep (is_in_thread thread_id) m.messages))

-- Whether the message shares a counterparty with the mail.
unfoldable pub shares : List Text → List Text → MessageRow → Bool
unfolding counterparties any contains
shares own_domains incoming r =
    any (contains incoming) (counterparties own_domains (r.from_addr ∷ r.to ++ r.cc))

unfoldable pub first_shared : List Text → List Text → Inbox → List ThreadRow → Option Text
unfolding shares scanned_messages any
first_shared own_domains incoming m [] = none
first_shared own_domains incoming m (t ∷ threads) =
    let rest = first_shared own_domains incoming m threads in
    if any (shares own_domains incoming) (scanned_messages m t.id) then some t.id else rest

unfoldable pub candidate_threads : Inbox → Text → Instant → List ThreadRow
unfolding keep latest_threads ◌===◌
candidate_threads m subject received_at = take subject_fallback_candidates (
    latest_threads
      (keep (is_candidate subject (received_at - subject_fallback_window_ms)) m.threads))

-- `findThreadBySubject`; with no counterparty on the mail nothing is shared.
unfoldable pub find_thread_by_subject : Inbox → SubjectInput → Option Text
unfolding mailbox_own_domains counterparties first_shared candidate_threads
find_thread_by_subject m i =
    let own_domains = mailbox_own_domains m i.delivered_to in
    first_shared own_domains (counterparties own_domains (i.from_addr ∷ i.recipients)) m
      (candidate_threads m i.subject_norm i.received_at)

unfoldable pub normal_id_list : List (Option Text) → List Text
unfolding normalize_message_id
normal_id_list [] = []
normal_id_list (s ∷ ids) =
    let rest = normal_id_list ids in
    elim (normalize_message_id s) [ none ↦ rest | some id ↦ id ∷ rest ]

-- `rfc_message_id = ? COLLATE NOCASE`
abbrev pub has_rfc_id : Text → MessageRow → Bool
has_rfc_id id r = elim r.rfc_message_id [ none ↦ false | some s ↦ to_lower s === to_lower id ]

unfoldable pub find_by_ids : Inbox → List Text → Option Text
unfolding find ◌===◌ to_lower
find_by_ids m [] = none
find_by_ids m (id ∷ ids) =
    let rest = find_by_ids m ids in
    elim (find (has_rfc_id id) m.messages) [ none ↦ rest | some r ↦ some r.thread_id ]

abbrev pub by_subject : Inbox → Option Text → SubjectInput → Option Text
by_subject m none i = none
by_subject m (some []) i = none
by_subject m (some (c ∷ s)) i = find_thread_by_subject m i

-- What `resolveThreadId` is given; its `subject_norm` is the text of the input, if there is one.
pub record ThreadInput : Type 0 where
  pub in_reply_to : Option Text
  pub references : List Text
  pub subject_norm : Option Text
  pub from_addr : Text
  pub recipients : List Text
  pub delivered_to : Text
  pub received_at : Instant

abbrev pub subject_input : ThreadInput → Text → SubjectInput
subject_input i subject = record {
  subject_norm = subject;
  from_addr = i.from_addr;
  recipients = i.recipients;
  delivered_to = i.delivered_to;
  received_at = i.received_at;
}

abbrev pub text_of : Option Text → Text
text_of none = []
text_of (some s) = s

-- A thread that is there already, by the ids of the headers or else by the subject.
unfoldable pub find_thread_id : Inbox → ThreadInput → Option Text
unfolding find_by_ids normal_id_list find_thread_by_subject
find_thread_id m i = elim (find_by_ids m (normal_id_list (i.in_reply_to ∷ map some i.references))) [
  | some id ↦ some id
  | none ↦ by_subject m i.subject_norm (subject_input i (text_of i.subject_norm))
]

-- `resolveThreadId`, with the random id of a new thread
unfoldable pub resolve_thread_id : Inbox → ThreadInput → Text → Text
unfolding find_thread_id
resolve_thread_id m i new_id = elim (find_thread_id m i) [ none ↦ new_id | some id ↦ id ]
