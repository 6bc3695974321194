-- ===== src/Request.antt =====
-- src/lib/transactional-send.ts and src/do/transactional-send-ops.ts: the body, the result and the rows of a
-- transactional request, and the maps between their statuses.
pub mod Stale
pub mod Kept
pub mod Rows
use reccado.Prelude.{
  ℕ, Bool, true, false, ◌&&◌, ◌||◌, Option, none, some, List, [], ◌∷◌, ◌++◌, leb, if◌then◌else◌,
  length, find, update_where, delete_where, ltb,
}
use reccado.Text.{Text, ascii, ◌===◌}
use reccado.Template.{Variables, max_variable_count}
use reccado.ApiKey.{Platform, Instant}
use reccado.Auth.{KeyAuthError}
use reccado.Mailbox.{Mailbox, RequestRow, RequestStatus, ErrorCode, stale_reconciled}

-- A parsed JSON body; `other` is a null, a Boolean, a number or an array.
mutual
  pub data Json : Type 0 where
    str : Text → Json
    obj : Members → Json
    other : Json

  pub data Members : Type 0 where
    end : Members
    member : Text → Json → Members → Members

unfoldable pub get_member : Text → Members → Option Json
unfolding ◌===◌
get_member name end = none
get_member name (member key value rest) = if key === name then some value else get_member name rest

abbrev pub max_template_id_length : ℕ
max_template_id_length = 120

abbrev pub max_variable_value_length : ℕ
max_variable_value_length = 10_000

pub record TransactionalRequest : Type 0 where
  pub template : Text
  pub to : Text
  pub variables : Variables

infixl 5 ◌>>=◌ ◌>>◌
abbrev pub ◌>>=◌ : {A B : Type 0} → Option A → (A → Option B) → Option B
none >>= f = none
some a >>= f = f a

abbrev pub ◌>>◌ : {B : Type 0} → Option (Unit {0}) → Option B → Option B
m >> k = m >>= λ _. k

abbrev pub require : Bool → Option (Unit {0})
require true = some tt
require false = none

abbrev pub string : Json → Option Text
string (str s) = some s
string (obj ms) = none
string other = none

unfoldable pub record_of_strings : Members → Option Variables
record_of_strings end = some []
record_of_strings (member key (str value) rest) =
    if leb (length value) max_variable_value_length
    then (do vs ← record_of_strings rest; some ((key, value) ∷ vs))
    else none
record_of_strings (member key (obj ms) rest) = none
record_of_strings (member key other rest) = none

unfoldable pub variables_of : Option Json → Option Variables
unfolding record_of_strings
variables_of none = some []
variables_of (some (obj ms)) = do
  vs ← record_of_strings ms
  require (leb (length vs) max_variable_count)
  some vs
variables_of (some (str s)) = none
variables_of (some other) = none

-- `transactionalRequestSchema.safeParse`
unfoldable pub transactional_request_schema : Platform → Json → Option TransactionalRequest
unfolding get_member variables_of
transactional_request_schema p (obj ms) = do
  template ← get_member (ascii "template") ms >>= string
  require (leb 1 (length template) && leb (length template) max_template_id_length)
  to ← get_member (ascii "to") ms >>= string
  require (p.is_email to)
  variables ← variables_of (get_member (ascii "variables") ms)
  some (record { template = template; to = to; variables = variables })
transactional_request_schema p (str s) = none
transactional_request_schema p other = none

pub data ResponseStatus : Type 0 where
  accepted sent duplicate idempotency_conflict rejected permanent_failure unknown : ResponseStatus

-- The texts of `error` in a result. `missing_and_unknown_variables` is the join of both reasons.
pub data SendError : Type 0 where
  key_auth : KeyAuthError → SendError
  test_key_not_allowed_in_production_send : SendError
  idempotency_key_required idempotency_key_too_long invalid_request_body : SendError
  template_not_allowed template_not_found template_interpolation_failed : SendError
  missing_variables unknown_variables missing_and_unknown_variables : SendError
  denied_by_policy not_allowed_by_policy recipient_suppressed : SendError
  idempotency_key_already_used_with_different_payload quota_exceeded internal_error : SendError
  provider : ErrorCode → SendError

pub record TransactionalSendResult : Type 0 where
  pub status : ResponseStatus
  pub request_id : Text
  pub key_id : Text
  pub provider_message_id : Option Text
  pub error : Option SendError

-- The inner `switch` on the error of a rejected result.
abbrev pub http_status_of_rejection : Option SendError → ℕ
http_status_of_rejection (some (key_auth KeyAuthError.missing_authorization)) = 401
http_status_of_rejection (some idempotency_key_required) = 400
http_status_of_rejection (some quota_exceeded) = 429
http_status_of_rejection _ = 403

unfoldable pub http_status_for_transactional_result : ResponseStatus → Option SendError → ℕ
http_status_for_transactional_result sent error = 200
http_status_for_transactional_result duplicate error = 200
http_status_for_transactional_result accepted error = 202
http_status_for_transactional_result idempotency_conflict error = 409
http_status_for_transactional_result permanent_failure error = 502
http_status_for_transactional_result unknown error = 504
http_status_for_transactional_result rejected error = http_status_of_rejection error

-- The text that is written; the CHECK constraint of the column refuses all but the row's statuses.
unfoldable pub db_status_for_send_outcome : ResponseStatus → Option RequestStatus
db_status_for_send_outcome permanent_failure = some RequestStatus.failed
db_status_for_send_outcome sent = some RequestStatus.sent
db_status_for_send_outcome duplicate = some RequestStatus.duplicate
db_status_for_send_outcome rejected = some RequestStatus.rejected
db_status_for_send_outcome unknown = some RequestStatus.unknown
db_status_for_send_outcome accepted = none
db_status_for_send_outcome idempotency_conflict = none

unfoldable pub map_db_status_to_response : RequestStatus → ResponseStatus
map_db_status_to_response RequestStatus.sent = sent
map_db_status_to_response RequestStatus.duplicate = duplicate
map_db_status_to_response RequestStatus.failed = permanent_failure
map_db_status_to_response RequestStatus.unknown = unknown
map_db_status_to_response RequestStatus.rejected = rejected
map_db_status_to_response RequestStatus.pending = accepted

abbrev pub is_request : Text → Text → RequestRow → Bool
is_request key_id idempotency_key r =
    r.key_id === key_id && r.client_idempotency_key === idempotency_key

unfoldable pub get_transactional_request : Mailbox → Text → Text → Option RequestRow
unfolding find
get_transactional_request m key_id idempotency_key =
    find (is_request key_id idempotency_key) m.transactional_requests

-- `INSERT OR REPLACE`: a row with the primary key, or with the pair of the unique index, goes first.
unfoldable pub insert_transactional_request : RequestRow → Mailbox → Mailbox
insert_transactional_request row m = record m {
  transactional_requests =
      delete_where
        (λ r. r.request_id === row.request_id || is_request row.key_id row.client_idempotency_key r)
        m.transactional_requests
      ++ row ∷ [];
}

abbrev pub is_stale : Instant → RequestRow → Bool
is_stale older_than r = elim r.status [
  | RequestStatus.pending ↦ ltb r.updated_at older_than
  | _ ↦ false
]

-- The body of the loop, one UPDATE by `request_id`.
abbrev pub mark_stale : Text → Instant → List RequestRow → List RequestRow
mark_stale request_id now rows =
    update_where (λ r. r.request_id === request_id)
      (λ r. record r {
        status = RequestStatus.unknown;
        error_code = some stale_reconciled;
        variables = none;
        updated_at = now;
      })
      rows

unfoldable pub mark_all_stale : List Text → Instant → List RequestRow → List RequestRow
mark_all_stale [] now rows = rows
mark_all_stale (request_id ∷ ids) now rows = mark_all_stale ids now (mark_stale request_id now rows)

unfoldable pub stale_ids : Instant → List RequestRow → List Text
stale_ids older_than [] = []
stale_ids older_than (r ∷ rows) =
    let rest = stale_ids older_than rows in
    if is_stale older_than r then r.request_id ∷ rest else rest

-- `reconcileStaleTransactionalRequests`, at the time `now` of its writes
unfoldable pub reconcile_stale_transactional_requests : Mailbox → Instant → Instant → Mailbox × ℕ
unfolding stale_ids mark_all_stale
reconcile_stale_transactional_requests m older_than now =
    let ids = stale_ids older_than m.transactional_requests in
    (
      record m { transactional_requests = mark_all_stale ids now m.transactional_requests },
      length ids,
    )
