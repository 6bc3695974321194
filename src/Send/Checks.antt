-- ===== src/Send/Checks.antt =====
-- src/do/transactional-send-ops.ts: the checks of `handleTransactionalSend`, in their order, with the
-- early returns as a monad.
use reccado.Prelude.{
  Bool, true, false, ◌&&◌, Option, none, some, List, [], ◌∷◌, ltb, if◌then◌else◌, length, find,
}
use reccado.Text.{Text, ◌===◌, trim, contains}
use reccado.Template.{
  Template, VariableValidation, Interpolated, validate_template_variables, interpolate_template,
  is_empty,
}
use reccado.Policy.{PolicyCheck, check_recipient_policy}
use reccado.ApiKey.{
  Platform, ApiKeyRecord, KeyEnvironment, Instant, transactional_send, transactional_templates_use,
}
use reccado.Mailbox.{Mailbox, TemplateStatus}
use reccado.Auth.{AuthRequest, KeyAuth, authenticate_transactional_key}
use reccado.Request.{
  Json, TransactionalRequest, transactional_request_schema, SendError, key_auth,
  test_key_not_allowed_in_production_send, idempotency_key_required, idempotency_key_too_long,
  invalid_request_body, template_not_allowed, template_not_found, template_interpolation_failed,
  missing_variables, unknown_variables, missing_and_unknown_variables, denied_by_policy,
  not_allowed_by_policy, recipient_suppressed,
}
use reccado.Dispatch.{ProviderOutcome}
use reccado.Suppression.{is_recipient_suppressed}

pub record SendRequest : Type 0 where
  pub mailbox_id : Text
  pub auth_header : Option Text
  pub idempotency_key_header : Option Text
  pub body : Json

-- What the surroundings give one call: the new request id, the provider's outcome, and the instants
-- that the call reads off the clock, in the order in which it reads them.
pub record Surroundings : Type 0 where
  pub request_id : Text
  pub outcome : ProviderOutcome
  pub authenticated_at : Instant
  pub suppression_at : Instant
  pub created_at : Instant
  pub quota_at : Instant
  pub reserved_at : Instant
  pub settled_at : Instant
  pub updated_at : Instant

-- A check that lets the call go on, or the early return with a rejected result.
pub data Checked (A : Type 0) : Type 0 where
  ok : A → Checked A
  refused : Text → SendError → Checked A

infixl 5 ◌>>=◌ ◌>>◌
abbrev pub ◌>>=◌ : {A B : Type 0} → Checked A → (A → Checked B) → Checked B
ok a >>= f = f a
refused key_id e >>= f = refused key_id e

abbrev pub ◌>>◌ : {B : Type 0} → Checked (Unit {0}) → Checked B → Checked B
m >> k = m >>= λ _. k

-- All that the checks establish.
pub record Prepared : Type 0 where
  pub key : ApiKeyRecord
  pub key_id : Text
  pub client_idempotency_key : Text
  pub request : TransactionalRequest
  pub interpolated : Interpolated

unfoldable pub get_template : Mailbox → Text → Text → Option Template
unfolding find ◌===◌
get_template m mailbox_id template_id =
    elim (find (λ t. t.id === template_id && t.mailbox_id === mailbox_id) m.templates) [
      | none ↦ none
      | some row ↦ elim row.status [
        | TemplateStatus.archived ↦ none
        | TemplateStatus.active ↦ some (record {
          id = row.id;
          subject = row.subject;
          body_text = row.body_text;
          body_html = row.body_html;
        })
      ]
    ]

-- 12
unfoldable pub check_idempotency_key : Text → Option Text → Checked Text
check_idempotency_key key_id none = refused key_id idempotency_key_required
check_idempotency_key key_id (some header) =
    let trimmed = trim header in
    if ltb (length trimmed) 1
    then refused key_id idempotency_key_required
    else if ltb 255 (length trimmed)
    then refused key_id idempotency_key_too_long
    else ok trimmed

-- 14; a missing and an empty allowlist both allow nothing
abbrev pub is_allowlisted : Option (List Text) → Text → Bool
is_allowlisted none template_id = false
is_allowlisted (some list) template_id = contains list template_id

abbrev pub or_refuse : {A : Type 0} → Text → SendError → Option A → Checked A
or_refuse key_id e none = refused key_id e
or_refuse key_id e (some a) = ok a

abbrev pub require : Text → SendError → Bool → Checked (Unit {0})
require key_id e true = ok tt
require key_id e false = refused key_id e

-- 16
abbrev pub check_variables : Text → VariableValidation → Checked (Unit {0})
check_variables key_id v =
    if v.ok
    then ok tt
    else refused key_id (
        if is_empty v.missing
        then unknown_variables
        else if is_empty v.unknown
        then missing_variables
        else missing_and_unknown_variables)

-- 18
abbrev pub check_policy : Text → PolicyCheck → Checked (Unit {0})
check_policy key_id PolicyCheck.allowed = ok tt
check_policy key_id PolicyCheck.denied_by_policy = refused key_id denied_by_policy
check_policy key_id PolicyCheck.not_allowed_by_policy = refused key_id not_allowed_by_policy

abbrev pub is_live : KeyEnvironment → Bool
is_live KeyEnvironment.live = true
is_live KeyEnvironment.test = false

abbrev pub is_none : {A : Type 0} → Option A → Bool
is_none none = true
is_none (some a) = false

-- 1 to 11
abbrev pub checked_auth : KeyAuth → Checked (Text × ApiKeyRecord)
checked_auth (KeyAuth.ok key_id key) = ok (key_id, key)
checked_auth (KeyAuth.refused key_id e) = refused key_id (key_auth e)

module _ (p : Platform) where
  -- 14 to 18a, for an authenticated key and a parsed body
  unfoldable pub check_message :
      Mailbox → Text → Instant → Text → ApiKeyRecord → TransactionalRequest → Checked Interpolated
  check_message m mailbox_id now key_id key request = do
    require key_id template_not_allowed (is_allowlisted key.template_allowlist request.template)
    template ← or_refuse key_id template_not_found (get_template m mailbox_id request.template)
    check_variables key_id (validate_template_variables template request.variables)
    interpolated ←
        or_refuse key_id template_interpolation_failed
          (interpolate_template template request.variables)
    check_policy key_id (check_recipient_policy request.to key.recipient_policy)
    require key_id recipient_suppressed (is_none (is_recipient_suppressed m request.to now))
    ok interpolated

  -- 1 to 18a
  unfoldable pub prepare : Text → Mailbox → SendRequest → Surroundings → Checked Prepared
  prepare pepper m request env = do
    let auth_request : AuthRequest = record {
      mailbox_id = request.mailbox_id;
      auth_header = request.auth_header;
      required_scopes = transactional_send ∷ (transactional_templates_use ∷ []);
    }
    auth ←
        checked_auth (authenticate_transactional_key p pepper m auth_request env.authenticated_at)
    require auth.0 test_key_not_allowed_in_production_send (is_live auth.1.environment)
    idempotency_key ← check_idempotency_key auth.0 request.idempotency_key_header
    body ← or_refuse auth.0 invalid_request_body (transactional_request_schema p request.body)
    interpolated ← check_message m request.mailbox_id env.suppression_at auth.0 auth.1 body
    ok (record {
      key = auth.1;
      key_id = auth.0;
      client_idempotency_key = idempotency_key;
      request = body;
      interpolated = interpolated;
    })
