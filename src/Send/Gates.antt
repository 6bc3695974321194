-- ===== src/Send/Gates.antt =====
-- What `handleTransactionalSend` has checked of a call that it goes on with.
use reccado.Prelude.{
  ◌≡◌, refl, inl, inr, ◌⊎◌, ◌++◌, ap, subst, ◌∙◌, ◌≤◌, Bool, true, false, Option, none, some, [],
  ◌∷◌, length, arith,
}
use reccado.Text.{Text, trim}
use reccado.Template.{
  Template, VariableValidation, validate_template_variables, interpolate_template, Interpolated,
}
use reccado.Policy.{PolicyCheck, check_recipient_policy}
use reccado.ApiKey.{
  Platform, Instant, ApiKeyRecord, KeyEnvironment, transactional_send, transactional_templates_use,
}
use reccado.Mailbox.{Mailbox}
use reccado.Auth.{AuthRequest, KeyAuth}
use reccado.Request.{TransactionalRequest, transactional_request_schema, SendError}
use reccado.Auth.Decision.{Holds, Allows, authenticate_iff}
use reccado.Send.Fresh.{IsFresh}
use reccado.Send.Outcome.{replayed, over_quota, dispatched, submit-outcome}
use reccado.Suppression.{is_recipient_suppressed}
use reccado.Send.{
  SendRequest, Surroundings, Checked, ok, refused, Prepared, ◌>>=◌, prepare, check_message,
  checked_auth, require, or_refuse, check_variables, check_policy, check_idempotency_key,
  get_template, is_allowlisted, is_live, is_none, submit_checked, email_of,
  handle_transactional_send,
}

pub bind_ok :
    {A B : Type 0} (c : Checked A) (f : A → Checked B) (b : B)
    → (c >>= f) ≡ ok b
    → (a : A) × (c ≡ ok a) × (f a ≡ ok b)
bind_ok (ok a) f b h = (a, refl, h)
bind_ok (refused k e) f b h = ground arith

require_ok : (k : Text) (e : SendError) (b : Bool) (u : Unit {0}) → require k e b ≡ ok u → b ≡ true
require_ok k e true u h = refl
require_ok k e false u h = ground arith

or_refuse_ok :
    {A : Type 0} (k : Text) (e : SendError) (o : Option A) (a : A)
    → or_refuse k e o ≡ ok a
    → o ≡ some a
or_refuse_ok k e none a h = ground arith
or_refuse_ok k e (some b) a h = ground arith

check_variables_ok :
    (k : Text) (v : VariableValidation) (u : Unit {0}) → check_variables k v ≡ ok u → v.ok ≡ true
check_variables_ok k v u h = ground arith

check_policy_ok :
    (k : Text) (c : PolicyCheck) (u : Unit {0}) → check_policy k c ≡ ok u → c ≡ PolicyCheck.allowed
check_policy_ok k PolicyCheck.allowed u h = refl
check_policy_ok k PolicyCheck.denied_by_policy u h = ground arith
check_policy_ok k PolicyCheck.not_allowed_by_policy u h = ground arith

is_none_ok : {A : Type 0} (o : Option A) → is_none o ≡ true → o ≡ none
is_none_ok none h = refl
is_none_ok (some a) h = ground arith

is_live_ok : (e : KeyEnvironment) → is_live e ≡ true → e ≡ KeyEnvironment.live
is_live_ok KeyEnvironment.live h = refl
is_live_ok KeyEnvironment.test h = ground arith

checked_auth_ok :
    (a : KeyAuth) (t : Text × ApiKeyRecord) → checked_auth a ≡ ok t → a ≡ KeyAuth.ok t.0 t.1
checked_auth_ok (KeyAuth.ok k key) t h = ground arith
checked_auth_ok (KeyAuth.refused k e) t h = ground arith

-- The header's value, trimmed, has 1 to 255 code units.
pub record Header (header : Option Text) (key : Text) : Type 0 where
  pub value : Text
  pub present : header ≡ some value
  pub trimmed : trim value ≡ key
  pub at_least : 1 ≤ length key
  pub at_most : length key ≤ 255

check_idempotency_key_ok :
    (k : Text) (header : Option Text) (key : Text)
    → check_idempotency_key k header ≡ ok key
    → Header header key
unfolding check_idempotency_key
check_idempotency_key_ok k none key h = ground arith
check_idempotency_key_ok k (some value) key h =
    let e : trim value ≡ key = ground arith in
    record {
      value = value;
      present = refl;
      trimmed = e;
      at_least = subst (λ x. 1 ≤ length x) e (ground arith);
      at_most = subst (λ x. length x ≤ 255) e (ground arith);
    }

module _ (p : Platform) (m : Mailbox) (mailbox_id : Text) where
  -- What a key, a body and the clock need for the message to go out as `text`.
  pub record Sendable (key : ApiKeyRecord) (request : TransactionalRequest) (now : Instant)
      (text : Interpolated) : Type 0 where
    pub allowlisted : is_allowlisted key.template_allowlist request.template ≡ true
    pub template : Template
    pub is_active : get_template m mailbox_id request.template ≡ some template
    pub complete : (validate_template_variables template request.variables).ok ≡ true
    pub interpolated : interpolate_template template request.variables ≡ some text
    pub permitted : check_recipient_policy request.to key.recipient_policy ≡ PolicyCheck.allowed
    pub not_suppressed : is_recipient_suppressed m request.to now ≡ none

  pub check_message_sound :
      (now : Instant) (k : Text) (key : ApiKeyRecord) (request : TransactionalRequest)
      (text : Interpolated)
      → check_message p m mailbox_id now k key request ≡ ok text
      → Sendable key request now text
  unfolding check_message
  check_message_sound now k key request text h =
      let (u1, a, h) = bind_ok _ _ _ h in
      let (t, b, h) = bind_ok _ _ _ h in
      let (u2, c, h) = bind_ok _ _ _ h in
      let (i, d, h) = bind_ok _ _ _ h in
      let (u3, e, h) = bind_ok _ _ _ h in
      let (u4, f, h) = bind_ok _ _ _ h in
      let same : i ≡ text = ground arith in
      record {
        allowlisted = require_ok _ _ _ u1 a;
        template = t;
        is_active = or_refuse_ok _ _ _ t b;
        complete = check_variables_ok _ _ u2 c;
        interpolated = or_refuse_ok _ _ _ i d ∙ ap some same;
        permitted = check_policy_ok _ _ u3 e;
        not_suppressed = is_none_ok _ (require_ok _ _ _ u4 f);
      }

module _ (p : Platform) (pepper : Text) (m : Mailbox) (request : SendRequest)
    (env : Surroundings) where
  -- The scopes that a sending key needs.
  abbrev pub send_auth : AuthRequest
  send_auth = record {
    mailbox_id = request.mailbox_id;
    auth_header = request.auth_header;
    required_scopes = transactional_send ∷ (transactional_templates_use ∷ []);
  }

  pub record Permitted (q : Prepared) : Type 0 where
    pub holds : Holds p pepper m send_auth q.key_id q.key
    pub allows : Allows p pepper send_auth q.key env.authenticated_at
    pub live : q.key.environment ≡ KeyEnvironment.live
    pub header : Header request.idempotency_key_header q.client_idempotency_key
    pub body : transactional_request_schema p request.body ≡ some q.request
    pub sendable : Sendable p m request.mailbox_id q.key q.request env.suppression_at q.interpolated

  pub prepare_sound : (q : Prepared) → prepare p pepper m request env ≡ ok q → Permitted q
  unfolding prepare
  prepare_sound q h =
      let (auth, a, h) = bind_ok _ _ _ h in
      let (u1, b, h) = bind_ok _ _ _ h in
      let (key, c, h) = bind_ok _ _ _ h in
      let (body, d, h) = bind_ok _ _ _ h in
      let (text, e, h) = bind_ok _ _ _ h in
      let made : Prepared = record {
        key = auth.1;
        key_id = auth.0;
        client_idempotency_key = key;
        request = body;
        interpolated = text;
      } in
      let same : made ≡ q = ground arith in
      let (holds, allows) =
        (authenticate_iff p pepper m send_auth env.authenticated_at auth.0 auth.1).0
          (checked_auth_ok _ auth a) in
      subst Permitted same (record {
        holds = holds;
        allows = allows;
        live = is_live_ok _ (require_ok _ _ _ u1 b);
        header = check_idempotency_key_ok auth.0 _ key c;
        body = or_refuse_ok _ _ _ body d;
        sendable = check_message_sound p m request.mailbox_id _ auth.0 auth.1 body text e;
      })

  -- With a new request id a call sends nothing, or it sends the one email that it has permission to
  -- send: its key's secret is proved and the key is active, unexpired, live and of this mailbox, with
  -- both scopes; the idempotency key has 1 to 255 code units; the template is active, allowlisted and
  -- given exactly its variables; and the recipient passes the key's policy and is not suppressed.
  pub handle_transactional_send-Permitted :
      IsFresh env.request_id m
      → let after = (handle_transactional_send p pepper request env m).0 in
        (after.outbox ≡ m.outbox)
        ⊎ ((q : Prepared) × Permitted q × (after.outbox ≡ m.outbox ++ email_of q ∷ []))
  unfolding handle_transactional_send
  handle_transactional_send-Permitted fresh = from (prepare p pepper m request env) refl
    where
      from :
          (c : Checked Prepared)
          → prepare p pepper m request env ≡ c
          → let after = (submit_checked p c env m).0 in
            (after.outbox ≡ m.outbox)
            ⊎ ((q : Prepared) × Permitted q × (after.outbox ≡ m.outbox ++ email_of q ∷ []))
      from (refused k e) h = inl refl
      from (ok q) h = elim (submit-outcome p q env m fresh) [
        | replayed r e a ↦ inl (rw a refl)
        | over_quota e c a ↦ inl (rw a refl)
        | dispatched usage e c d ↦ inr (q, prepare_sound q h, rw d.answer d.outbox)
      ]
