-- ===== src/Tests.antt =====
-- A mailbox with one key and one template, and the calls that the tests make to it.
mod Sends
mod Keys
mod Texts
mod Events
mod Drafts
mod Received
mod Reports
use reccado.Prelude.{ℕ, Bool, true, false, Option, none, some, List, [], ◌∷◌, ◌++◌, take}
use reccado.Text.{Text, ascii, has_unit}
use reccado.ApiKey.{
  Platform, ApiKeyRecord, KeyEnvironment, KeyScope, KeyStatus, Instant, hash_api_key,
}
use reccado.Mailbox.{Mailbox, TemplateRow, TemplateStatus, empty}
use reccado.Request.{Json, Members}
use reccado.Dispatch.{ProviderOutcome, ProviderReply, Field}
use reccado.Send.{SendRequest, Surroundings, Prepared, Checked}

-- A platform whose digests keep the last bytes of a text, and whose addresses are the texts with `@`.
abbrev pub platform : Platform
platform = record {
  encode = λ s. s;
  digest = λ bytes. bytes;
  sign = λ key bytes. key ++ bytes;
  is_email = λ s. has_unit s b'@';
}

abbrev pub pepper : Text
pepper = ascii "salt"

abbrev pub key_id : Text
key_id = ascii "0123456789abcdef0123456789abcdef"

abbrev pub secret : Text
secret = ascii "abcdefghijkl"

abbrev pub mailbox_id : Text
mailbox_id = ascii "mb1"

abbrev pub live_key : ApiKeyRecord
live_key = record {
  key_id = key_id;
  hash_version = 1;
  key_hash = hash_api_key platform pepper key_id secret;
  display_suffix = ascii "ijkl";
  environment = KeyEnvironment.live;
  mailbox_id = mailbox_id;
  sender = ascii "shop@a.io";
  sender_name = some (ascii "Shop");
  scopes = KeyScope.transactional_send ∷ (KeyScope.transactional_templates_use ∷ []);
  template_allowlist = some (ascii "hi" ∷ []);
  recipient_policy = some (ascii "!@bad.io");
  quota_max = some 2;
  expires_at = none;
  status = KeyStatus.active;
  created_at = 1;
  updated_at = 1;
  revoked_at = none;
}

abbrev pub hi_template : TemplateRow
hi_template = record {
  id = ascii "hi";
  mailbox_id = mailbox_id;
  subject = ascii "Hi {{name}}";
  body_text = some (ascii "Dear {{name}}");
  body_html = some (ascii "<b>{{name}}</b>");
  status = TemplateStatus.active;
  created_at = 1;
  updated_at = 1;
}

abbrev pub mailbox : Mailbox
mailbox = record empty { api_keys = live_key ∷ []; templates = hi_template ∷ [] }

abbrev pub body : Text → Json
body who = Json.obj (
    Members.member (ascii "template") (Json.str (ascii "hi")) (
      Members.member (ascii "to") (Json.str (ascii "Eve@b.io")) (
        Members.member (ascii "variables")
          (Json.obj (Members.member (ascii "name") (Json.str who) Members.end)) Members.end)))

abbrev pub request : Text → SendRequest
request who = record {
  mailbox_id = mailbox_id;
  auth_header = some (ascii "Bearer rck_live_0123456789abcdef0123456789abcdef_abcdefghijkl");
  idempotency_key_header = some (ascii " order-1 ");
  body = body who;
}

abbrev pub surroundings : Text → ProviderOutcome → Surroundings
surroundings id outcome = record {
  request_id = id;
  outcome = outcome;
  authenticated_at = 100;
  suppression_at = 100;
  created_at = 100;
  quota_at = 100;
  reserved_at = 100;
  settled_at = 101;
  updated_at = 101;
}

abbrev pub accepted : ProviderOutcome
accepted =
    ProviderOutcome.returned
      (ProviderReply.object (Field.text (ascii "pm1")) Field.other Field.other)

abbrev pub first : Surroundings
first = surroundings (ascii "r1") accepted

abbrev pub second : Surroundings
second = surroundings (ascii "r2") accepted

abbrev pub prepared : Text → Prepared
prepared who = record {
  key = live_key;
  key_id = key_id;
  client_idempotency_key = ascii "order-1";
  request = record {
    template = ascii "hi";
    to = ascii "Eve@b.io";
    variables = (ascii "name", who) ∷ [];
  };
  interpolated = record {
    subject = ascii "Hi " ++ who;
    body_text = some (ascii "Dear " ++ who);
    body_html = some (ascii "<b>" ++ (who ++ ascii "</b>"));
  };
}
