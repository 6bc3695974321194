-- ===== src/Tests/Keys.antt =====
-- Keys at concrete inputs: parsing, verification, authentication, rotation and revocation.
use reccado.Prelude.{
  ℕ, ◌+◌, ◌*◌, ◌/◌, ◌≡◌, ◌≢◌, ◌↔◌, refl, arith, Bool, true, false, Option, none, some, List, [],
  ◌∷◌, length, all,
}
use reccado.Text.{Text, ascii}
use reccado.ApiKey.{
  KeyEnvironment, ApiKeyRecord, format_api_key, parse_api_key, base32url_encode,
  constant_time_equal, verify_api_key_secret, hash_api_key,
}
use reccado.ApiKey.RoundTrip.{parse-format_api_key}
use reccado.Auth.{
  AuthRequest, KeyAuth, authenticate_transactional_key, check_key_state, get_api_key_record,
}
use reccado.Auth.Decision.{Holds, Allows, IsTelling, authenticate_telling, authenticate_iff}
use reccado.Send.Gates.{send_auth}
use reccado.KeyOps.{NewKey, KeyResult, done, revoke_api_key, rotate_api_key}
use reccado.History.{Operation, reconcile, rename_key, apply_all}
use reccado.History.Revoked.{revoke_api_key-ends_use}
use reccado.KeyOps.Rotation.{
  Inherits, IsPrintable, Brings, rotate_api_key-replaces, rotate_api_key-unnamed,
}
use reccado.Tests.{platform, pepper, key_id, secret, mailbox_id, live_key, mailbox, request, first}

parse-format_api_key_example :
    parse_api_key (format_api_key KeyEnvironment.live key_id secret)
    ≡ some (record { environment = KeyEnvironment.live; key_id = key_id; secret = secret })
parse-format_api_key_example =
    parse-format_api_key KeyEnvironment.live key_id secret refl
      (unfold all reccado.ApiKey.is_hex in refl) (ground arith) (ground arith)

abbrev asked : AuthRequest
asked = send_auth platform pepper mailbox (request (ascii "Bo")) first

authenticate_iff_example :
    (authenticate_transactional_key platform pepper mailbox asked 100 ≡ KeyAuth.ok key_id live_key)
    ↔ (Holds platform pepper mailbox asked key_id live_key
        × Allows platform pepper asked live_key 100)
authenticate_iff_example = authenticate_iff platform pepper mailbox asked 100 key_id live_key

asked_is_told :
    IsTelling platform pepper (authenticate_transactional_key platform pepper mailbox asked 100)
unfolding reccado.Auth.authenticate_transactional_key reccado.Text.starts_with reccado.Text.trim
    reccado.Auth.check_raw_key reccado.ApiKey.parse_api_key reccado.ApiKey.parse_parts
    reccado.Text.split reccado.Text.◌===◌ reccado.ApiKey.parse_environment reccado.Prelude.all
    reccado.ApiKey.is_hex reccado.Auth.get_api_key_record reccado.Auth.check_key
    reccado.ApiKey.verify_api_key_secret reccado.ApiKey.constant_time_equal
    reccado.ApiKey.hash_api_key reccado.ApiKey.sha256_hex reccado.ApiKey.differences
    reccado.ApiKey.has_scope reccado.ApiKey.hex reccado.ApiKey.is_api_key_expired
    reccado.Auth.check_key_state reccado.Auth.has_scopes reccado.Prelude.any reccado.Prelude.keep
    reccado.Prelude.find reccado.Text.contains reccado.Text.ends_with reccado.Text.has_unit
    reccado.Text.is_space reccado.Text.lower_unit reccado.Text.onto_first reccado.Text.to_lower
    reccado.Text.trim_start
asked_is_told = tt

authenticate_telling_example :
    (i : Text) × (key : ApiKeyRecord) × Holds platform pepper mailbox asked i key
    × (authenticate_transactional_key platform pepper mailbox asked 100
        ≡ check_key_state asked i key 100)
authenticate_telling_example = authenticate_telling platform pepper mailbox asked 100 asked_is_told

stored : get_api_key_record mailbox key_id ≡ some live_key
unfolding get_api_key_record
stored = refl

-- Calls that come after.
abbrev calls : List Operation
calls = reconcile 200 300 ∷ rename_key key_id (some (ascii "Shop")) (ascii "e3") 60 ∷ []

revoke_api_key-ends_use_example :
    (r : KeyResult) × (revoke_api_key mailbox key_id none (ascii "e1") 50 ≡ done r)
    × (authenticate_transactional_key platform pepper (apply_all platform calls r.mailbox) asked 100
        ≢ KeyAuth.ok key_id live_key)
revoke_api_key-ends_use_example =
    revoke_api_key-ends_use platform pepper mailbox key_id none (ascii "e1") 50 live_key calls asked
      100 live_key stored

abbrev new_key : NewKey
new_key = record {
  key_id = ascii "fedcba9876543210fedcba9876543210";
  secret = ascii "mnopqrstuvwx";
  event_id = ascii "e1";
  second_event_id = ascii "e2";
  now = 50;
}

new_key_is_free : get_api_key_record mailbox new_key.key_id ≡ none
unfolding get_api_key_record
new_key_is_free = refl

-- A request that brings the text of the new key.
abbrev asked_anew : AuthRequest
asked_anew = record asked {
  auth_header = some (ascii "Bearer rck_live_fedcba9876543210fedcba9876543210_mnopqrstuvwx");
}

new_key-IsPrintable : IsPrintable platform pepper new_key
unfolding all reccado.ApiKey.is_hex
new_key-IsPrintable = record {
  id_length = refl;
  id_hex = refl;
  secret_plain = ground arith;
  secret_length = ground arith;
}

asked_anew-Brings :
    Brings platform pepper asked_anew
      (format_api_key KeyEnvironment.live new_key.key_id new_key.secret)
unfolding format_api_key reccado.Text.starts_with reccado.Text.trim reccado.Text.trim_start
    reccado.Text.is_space
asked_anew-Brings = record { header = _; sent = refl; bearer = refl }

rotate_api_key-replaces_example :
    (r : KeyResult) × (rotate_api_key platform pepper mailbox mailbox_id key_id new_key ≡ done r)
    × (authenticate_transactional_key platform pepper (apply_all platform calls r.mailbox) asked 100
        ≢ KeyAuth.ok key_id live_key)
    × (r.plaintext_key ≡ some (format_api_key KeyEnvironment.live new_key.key_id new_key.secret))
    × (authenticate_transactional_key platform pepper r.mailbox asked_anew 100
        ≡ KeyAuth.ok new_key.key_id r.key)
    × Inherits platform pepper live_key r.key
unfolding reccado.ApiKey.is_api_key_expired reccado.Auth.has_scopes reccado.ApiKey.has_scope all
    reccado.Prelude.any
rotate_api_key-replaces_example =
    rotate_api_key-replaces platform pepper mailbox mailbox_id key_id new_key live_key calls asked
      asked_anew 100 100 live_key stored refl new_key_is_free new_key-IsPrintable asked_anew-Brings
      refl refl refl

rotate_api_key-unnamed_example :
    (r : KeyResult) × (rotate_api_key platform pepper mailbox mailbox_id key_id new_key ≡ done r)
    × (r.key.sender_name ≡ none)
rotate_api_key-unnamed_example =
    rotate_api_key-unnamed platform pepper mailbox mailbox_id key_id new_key live_key stored refl
      new_key_is_free
