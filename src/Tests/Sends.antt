-- ===== src/Tests/Sends.antt =====
-- Runs of `handleTransactionalSend` and of histories of calls, and the theorems at them.
use reccado.History.Usage.{apply_all-within_minute}
use reccado.Prelude.{
  ℕ, ◌+◌, ◌-◌, ◌≤◌, ◌≡◌, ◌≢◌, ◌⊎◌, ◌↔◌, refl, arith, Bool, true, false, Option, none, some, List,
  [], ◌∷◌, ◌++◌, length,
}
use reccado.Text.{Text, ascii, ◌===◌, ===_iff}
use reccado.ApiKey.{Instant}
use reccado.Mailbox.{Mailbox, RequestRow, UsageRow, WindowKey}
use reccado.Payload.{transactional_payload_hash}
use reccado.Quota.{check_and_increment_quota, minute_of, day_of, max_per_minute, get_usage_count}
use reccado.Request.{
  get_transactional_request, map_db_status_to_response, http_status_for_transactional_result,
  TransactionalSendResult, reconcile_stale_transactional_requests,
}
use reccado.Request.Stale.{in_doubt, reconcile_stale_transactional_requests-marks}
use reccado.Dispatch.{ProviderReply, returned, find_marker}
use reccado.Send.{
  Checked, Prepared, prepare, handle_transactional_send, submit, hash_input, email_of,
  reserve_and_send, reserve, send_inserted, send_and_settle, settle, settle_row, new_row, replay,
}
use reccado.Send.Fresh.{IsFresh}
use reccado.Send.Outcome.{Outcome, submit-outcome}
use reccado.Send.Answer.{submit-row_agrees}
use reccado.Send.Gates.{Permitted, handle_transactional_send-Permitted}
use reccado.Quota.Limits.{check_and_increment_quota-counts}
use reccado.History.{Operation, send, reconcile, apply, apply_all, emails_for, AllFresh}
use reccado.History.Once.{emails_for-le_one}
use reccado.History.Replay.{
  submit-answers_again, submit-conflicts, original_answer, conflict_answer,
}
use reccado.Tests.{platform, pepper, key_id, live_key, mailbox, request, first, second, prepared}

abbrev bo : Text
bo = ascii "Bo"

prepare-first : prepare platform pepper mailbox (request bo) first ≡ Checked.ok (prepared bo)
unfolding prepare reccado.Auth.authenticate_transactional_key reccado.Text.starts_with
    reccado.Text.trim reccado.Auth.check_raw_key reccado.ApiKey.parse_api_key
    reccado.ApiKey.parse_parts reccado.Text.split reccado.Text.◌===◌
    reccado.ApiKey.parse_environment reccado.Prelude.all reccado.ApiKey.is_hex
    reccado.Auth.get_api_key_record reccado.Auth.check_key reccado.ApiKey.verify_api_key_secret
    reccado.ApiKey.constant_time_equal reccado.ApiKey.hash_api_key reccado.ApiKey.sha256_hex
    reccado.ApiKey.differences reccado.ApiKey.has_scope reccado.ApiKey.hex
    reccado.ApiKey.is_api_key_expired reccado.Auth.check_key_state reccado.Auth.has_scopes
    reccado.Policy.allow_rules reccado.Policy.check_recipient_policy reccado.Policy.deny_rules
    reccado.Policy.escape_regex reccado.Policy.is_line_end reccado.Policy.is_meta
    reccado.Policy.match_normalized reccado.Policy.match_rule reccado.Policy.parse_regex
    reccado.Policy.policy_rules reccado.Policy.replace_star reccado.Policy.test_regex
    reccado.Prelude.any reccado.Prelude.keep reccado.Prelude.find reccado.Request.get_member
    reccado.Request.record_of_strings reccado.Request.transactional_request_schema
    reccado.Request.variables_of reccado.Send.check_idempotency_key reccado.Send.check_message
    reccado.Send.get_template reccado.Suppression.find_suppression reccado.Suppression.is_lapsed
    reccado.Suppression.is_recipient_suppressed reccado.Template.add_all
    reccado.Template.closed_name reccado.Template.escape_html
    reccado.Template.extract_template_variables reccado.Template.has_newline
    reccado.Template.interpolate reccado.Template.interpolate_html
    reccado.Template.interpolate_template reccado.Template.is_word reccado.Template.keys
    reccado.Template.lacking reccado.Template.lookup reccado.Template.match_variable
    reccado.Template.names_of reccado.Template.render reccado.Template.replace_unit
    reccado.Template.replacement reccado.Template.tokens reccado.Template.tokens_from
    reccado.Template.validate_template_variables reccado.Template.word_prefix reccado.Text.contains
    reccado.Text.ends_with reccado.Text.has_unit reccado.Text.is_space reccado.Text.lower_unit
    reccado.Text.onto_first reccado.Text.to_lower reccado.Text.trim_start
prepare-first = refl

abbrev usage : List UsageRow
usage =
    record { key_id = key_id; window_key = WindowKey.rate_minute 0; value = 1; updated_at = 100 }
    ∷ (record { key_id = key_id; window_key = WindowKey.quota_daily 0; value = 1; updated_at = 100 }
        ∷ [])

first_is_free : get_transactional_request mailbox key_id (ascii "order-1") ≡ none
unfolding get_transactional_request
first_is_free = refl

first_is_charged : check_and_increment_quota live_key key_id 100 [] ≡ some usage
unfolding check_and_increment_quota reccado.Quota.daily_room reccado.Quota.increment_usage
    reccado.Quota.get_usage_count ◌===◌
first_is_charged = refl

first-IsFresh : IsFresh (ascii "r1") mailbox
unfolding find_marker reccado.Prelude.find
first-IsFresh = record { no_row = refl; no_marker = refl }

abbrev sent_once : Mailbox
sent_once = (submit platform (prepared bo) first mailbox).0

-- A retry after the first call.
abbrev calls : List Operation
calls =
    send pepper (request bo) first ∷ (send pepper (request bo) second ∷ (reconcile 200 300 ∷ []))

-- The ids are new, and the two sends hand one email to the provider.
calls_run :
    AllFresh platform calls mailbox
    × (emails_for platform key_id (ascii "order-1") calls mailbox ≡ 1)
unfolding prepare reccado.Auth.authenticate_transactional_key reccado.Text.starts_with
    reccado.Text.trim reccado.Auth.check_raw_key reccado.ApiKey.parse_api_key
    reccado.ApiKey.parse_parts reccado.Text.split reccado.Text.◌===◌
    reccado.ApiKey.parse_environment reccado.Prelude.all reccado.ApiKey.is_hex
    reccado.Auth.get_api_key_record reccado.Auth.check_key reccado.ApiKey.verify_api_key_secret
    reccado.ApiKey.constant_time_equal reccado.ApiKey.hash_api_key reccado.ApiKey.sha256_hex
    reccado.ApiKey.differences reccado.ApiKey.has_scope reccado.ApiKey.hex
    reccado.ApiKey.is_api_key_expired reccado.Auth.check_key_state reccado.Auth.has_scopes
    reccado.Policy.allow_rules reccado.Policy.check_recipient_policy reccado.Policy.deny_rules
    reccado.Policy.escape_regex reccado.Policy.is_line_end reccado.Policy.is_meta
    reccado.Policy.match_normalized reccado.Policy.match_rule reccado.Policy.parse_regex
    reccado.Policy.policy_rules reccado.Policy.replace_star reccado.Policy.test_regex
    reccado.Prelude.any reccado.Prelude.keep reccado.Prelude.find reccado.Request.get_member
    reccado.Request.record_of_strings reccado.Request.transactional_request_schema
    reccado.Request.variables_of reccado.Send.check_idempotency_key reccado.Send.check_message
    reccado.Send.get_template reccado.Suppression.find_suppression reccado.Suppression.is_lapsed
    reccado.Suppression.is_recipient_suppressed reccado.Template.add_all
    reccado.Template.closed_name reccado.Template.escape_html
    reccado.Template.extract_template_variables reccado.Template.has_newline
    reccado.Template.interpolate reccado.Template.interpolate_html
    reccado.Template.interpolate_template reccado.Template.is_word reccado.Template.keys
    reccado.Template.lacking reccado.Template.lookup reccado.Template.match_variable
    reccado.Template.names_of reccado.Template.render reccado.Template.replace_unit
    reccado.Template.replacement reccado.Template.tokens reccado.Template.tokens_from
    reccado.Template.validate_template_variables reccado.Template.word_prefix reccado.Text.contains
    reccado.Text.ends_with reccado.Text.has_unit reccado.Text.is_space reccado.Text.lower_unit
    reccado.Text.onto_first reccado.Text.to_lower reccado.Text.trim_start handle_transactional_send
    submit reserve_and_send reserve send_inserted send_and_settle settle settle_row email_of new_row
    replay reccado.Request.get_transactional_request reccado.Request.insert_transactional_request
    reccado.Request.db_status_for_send_outcome reccado.Request.map_db_status_to_response
    reccado.Quota.check_and_increment_quota reccado.Quota.get_usage_count
    reccado.Quota.increment_usage reccado.Quota.daily_room reccado.Dispatch.do_transactional_send
    reccado.Dispatch.send_marked reccado.Dispatch.classify_outcome reccado.Dispatch.find_marker
    reccado.Dispatch.set_marker reccado.Dispatch.transactional_send_marker_key
    reccado.Dispatch.extract_provider_message_id reccado.Payload.transactional_payload_hash
    reccado.Payload.payload_hash_matches reccado.Payload.canonical_payload
    reccado.Payload.json_string reccado.Payload.json_units reccado.Payload.json_unit
    reccado.Payload.comma_join reccado.Payload.sort_variables reccado.Payload.insert_variable
    reccado.Payload.text_le reccado.Prelude.update_where reccado.Prelude.delete_where apply
    apply_all emails_for AllFresh reccado.Request.reconcile_stale_transactional_requests
    reccado.Request.stale_ids reccado.Request.mark_all_stale
calls_run = (
  (
    record { no_row = refl; no_marker = refl },
    (record { no_row = refl; no_marker = refl }, (tt, tt)),
  ),
  refl,
)

emails_for-le_one_example : emails_for platform key_id (ascii "order-1") calls mailbox ≤ 1
emails_for-le_one_example =
    emails_for-le_one platform key_id (ascii "order-1") calls mailbox calls_run.0

handle_transactional_send-Permitted_example :
    ((handle_transactional_send platform pepper (request bo) first mailbox).0.outbox ≡ [])
    ⊎ ((q : Prepared) × Permitted platform pepper mailbox (request bo) first q
        × ((handle_transactional_send platform pepper (request bo) first mailbox).0.outbox
            ≡ [] ++ email_of q ∷ []))
handle_transactional_send-Permitted_example =
    handle_transactional_send-Permitted platform pepper mailbox (request bo) first first-IsFresh

submit-outcome_example : Outcome platform (prepared bo) first mailbox
submit-outcome_example = submit-outcome platform (prepared bo) first mailbox first-IsFresh

submit-row_agrees_example :
    (row : RequestRow) × (res : TransactionalSendResult) × ((submit platform
        (prepared bo)
        first
        mailbox).1
      ≡ some res)
    × (get_transactional_request sent_once key_id (ascii "order-1") ≡ some row)
    × (row.request_id ≡ res.request_id)
    × (map_db_status_to_response row.status ≡ res.status)
    × (row.provider_message_id ≡ res.provider_message_id)
    × (row.variables ≡ none)
submit-row_agrees_example =
    submit-row_agrees platform (prepared bo) first mailbox usage first_is_free first-IsFresh
      first_is_charged

submit-answers_again_example :
    let now = apply_all platform (reconcile 200 300 ∷ []) sent_once in
    (row : RequestRow) × (get_transactional_request now key_id (ascii "order-1") ≡ some row)
    × (row.request_id ≡ ascii "r1")
    × (submit platform (prepared bo) second now
        ≡ (now, some (original_answer platform (prepared bo) row)))
submit-answers_again_example =
    submit-answers_again platform (prepared bo) first mailbox usage (reconcile 200 300 ∷ [])
      (prepared bo) second first_is_free first-IsFresh first_is_charged
      (unfold AllFresh in (tt, tt)) refl refl refl

abbrev al : Text
al = ascii "Al"

other_text : (s t : Text) → (s === t) ≡ false → s ≢ t
other_text s t h e = ground (arith, (===_iff s t).1 e)

other_payload :
    transactional_payload_hash platform (hash_input (prepared bo))
    ≢ transactional_payload_hash platform (hash_input (prepared al))
unfolding reccado.Text.trim reccado.Text.◌===◌ reccado.ApiKey.sha256_hex reccado.ApiKey.hex
    reccado.Text.is_space reccado.Text.lower_unit reccado.Text.to_lower reccado.Text.trim_start
    reccado.Payload.transactional_payload_hash reccado.Payload.payload_hash_matches
    reccado.Payload.canonical_payload reccado.Payload.json_string reccado.Payload.json_units
    reccado.Payload.json_unit reccado.Payload.comma_join reccado.Payload.sort_variables
    reccado.Payload.insert_variable reccado.Payload.text_le
other_payload = other_text _ _ refl

submit-conflicts_example :
    let now = apply_all platform [] sent_once in
    (row : RequestRow) × (row.request_id ≡ ascii "r1")
    × (submit platform (prepared al) second now
        ≡ (now, some (conflict_answer platform (prepared al) row)))
submit-conflicts_example =
    submit-conflicts platform (prepared bo) first mailbox usage [] (prepared al) second
      first_is_free first-IsFresh first_is_charged (unfold AllFresh in tt) refl refl other_payload

apply_all-within_minute_example :
    get_usage_count
      (apply_all platform calls mailbox).api_key_usage
      key_id
      (WindowKey.rate_minute 0)
    ≤ max_per_minute
apply_all-within_minute_example =
    apply_all-within_minute platform key_id 0 calls mailbox calls_run.0
      (unfold get_usage_count reccado.Prelude.find in ground arith)

check_and_increment_quota-counts_example :
    (get_usage_count usage key_id (WindowKey.rate_minute (minute_of 100))
      ≡ get_usage_count [] key_id (WindowKey.rate_minute (minute_of 100)) + 1)
    × (get_usage_count usage key_id (WindowKey.rate_minute (minute_of 100)) ≤ max_per_minute)
    × (get_usage_count usage key_id (WindowKey.quota_daily (day_of 100))
        ≡ get_usage_count [] key_id (WindowKey.quota_daily (day_of 100)) + 1)
    × (get_usage_count usage key_id (WindowKey.quota_daily (day_of 100)) ≤ 2)
check_and_increment_quota-counts_example =
    check_and_increment_quota-counts live_key key_id 100 [] usage first_is_charged

-- The reservation of a call that went no further.
abbrev interrupted : Mailbox
interrupted = record mailbox { transactional_requests = new_row platform (prepared bo) first ∷ [] }

interrupted_once : (reconcile_stale_transactional_requests interrupted 200 300).1 ≡ 1
unfolding reconcile_stale_transactional_requests reccado.Request.stale_ids new_row
interrupted_once = refl

reconcile_stale_transactional_requests-marks_example :
    let (after, count) = reconcile_stale_transactional_requests interrupted 200 300 in
    (after.transactional_requests ≡ in_doubt 300 (new_row platform (prepared bo) first) ∷ [])
    × (count ≡ 1)
unfolding new_row reccado.Prelude.any reccado.Prelude.keep
reconcile_stale_transactional_requests-marks_example =
    reconcile_stale_transactional_requests-marks interrupted 200 300 (refl, tt)
