-- ===== src/Quota.antt =====
-- src/do/transactional-send-ops.ts: the usage counters of a key, `checkAndIncrementQuota`.
pub mod Counters
pub mod Limits
use reccado.Prelude.{
  ℕ, zero, suc, ◌+◌, ◌/◌, Bool, true, false, ◌&&◌, Option, none, some, List, [], ◌∷◌, leb, ltb,
  ◌==◌, if◌then◌else◌, find,
}
use reccado.Text.{Text, ◌===◌}
use reccado.ApiKey.{ApiKeyRecord, Instant}
use reccado.Mailbox.{UsageRow, WindowKey, rate_minute, quota_daily}

abbrev pub max_per_minute : ℕ
max_per_minute = 60

-- The prefixes of the ISO text, `slice(0, 16)` and `slice(0, 10)`, as numbers.
abbrev pub minute_of : Instant → ℕ
minute_of now = now / 60_000

abbrev pub day_of : Instant → ℕ
day_of now = now / 86_400_000

abbrev pub same_window : WindowKey → WindowKey → Bool
same_window (rate_minute a) (rate_minute b) = a == b
same_window (quota_daily a) (quota_daily b) = a == b
same_window _ _ = false

abbrev pub is_usage : Text → WindowKey → UsageRow → Bool
is_usage key_id window u = u.key_id === key_id && same_window u.window_key window

unfoldable pub get_usage_count : List UsageRow → Text → WindowKey → ℕ
unfolding find
get_usage_count usage key_id window = elim (find (is_usage key_id window) usage) [
  | none ↦ 0
  | some u ↦ u.value
]

-- `INSERT … ON CONFLICT DO UPDATE SET value = value + 1`
unfoldable pub increment_usage : Text → WindowKey → Instant → List UsageRow → List UsageRow
increment_usage key_id window now [] =
    record { key_id = key_id; window_key = window; value = 1; updated_at = now } ∷ []
increment_usage key_id window now (u ∷ usage) =
    if is_usage key_id window u
    then record u { value = u.value + 1; updated_at = now } ∷ usage
    else u ∷ increment_usage key_id window now usage

-- `record.quotaMax != null && record.quotaMax > 0`
abbrev pub daily_limit : Option ℕ → Option ℕ
daily_limit none = none
daily_limit (some zero) = none
daily_limit (some (suc n)) = some (suc n)

unfoldable pub daily_room : Option ℕ → Text → Instant → List UsageRow → Bool
daily_room none key_id now usage = true
daily_room (some limit) key_id now usage =
    ltb (get_usage_count usage key_id (quota_daily (day_of now))) limit

abbrev pub charge_day : Option ℕ → Text → Instant → List UsageRow → List UsageRow
charge_day none key_id now usage = usage
charge_day (some limit) key_id now usage =
    increment_usage key_id (quota_daily (day_of now)) now usage

-- The usage after a charge, or `none` where a limit is reached and nothing is charged.
unfoldable pub check_and_increment_quota :
    ApiKeyRecord → Text → Instant → List UsageRow → Option (List UsageRow)
check_and_increment_quota key key_id now usage =
    if leb max_per_minute (get_usage_count usage key_id (rate_minute (minute_of now)))
    then none
    else if daily_room (daily_limit key.quota_max) key_id now usage
    then some (
        charge_day (daily_limit key.quota_max) key_id now
          (increment_usage key_id (rate_minute (minute_of now)) now usage))
    else none
