-- ===== src/Quota/Limits.antt =====
-- The limits of src/do/transactional-send-ops.ts, `checkAndIncrementQuota`.
use reccado.Prelude.{
  ℕ, suc, ◌+◌, ◌≤◌, ◌<◌, ◌↔◌, ◌≡◌, refl, sym, ap, ◌∙◌, true, Option, none, some, List, arith, inl,
  inr, ◌⊎◌, Bool-cases, ◌==◌, ==_iff,
}
use reccado.Text.{Text, ◌===◌, ===_iff}
use reccado.ApiKey.{ApiKeyRecord, Instant}
use reccado.Mailbox.{UsageRow, rate_minute, quota_daily}
use reccado.Quota.{
  max_per_minute, minute_of, day_of, get_usage_count, increment_usage, daily_limit, daily_room,
  charge_day, check_and_increment_quota,
}
use reccado.Quota.Counters.{SameCounter, count-increment, count-increment_other}

minute_is_no_day : (a b : ℕ) → rate_minute a ≡ quota_daily b → ⊥
minute_is_no_day a b e = ground arith

day_is_no_minute : (a b : ℕ) → quota_daily a ≡ rate_minute b → ⊥
day_is_no_minute a b e = ground arith

-- A charge of the day leaves the counters of the minutes, and the other way round.
minute-charge_day :
    (limit : Option ℕ) (k : Text) (now : Instant) (us : List UsageRow) (l : Text) (n : ℕ)
    → get_usage_count (charge_day limit k now us) l (rate_minute n)
      ≡ get_usage_count us l (rate_minute n)
minute-charge_day none k now us l n = refl
minute-charge_day (some limit) k now us l n =
    count-increment_other k (quota_daily (day_of now)) l (rate_minute n) now us
      (λ e. day_is_no_minute (day_of now) n e.1)

day-charge_minute :
    (k : Text) (now : Instant) (us : List UsageRow) (l : Text) (d : ℕ)
    → get_usage_count (increment_usage k (rate_minute (minute_of now)) now us) l (quota_daily d)
      ≡ get_usage_count us l (quota_daily d)
day-charge_minute k now us l d =
    count-increment_other k (rate_minute (minute_of now)) l (quota_daily d) now us
      (λ e. minute_is_no_day (minute_of now) d e.1)

-- What a charge has tested, and what it leaves.
record Charged (key : ApiKeyRecord) (k : Text) (now : Instant) (before after : List UsageRow)
    : Type 0 where
  minute_room : get_usage_count before k (rate_minute (minute_of now)) < max_per_minute
  day_room : daily_room (daily_limit key.quota_max) k now before ≡ true
  charged :
      charge_day
        (daily_limit key.quota_max)
        k
        now
        (increment_usage k (rate_minute (minute_of now)) now before)
      ≡ after

check-Charged :
    (key : ApiKeyRecord) (k : Text) (now : Instant) (before after : List UsageRow)
    → check_and_increment_quota key k now before ≡ some after
    → Charged key k now before after
unfolding check_and_increment_quota
check-Charged key k now before after h = record {
  minute_room = ground arith;
  day_room = ground arith;
  charged = ground arith;
}

counted_minute :
    (key : ApiKeyRecord) (k : Text) (now : Instant) (before after : List UsageRow)
    → Charged key k now before after
    → get_usage_count after k (rate_minute (minute_of now))
      ≡ get_usage_count before k (rate_minute (minute_of now)) + 1
counted_minute key k now before after c =
    ap (λ us. get_usage_count us k (rate_minute (minute_of now))) (sym c.charged)
    ∙ minute-charge_day (daily_limit key.quota_max) k now _ k (minute_of now)
    ∙ count-increment k (rate_minute (minute_of now)) now before

other_minute :
    (key : ApiKeyRecord) (k : Text) (now : Instant) (before after : List UsageRow) (l : Text)
    (n : ℕ)
    → (SameCounter k (rate_minute (minute_of now)) l (rate_minute n) → ⊥)
    → Charged key k now before after
    → get_usage_count after l (rate_minute n) ≡ get_usage_count before l (rate_minute n)
other_minute key k now before after l n ne c =
    ap (λ us. get_usage_count us l (rate_minute n)) (sym c.charged)
    ∙ minute-charge_day (daily_limit key.quota_max) k now _ l n
    ∙ count-increment_other k (rate_minute (minute_of now)) l (rate_minute n) now before ne

-- No charge takes a counter of a minute over 60, whichever key and minute it counts.
pub check_and_increment_quota-within_minute :
    (key : ApiKeyRecord) (k : Text) (now : Instant) (before after : List UsageRow) (l : Text)
    (n : ℕ)
    → check_and_increment_quota key k now before ≡ some after
    → get_usage_count before l (rate_minute n) ≤ max_per_minute
    → get_usage_count after l (rate_minute n) ≤ max_per_minute
check_and_increment_quota-within_minute key k now before after l n h bound =
    let c = check-Charged key k now before after h in
    elim (Bool-cases (k === l)) [
      | inr other ↦
          rw (other_minute key k now before after l n (λ e. ground (arith, (===_iff k l).1 e.0)) c)
            bound
      | inl same ↦ elim (Bool-cases (minute_of now == n)) [
        | inr other ↦
            rw (other_minute key k now before after l n (λ e. ground (arith, e.1)) c) bound
        | inl at ↦
            let key_same = (===_iff k l).0 same in
            let minute_same = (==_iff (minute_of now) n).0 at in
            let counted = counted_minute key k now before after c in
            let free = c.minute_room in rw (sym key_same, sym minute_same) (omega arith)
      ]
    ]

-- What a charge adds to the counter of the day, and the bound on it: nothing and none for a key
-- without a daily limit.
abbrev pub day_charge : Option ℕ → ℕ
day_charge none = 0
day_charge (some limit) = 1

abbrev pub IsWithin : Option ℕ → ℕ → Type 0
IsWithin none n = Unit {0}
IsWithin (some limit) n = n ≤ limit

counted_day :
    (limit : Option ℕ) (k : Text) (now : Instant) (before after : List UsageRow)
    → daily_room limit k now before ≡ true
    → charge_day limit k now (increment_usage k (rate_minute (minute_of now)) now before) ≡ after
    → (get_usage_count after k (quota_daily (day_of now))
        ≡ get_usage_count before k (quota_daily (day_of now)) + day_charge limit)
      × IsWithin limit (get_usage_count after k (quota_daily (day_of now)))
unfolding daily_room
counted_day none k now before after room charged = (
  ap (λ us. get_usage_count us k (quota_daily (day_of now))) (sym charged)
      ∙ day-charge_minute k now before k (day_of now)
      ∙ omega arith,
  tt,
)
counted_day (some limit) k now before after room charged =
    let minute = increment_usage k (rate_minute (minute_of now)) now before in
    let day : get_usage_count after k (quota_daily (day_of now))
        ≡ get_usage_count before k (quota_daily (day_of now)) + 1 =
      ap (λ us. get_usage_count us k (quota_daily (day_of now))) (sym charged)
      ∙ count-increment k (quota_daily (day_of now)) now minute
      ∙ ap (λ x. x + 1) (day-charge_minute k now before k (day_of now)) in
    (day, ground (arith, day))

-- A charge, of any key, counts the call once in its minute, and in its day once where the key has a
-- daily limit and not at all where it has none; the minute stays within 60, and the day within the
-- limit, if there is one.
pub check_and_increment_quota-counts :
    (key : ApiKeyRecord) (k : Text) (now : Instant) (before after : List UsageRow)
    → check_and_increment_quota key k now before ≡ some after
    → (get_usage_count after k (rate_minute (minute_of now))
        ≡ get_usage_count before k (rate_minute (minute_of now)) + 1)
      × (get_usage_count after k (rate_minute (minute_of now)) ≤ max_per_minute)
      × (get_usage_count after k (quota_daily (day_of now))
          ≡ get_usage_count before k (quota_daily (day_of now))
            + day_charge (daily_limit key.quota_max))
      × IsWithin (daily_limit key.quota_max) (get_usage_count after k (quota_daily (day_of now)))
check_and_increment_quota-counts key k now before after h =
    let c = check-Charged key k now before after h in
    let minute = counted_minute key k now before after c in
    let (day, within) =
      counted_day (daily_limit key.quota_max) k now before after c.day_room c.charged in
    let free = c.minute_room in (minute, omega arith, day, within)

-- A key with a daily limit is refused exactly when its minute has 60 calls or its day has the
-- maximum.
pub check_and_increment_quota-refuses :
    (key : ApiKeyRecord) (k : Text) (now : Instant) (us : List UsageRow) (limit : ℕ)
    → key.quota_max ≡ some (suc limit)
    → (check_and_increment_quota key k now us ≡ none) ↔ (
        (max_per_minute ≤ get_usage_count us k (rate_minute (minute_of now)))
        ⊎ (suc limit ≤ get_usage_count us k (quota_daily (day_of now))))
unfolding check_and_increment_quota daily_room
check_and_increment_quota-refuses key k now us limit e =
    rw (e, check_and_increment_quota) (ground arith)
