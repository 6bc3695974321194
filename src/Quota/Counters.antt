-- ===== src/Quota/Counters.antt =====
-- The usage counters of src/do/transactional-send-ops.ts, read back after an increment.
use reccado.Prelude.{
  ap, ◌+◌, ◌≡◌, sym, ◌∙◌, true, ◌&&◌, List, [], ◌∷◌, arith, inl, inr, Bool-cases, ==_iff,
}
use reccado.Text.{Text, ◌===◌, ===_refl, ===_iff}
use reccado.ApiKey.{Instant}
use reccado.Mailbox.{UsageRow, WindowKey, rate_minute, quota_daily}
use reccado.Quota.{same_window, is_usage, get_usage_count, increment_usage}

same_window_refl : (w : WindowKey) → same_window w w ≡ true
same_window_refl (rate_minute a) = ground arith
same_window_refl (quota_daily a) = ground arith

same_window_sound : (v w : WindowKey) → same_window v w ≡ true → v ≡ w
same_window_sound (rate_minute a) (rate_minute b) h = ap rate_minute ((==_iff a b).0 h)
same_window_sound (quota_daily a) (quota_daily b) h = ap quota_daily ((==_iff a b).0 h)
same_window_sound (rate_minute a) (quota_daily b) h = ground arith
same_window_sound (quota_daily a) (rate_minute b) h = ground arith

is_usage_sound :
    (k : Text) (w : WindowKey) (u : UsageRow)
    → is_usage k w u ≡ true
    → (u.key_id ≡ k) × (u.window_key ≡ w)
is_usage_sound k w u h =
    ((===_iff u.key_id k).0 (ground arith), same_window_sound u.window_key w (ground arith))

pub count-increment :
    (k : Text) (w : WindowKey) (now : Instant) (us : List UsageRow)
    → get_usage_count (increment_usage k w now us) k w ≡ get_usage_count us k w + 1
unfolding get_usage_count increment_usage
count-increment k w now [] = ground (arith, ===_refl k, same_window_refl w)
count-increment k w now (u ∷ us) = ground (arith, count-increment k w now us)

-- Two counters are one if the key and the window agree.
abbrev pub SameCounter : Text → WindowKey → Text → WindowKey → Type 0
SameCounter k w l v = (k ≡ l) × (w ≡ v)

pub count-increment_other :
    (k : Text) (w : WindowKey) (l : Text) (v : WindowKey) (now : Instant) (us : List UsageRow)
    → (SameCounter k w l v → ⊥)
    → get_usage_count (increment_usage k w now us) l v ≡ get_usage_count us l v
unfolding get_usage_count increment_usage
count-increment_other k w l v now [] ne = elim (Bool-cases (k === l && same_window w v)) [
  | inl h ↦ absurd (ne ((===_iff k l).0 (ground arith), same_window_sound w v (ground arith)))
  | inr h ↦ ground arith
]
count-increment_other k w l v now (u ∷ us) ne =
    let rest = count-increment_other k w l v now us ne in
    elim (Bool-cases (is_usage k w u)) [
      | inr h ↦ ground arith
      | inl h ↦ elim (Bool-cases (is_usage l v u)) [
        | inl g ↦
            let (a, b) = is_usage_sound k w u h in
            let (c, d) = is_usage_sound l v u g in absurd (ne (sym a ∙ c, sym b ∙ d))
        | inr g ↦ ground arith
      ]
    ]
