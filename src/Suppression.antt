-- ===== src/Suppression.antt =====
-- src/do/mailbox-suppressions.ts: the mailbox's mirror of suppressed recipients.
pub mod Expiry
use reccado.Prelude.{
  ℕ, ◌+◌, ◌*◌, Bool, true, false, ◌&&◌, ◌||◌, Option, none, some, List, [], ◌∷◌, ◌++◌, leb, ltb,
  not, if◌then◌else◌, find, keep, delete_where, length, any,
}
use reccado.Text.{Text, ◌===◌, trim, to_lower}
use reccado.ApiKey.{Instant}
use reccado.Mailbox.{
  Mailbox, SuppressionRow, SuppressionReason, hard_bounce, complaint, manual, provider_rejected,
}

-- `email.trim().toLowerCase()`
abbrev pub normal_email : Text → Text
normal_email email = to_lower (trim email)

unfoldable pub find_suppression : Mailbox → Text → Option SuppressionRow
unfolding find ◌===◌
find_suppression m normalized = find (λ s. s.email === normalized) m.recipient_suppressions

-- `row.expires_at && new Date(row.expires_at) <= now`
unfoldable pub is_lapsed : Instant → SuppressionRow → Bool
is_lapsed now row = elim row.expires_at [ none ↦ false | some at ↦ leb at now ]

-- The reason, where the recipient is suppressed.
unfoldable pub is_recipient_suppressed : Mailbox → Text → Instant → Option SuppressionReason
is_recipient_suppressed m recipient now = elim (find_suppression m (normal_email recipient)) [
  | none ↦ none
  | some row ↦ if is_lapsed now row then none else some row.reason
]

-- `INSERT OR IGNORE`: a row for the address stays as it is.
unfoldable pub add_suppression :
    Text → SuppressionReason → Option Text → Option Instant → Instant → Mailbox → Mailbox
add_suppression email reason source_event_id expires_at now m =
    elim (find_suppression m (normal_email email)) [
      | some row ↦ m
      | none ↦ record m {
        recipient_suppressions =
            m.recipient_suppressions
            ++ record {
              email = normal_email email;
              reason = reason;
              source_event_id = source_event_id;
              created_at = now;
              updated_at = now;
              expires_at = expires_at;
            }
              ∷ [];
      }
    ]

abbrev pub is_manual : SuppressionReason → Bool
is_manual manual = true
is_manual _ = false

abbrev pub is_removable : Text → Bool → SuppressionRow → Bool
is_removable normalized allow_provider_removal s =
    s.email === normalized && (allow_provider_removal || is_manual s.reason)

-- The mailbox afterwards, and whether a row went.
unfoldable pub remove_suppression : Text → Bool → Mailbox → Mailbox × Bool
unfolding delete_where
remove_suppression email allow_provider_removal m =
    let p = is_removable (normal_email email) allow_provider_removal in
    (
      record m { recipient_suppressions = delete_where p m.recipient_suppressions },
      any p m.recipient_suppressions,
    )

-- Newest first.
unfoldable pub insert_newest : SuppressionRow → List SuppressionRow → List SuppressionRow
insert_newest s [] = s ∷ []
insert_newest s (t ∷ rows) =
    let rest = insert_newest s rows in
    if leb t.created_at s.created_at then s ∷ (t ∷ rows) else t ∷ rest

unfoldable pub newest_first : List SuppressionRow → List SuppressionRow
unfolding insert_newest
newest_first [] = []
newest_first (s ∷ rows) = insert_newest s (newest_first rows)

unfoldable pub list_suppressions : Mailbox → Instant → List SuppressionRow
unfolding keep is_lapsed
list_suppressions m now = newest_first (keep (λ s. not (is_lapsed now s)) m.recipient_suppressions)

abbrev pub hard_bounce_suppression_days : ℕ
hard_bounce_suppression_days = 90

abbrev pub day_ms : ℕ
day_ms = 24 * 60 * 60 * 1000

unfoldable pub suppression_expiry_for : SuppressionReason → Instant → Option Instant
suppression_expiry_for hard_bounce now = some (now + hard_bounce_suppression_days * day_ms)
suppression_expiry_for complaint now = none
suppression_expiry_for manual now = none
suppression_expiry_for provider_rejected now = none
