-- ===== src/Suppression/Expiry.antt =====
-- src/do/mailbox-suppressions.ts: how long a recipient stays suppressed.
use reccado.Prelude.{
  ◌+◌, ◌*◌, ◌≡◌, refl, sym, ap, ◌∙◌, true, false, Option, none, some, arith, leb, if◌then◌else◌,
  find-append_none, find-delete_where_kept,
}
use reccado.Text.{Text, ◌===◌, ===_refl}
use reccado.ApiKey.{Instant}
use reccado.Mailbox.{Mailbox, SuppressionRow, SuppressionReason, hard_bounce, complaint}
use reccado.Suppression.{
  normal_email, find_suppression, is_lapsed, is_recipient_suppressed, add_suppression, is_manual,
  remove_suppression, day_ms, suppression_expiry_for,
}

find-add_suppression :
    (email : Text) (reason : SuppressionReason) (event : Option Text) (expires : Option Instant)
    (now : Instant) (m : Mailbox)
    → find_suppression m (normal_email email) ≡ none
    → find_suppression (add_suppression email reason event expires now m) (normal_email email)
      ≡ some (record {
        email = normal_email email;
        reason = reason;
        source_event_id = event;
        created_at = now;
        updated_at = now;
        expires_at = expires;
      })
unfolding find_suppression add_suppression
find-add_suppression email reason event expires now m free =
    rw (free, add_suppression)
      (find-append_none (λ s. s.email === normal_email email) m.recipient_suppressions _ free
        ∙ rw (===_refl (normal_email email)) refl)

suppressed_by :
    (m : Mailbox) (recipient : Text) (row : SuppressionRow) (t : Instant)
    → find_suppression m (normal_email recipient) ≡ some row
    → is_recipient_suppressed m recipient t ≡ (if is_lapsed t row then none else some row.reason)
unfolding is_recipient_suppressed
suppressed_by m recipient row t e = rw (e, is_recipient_suppressed) refl

-- A hard bounce of an address without a row suppresses it, however it is spelled in case and outer
-- spaces, for exactly 90 days.
pub hard_bounce-expiry :
    (email recipient : Text) (event : Option Text) (now t : Instant) (m : Mailbox)
    → find_suppression m (normal_email email) ≡ none
    → normal_email recipient ≡ normal_email email
    → is_recipient_suppressed
        (add_suppression email hard_bounce event (suppression_expiry_for hard_bounce now) now m)
        recipient
        t
      ≡ (if leb (now + 90 * day_ms) t then none else some hard_bounce)
unfolding is_lapsed suppression_expiry_for
hard_bounce-expiry email recipient event now t m free same =
    let after =
      add_suppression email hard_bounce event (suppression_expiry_for hard_bounce now) now m in
    suppressed_by after recipient _ t (
      ap (find_suppression after) same
      ∙ find-add_suppression email hard_bounce event (suppression_expiry_for hard_bounce now) now m
          free)

-- A complaint of an address without a row suppresses it for ever.
pub complaint-permanent :
    (email recipient : Text) (event : Option Text) (now t : Instant) (m : Mailbox)
    → find_suppression m (normal_email email) ≡ none
    → normal_email recipient ≡ normal_email email
    → is_recipient_suppressed
        (add_suppression email complaint event (suppression_expiry_for complaint now) now m)
        recipient
        t
      ≡ some complaint
unfolding is_lapsed suppression_expiry_for
complaint-permanent email recipient event now t m free same =
    let after =
      add_suppression email complaint event (suppression_expiry_for complaint now) now m in
    suppressed_by after recipient _ t (
      ap (find_suppression after) same
      ∙ find-add_suppression email complaint event (suppression_expiry_for complaint now) now m
          free)

-- Where the row of an address has lapsed, adding a suppression leaves the address unsuppressed at that
-- time, whatever the new reason and expiry are.
pub add_suppression-lapsed :
    (email : Text) (reason : SuppressionReason) (event : Option Text) (expires : Option Instant)
    (now : Instant) (m : Mailbox) (row : SuppressionRow)
    → find_suppression m (normal_email email) ≡ some row
    → is_lapsed now row ≡ true
    → is_recipient_suppressed (add_suppression email reason event expires now m) email now ≡ none
unfolding add_suppression is_recipient_suppressed
add_suppression-lapsed email reason event expires now m row e h =
    rw (e, add_suppression) (rw (e, is_recipient_suppressed, h) refl)

-- Without the override, removing an address does not lift a suppression that the provider caused.
pub remove_suppression-provider :
    (email : Text) (m : Mailbox) (row : SuppressionRow) (recipient : Text) (t : Instant)
    → find_suppression m (normal_email recipient) ≡ some row
    → is_manual row.reason ≡ false
    → is_recipient_suppressed (remove_suppression email false m).0 recipient t
      ≡ is_recipient_suppressed m recipient t
unfolding remove_suppression find_suppression
remove_suppression-provider email m row recipient t e h =
    suppressed_by (remove_suppression email false m).0 recipient row t
      (find-delete_where_kept _ _ m.recipient_suppressions row e (ground arith))
    ∙ sym (suppressed_by m recipient row t e)
