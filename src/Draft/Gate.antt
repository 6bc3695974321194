-- ===== src/Draft/Gate.antt =====
-- src/do/mailbox-do.ts: which keys of `mailbox_meta` a draft's operations leave alone.
use mathlib.Core.Option
use reccado.Prelude.{
  ◌≡◌, refl, ◌∙◌, ap, Bool, true, false, Option, none, some, [], ◌∷◌, find, find-append_none,
  find-append_some, find-update_where, find-delete_where_kept, find_sound, Option-cases, inl, inr,
}
use reccado.Text.{Text, ◌===◌, ===_iff, ===_refl}
use reccado.ApiKey.{Instant}
use reccado.Header.{outbound_send_idempotency_key}
use reccado.Inbox.{Inbox, MetaRow, MetaValue}
use reccado.Draft.Confirm.{find_meta, insert_meta, set_meta, delete_meta, draft_gate}
use reccado.Draft.Flights.{put_meta, remember}

-- Whether `mailbox_meta` has a row with the key.
pub data HasMeta (m : Inbox) (key : Text) : Type 0 where
  has : (row : MetaRow) → find_meta m key ≡ some row → HasMeta m key

pub insert_meta-HasMeta :
    (key other : Text) (value : MetaValue) (now : Instant) (m : Inbox)
    → HasMeta m key
    → HasMeta (insert_meta other value now m) key
unfolding insert_meta find_meta
insert_meta-HasMeta key other value now m (has row e) =
    has row (find-append_some (λ r. r.key === key) m.mailbox_meta _ row e)

find_here : (p : MetaRow → Bool) (row : MetaRow) → p row ≡ true → find p (row ∷ []) ≡ some row
unfolding find
find_here p row h = rw h refl

pub insert_meta-has :
    (key : Text) (value : MetaValue) (now : Instant) (m : Inbox)
    → HasMeta (insert_meta key value now m) key
unfolding insert_meta find_meta
insert_meta-has key value now m =
    let row : MetaRow = record { key = key; value = value; updated_at = now } in
    let p : MetaRow → Bool = λ r. r.key === key in
    elim (Option-cases (find p m.mailbox_meta)) [
      | inl e ↦
          has row (find-append_none p m.mailbox_meta (row ∷ []) e ∙ find_here p row (===_refl key))
      | inr (old, e) ↦ has old (find-append_some p m.mailbox_meta (row ∷ []) old e)
    ]

pub set_meta-HasMeta :
    (key other : Text) (value : MetaValue) (now : Instant) (m : Inbox)
    → HasMeta m key
    → HasMeta (set_meta other value now m) key
unfolding set_meta find_meta
set_meta-HasMeta key other value now m (has row e) = has _ (
    find-update_where (λ r. r.key === key) (λ r. r.key === other)
      (λ r. record r { value = value; updated_at = now }) m.mailbox_meta (λ r. refl)
    ∙ ap (Option.map _) e)

pub delete_meta-HasMeta :
    (key other : Text) (m : Inbox)
    → key === other ≡ false
    → HasMeta m key
    → HasMeta (delete_meta other m) key
unfolding delete_meta find_meta
delete_meta-HasMeta key other m h (has row e) =
    let same : row.key ≡ key =
      (===_iff _ _).0 (find_sound (λ r. r.key === key) m.mailbox_meta row e) in
    has row (
      find-delete_where_kept (λ r. r.key === key) (λ r. r.key === other) m.mailbox_meta row e
        (rw same h))

put_meta-HasMeta :
    (key other : Text) (value : MetaValue) (now : Instant) (m : Inbox)
    → HasMeta m key
    → HasMeta (put_meta other value now m) key
unfolding put_meta
put_meta-HasMeta key other value now m h = elim (Option-cases (find_meta m other)) [
  | inl e ↦ rw (e, put_meta) (insert_meta-HasMeta key other value now m h)
  | inr (row, e) ↦ rw (e, put_meta) (set_meta-HasMeta key other value now m h)
]

pub remember-HasMeta :
    (key other : Text) (s : Option Text) (now : Instant) (m : Inbox)
    → HasMeta m key
    → HasMeta (remember other s now m).0 key
remember-HasMeta key other none now m h = h
remember-HasMeta key other (some s) now m h = put_meta-HasMeta key other _ now m h

-- The gates of different drafts are different, and no idempotency key of a send is a gate.
pub draft_gate-=== : (a b : Text) → draft_gate a === draft_gate b ≡ a === b
unfolding draft_gate ◌===◌
draft_gate-=== a b = refl

pub draft_gate-send_key :
    (a draft_id attempt_key : Text)
    → draft_gate a === outbound_send_idempotency_key draft_id attempt_key ≡ false
unfolding draft_gate ◌===◌ outbound_send_idempotency_key
draft_gate-send_key a draft_id attempt_key = refl
