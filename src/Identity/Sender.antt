-- ===== src/Identity/Sender.antt =====
-- src/lib/sender-identity.ts: what the From and the Reply-To may be.
use reccado.Prelude.{
  ◌≡◌, ◌⊎◌, inl, inr, refl, sym, ap, ◌∙◌, true, Option, none, some, List, [], ◌∷◌, arith,
  Bool-cases,
}
use reccado.Text.{Text, ◌===◌, ===_iff, trim, to_lower, lower_unit}
use reccado.Header.{non_empty}
use reccado.ApiKey.{is_valid_sender_name}
use reccado.Identity.{
  SenderEnv, SenderIdentity, is_of, first_of, fallback_address, normalize_display_name, is_verified,
  normal_address, resolve_sender_identity,
}

-- The mail may leave as `from`: the operator's address, or one of a domain verified for sending.
abbrev pub MayLeaveAs : SenderEnv → Text → Type 0
MayLeaveAs env from = (from ≡ fallback_address env) ⊎ (is_verified env from ≡ true)

-- Where an answer to the mail goes: to the Reply-To, or to the From where there is none.
abbrev pub answer_address : SenderIdentity → Text
answer_address identity = elim identity.reply_to [ none ↦ identity.from | some address ↦ address ]

to_lower-again : (s : Text) → to_lower (to_lower s) ≡ to_lower s
unfolding to_lower lower_unit
to_lower-again [] = refl
to_lower-again (c ∷ s) = ground (arith, to_lower-again s)

non_empty_same : (s t : Text) → non_empty s ≡ some t → s ≡ t
unfolding non_empty
non_empty_same [] t h = ground arith
non_empty_same (c ∷ s) t h = ground arith

normal_address-lower :
    (address : Option Text) (mailbox : Text)
    → normal_address address ≡ some mailbox
    → to_lower mailbox ≡ mailbox
unfolding normal_address
normal_address-lower none mailbox e = ground arith
normal_address-lower (some value) mailbox e =
    let same = non_empty_same (to_lower (trim value)) mailbox e in
    ap to_lower (sym same) ∙ to_lower-again (trim value) ∙ same

abbrev pub IsUsableName : Option Text → Type 0
IsUsableName none = Unit
IsUsableName (some name) = is_valid_sender_name name ≡ true

display_name-IsUsableName : (value : Option Text) → IsUsableName (normalize_display_name value)
unfolding normalize_display_name
display_name-IsUsableName none = tt
display_name-IsUsableName (some value) = elim (Bool-cases (is_valid_sender_name (trim value))) [
  | inl e ↦ rw e e
  | inr e ↦ rw e tt
]

-- The identity of a mailbox with an address: its From is the operator's address or is of a verified
-- domain; the address that an answer to the mail goes to, the Reply-To where there is one and else
-- the From, is the mailbox's, up to the case of letters; and the name, if any, is one that a header
-- can hold.
pub resolve_sender_identity-honest :
    (env : SenderEnv) (mailbox_address display_name : Option Text) (mailbox : Text)
    → normal_address mailbox_address ≡ some mailbox
    → let identity = resolve_sender_identity env mailbox_address display_name in
      MayLeaveAs env identity.from
      × (to_lower (answer_address identity) ≡ mailbox)
      × IsUsableName identity.from_name
unfolding resolve_sender_identity
resolve_sender_identity-honest env mailbox_address display_name mailbox e =
    let usable = display_name-IsUsableName display_name in
    let lower = normal_address-lower mailbox_address mailbox e in
    elim (Bool-cases (mailbox === to_lower (fallback_address env))) [
      | inl h ↦ rw (e, h, resolve_sender_identity) (inl refl, sym ((===_iff _ _).0 h), usable)
      | inr h ↦ elim (Bool-cases (is_verified env mailbox)) [
        | inl v ↦ rw (e, h, v, resolve_sender_identity) (inr v, lower, usable)
        | inr v ↦ rw (e, h, v, resolve_sender_identity) (inl refl, lower, usable)
      ]
    ]

first_of_sound :
    (domains : List Text) (recipients : List (Option Text)) (alias : Text)
    → first_of domains recipients ≡ some alias
    → is_of domains alias ≡ true
unfolding first_of
first_of_sound domains [] alias e = ground arith
first_of_sound domains (none ∷ recipients) alias e = first_of_sound domains recipients alias e
first_of_sound domains (some raw ∷ recipients) alias e =
    ground (arith, first_of_sound domains recipients alias)
