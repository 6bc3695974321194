-- ===== src/Identity.antt =====
-- src/lib/sender-identity.ts: the address that a mailbox's mail goes out as.
pub mod Sender
use reccado.Prelude.{
  Bool, true, false, ◌&&◌, not, Option, none, some, List, [], ◌∷◌, ◌++◌, map, ◌==◌, length, keep,
  if◌then◌else◌,
}
use reccado.Text.{Text, ascii, ◌===◌, trim, to_lower, has_unit, split, contains}
use reccado.ApiKey.{is_valid_sender_name}
use reccado.Header.{non_empty, domain_from_address}

pub record SenderIdentity : Type 0 where
  pub from : Text
  pub from_name : Option Text
  pub reply_to : Option Text

abbrev pub default_from_address : Text
default_from_address = ascii "noreply@mail.example.com"

abbrev pub is_non_empty : Text → Bool
is_non_empty s = not (length s == 0)

abbrev pub normal_domain : Text → Text
normal_domain entry = to_lower (trim entry)

-- `parseSendingDomains`; `split` of the empty text leaves no entry either.
unfoldable pub parse_sending_domains : Option Text → List Text
unfolding split keep
parse_sending_domains none = []
parse_sending_domains (some raw) = keep is_non_empty (map normal_domain (split raw b','))

pub record SenderEnv : Type 0 where
  pub mail_from_address : Option Text
  pub mail_sending_domains : Option Text

-- `value?.trim().toLowerCase() || null`
unfoldable pub normal_address : Option Text → Option Text
unfolding non_empty
normal_address none = none
normal_address (some value) = non_empty (to_lower (trim value))

unfoldable pub domain_of : Option Text → Option Text
domain_of none = none
domain_of (some address) = domain_from_address address

-- The domains verified for sending, and the mailbox's own.
unfoldable pub own_domains : SenderEnv → Option Text → List Text
own_domains env primary_address = elim (domain_of (normal_address primary_address)) [
  | none ↦ parse_sending_domains env.mail_sending_domains
  | some domain ↦ parse_sending_domains env.mail_sending_domains ++ domain ∷ []
]

-- Whether an address is of one of the domains.
unfoldable pub is_of : List Text → Text → Bool
unfolding has_unit contains
is_of domains address =
    has_unit address b'@'
    && elim (domain_from_address address) [ none ↦ false | some domain ↦ contains domains domain ]

unfoldable pub first_of : List Text → List (Option Text) → Option Text
unfolding is_of
first_of domains [] = none
first_of domains (none ∷ recipients) = first_of domains recipients
first_of domains (some raw ∷ recipients) =
    let address = to_lower (trim raw) in
    let rest = first_of domains recipients in if is_of domains address then some address else rest

-- `resolveDeliveredAlias`
unfoldable pub resolve_delivered_alias : SenderEnv → List (Option Text) → Option Text → Option Text
unfolding first_of
resolve_delivered_alias env recipients primary_address =
    first_of (own_domains env primary_address) recipients

-- `env.MAIL_FROM_ADDRESS?.trim() || DEFAULT_FROM_ADDRESS`
unfoldable pub fallback_address : SenderEnv → Text
fallback_address env = elim env.mail_from_address [
  | none ↦ default_from_address
  | some value ↦ elim (non_empty (trim value)) [ none ↦ default_from_address | some s ↦ s ]
]

-- `normalizeDisplayName`
unfoldable pub normalize_display_name : Option Text → Option Text
normalize_display_name none = none
normalize_display_name (some value) =
    if is_valid_sender_name (trim value) then some (trim value) else none

unfoldable pub is_verified : SenderEnv → Text → Bool
unfolding contains
is_verified env mailbox = elim (domain_from_address mailbox) [
  | none ↦ false
  | some domain ↦ contains (parse_sending_domains env.mail_sending_domains) domain
]

-- `resolveSenderIdentity`
unfoldable pub resolve_sender_identity : SenderEnv → Option Text → Option Text → SenderIdentity
resolve_sender_identity env mailbox_address display_name =
    let fallback = fallback_address env in
    let name = normalize_display_name display_name in
    elim (normal_address mailbox_address) [
      | none ↦ record { from = fallback; from_name = name; reply_to = none }
      | some mailbox ↦
          if mailbox === to_lower fallback
          then record { from = fallback; from_name = name; reply_to = none }
          else if is_verified env mailbox
          then record { from = mailbox; from_name = name; reply_to = none }
          else record { from = fallback; from_name = name; reply_to = some mailbox }
    ]
