-- ===== src/Policy/Rules.antt =====
-- src/lib/transactional-send.ts: `validateRecipientPolicy`.
use reccado.Prelude.{
  ℕ, ◌-◌, Bool, true, false, ◌&&◌, ◌||◌, not, Option, none, some, List, [], ◌∷◌, leb, ltb, ◌==◌,
  if◌then◌else◌, length, any, all,
}
use reccado.Text.{Text, is_space, trim, has_unit, split}

-- The reasons, one for each text of the code.
pub data RuleProblem : Type 0 where
  empty_rule whitespace_inside bare_deny second_bang domain_missing second_at wildcard_domain :
      RuleProblem
  undotted_domain not_a_rule one_sided undotted_address_domain : RuleProblem

unfoldable pub is_label_unit : ℕ → Bool
is_label_unit c =
    leb b'a' c && leb c b'z' || leb b'A' c && leb c b'Z' || leb b'0' c && leb c b'9' || c == b'-'

abbrev pub is_label : Text → Bool
is_label [] = false
is_label (c ∷ s) = all is_label_unit (c ∷ s)

-- `DOMAIN_RE`: two labels or more between the dots
unfoldable pub is_domain : Text → Bool
unfolding all is_label_unit split
is_domain s = ltb 1 (length (split s b'.')) && all is_label (split s b'.')

-- `rule.split("@").length - 1`
unfoldable pub at_count : Text → ℕ
unfolding split
at_count rule = length (split rule b'@') - 1

-- The rule behind `@`.
unfoldable pub domain_problem : Text → ℕ → Option RuleProblem
unfolding has_unit is_domain
domain_problem [] ats = some domain_missing
domain_problem (c ∷ domain) ats =
    if ltb 1 ats
    then some second_at
    else if has_unit (c ∷ domain) b'*'
    then some wildcard_domain
    else if not (is_domain (c ∷ domain))
    then some undotted_domain
    else none

-- `const [local = "", domain = ""] = rule.split("@")`
abbrev pub sides : List Text → Text × Text
sides [] = ([], [])
sides (local ∷ []) = (local, [])
sides (local ∷ domain ∷ parts) = (local, domain)

abbrev pub is_blank : Text → Bool
is_blank [] = true
is_blank (c ∷ s) = false

unfoldable pub address_problem : Text → Option RuleProblem
unfolding has_unit is_domain at_count split
address_problem rule =
    let (local, domain) = sides (split rule b'@') in
    if not (at_count rule == 1)
    then some not_a_rule
    else if is_blank local || is_blank domain
    then some one_sided
    else if has_unit rule b'*'
    then none
    else if not (is_domain domain)
    then some undotted_address_domain
    else none

unfoldable pub undenied_problem : Text → Option RuleProblem
unfolding has_unit at_count domain_problem address_problem
undenied_problem [] = some bare_deny
undenied_problem (c ∷ s) =
    if has_unit (c ∷ s) b'!'
    then some second_bang
    else if c == b'@'
    then domain_problem s (at_count (c ∷ s))
    else address_problem (c ∷ s)

-- `entry.startsWith("!") ? entry.slice(1) : entry`
abbrev pub undenied : Text → Text
undenied [] = []
undenied (c ∷ s) = if c == b'!' then s else c ∷ s

-- `recipientRuleProblem`
unfoldable pub recipient_rule_problem : Text → Option RuleProblem
unfolding any is_space undenied_problem
recipient_rule_problem [] = some empty_rule
recipient_rule_problem (c ∷ s) =
    if any is_space (c ∷ s) then some whitespace_inside else undenied_problem (undenied (c ∷ s))

pub record RecipientPolicyIssue : Type 0 where
  pub rule : Text
  pub reason : RuleProblem

unfoldable pub issues_of : List Text → List RecipientPolicyIssue
unfolding recipient_rule_problem trim
issues_of [] = []
issues_of (raw ∷ entries) =
    let rest = issues_of entries in
    elim (recipient_rule_problem (trim raw)) [
      | none ↦ rest
      | some reason ↦ record { rule = raw; reason = reason } ∷ rest
    ]

-- `validateRecipientPolicy`
unfoldable pub validate_recipient_policy : Text → List RecipientPolicyIssue
unfolding split issues_of
validate_recipient_policy policy = issues_of (split policy b',')
