-- ===== src/Policy.antt =====
-- src/lib/transactional-send.ts: recipient policies, `checkRecipientPolicy`.
pub mod Pattern
pub mod Decision
pub mod Rules
pub mod Usable
use reccado.Prelude.{
  ℕ, ◌-◌, Bool, true, false, ◌&&◌, ◌||◌, not, Option, none, some, List, [], ◌∷◌, ◌++◌, map, leb,
  ltb, ◌==◌, if◌then◌else◌, length, drop, any, all, keep,
}
use reccado.Text.{
  Text, ascii, ◌===◌, is_space, trim, to_lower, starts_with, ends_with, has_unit, split,
}

-- The characters that the replacement `/[.*+?^${}()|[\]\\]/g` puts a backslash before.
unfoldable pub is_meta : ℕ → Bool
unfolding has_unit
is_meta c = has_unit (ascii ".*+?^${}()|[]\\") c

unfoldable pub escape_regex : Text → Text
escape_regex [] = []
escape_regex (c ∷ s) = (if is_meta c then b'\\' ∷ (c ∷ []) else c ∷ []) ++ escape_regex s

-- `.replace(/\\\*/g, ".*")`
unfoldable pub replace_star : Text → Text
replace_star [] = []
replace_star (c ∷ []) = c ∷ []
replace_star (c ∷ (d ∷ s)) =
    let found = b'.' ∷ (b'*' ∷ replace_star s) in
    let passed = c ∷ replace_star (d ∷ s) in if c == b'\\' && d == b'*' then found else passed

-- A pattern as the regular expression reads it: a character by itself, or `.*`.
pub data Atom : Type 0 where
  unit : ℕ → Atom
  star : Atom

unfoldable pub parse_regex : Text → List Atom
parse_regex [] = []
parse_regex (c ∷ []) = unit c ∷ []
parse_regex (c ∷ (d ∷ s)) =
    let escaped = unit d ∷ parse_regex s in
    let anything = star ∷ parse_regex s in
    let plain = unit c ∷ parse_regex (d ∷ s) in
    if c == b'\\' then escaped else if c == b'.' && d == b'*' then anything else plain

-- What `.` does not match.
unfoldable pub is_line_end : ℕ → Bool
is_line_end c = c == 10 || c == 13 || c == 0x2028 || c == 0x2029

-- `^…$` on the whole text.
unfoldable pub test_regex : List Atom → Text → Bool
unfolding is_line_end
test_regex [] [] = true
test_regex [] (c ∷ s) = false
test_regex (unit a ∷ p) [] = false
test_regex (unit a ∷ p) (c ∷ s) = a == c && test_regex p s
test_regex (star ∷ p) [] = test_regex p []
test_regex (star ∷ p) (c ∷ s) =
    test_regex p (c ∷ s) || not (is_line_end c) && test_regex (star ∷ p) s

unfoldable pub match_normalized : Text → Text → Bool
match_normalized canonical normalized =
    if starts_with normalized (ascii "@")
    then ends_with canonical normalized
    else if has_unit normalized b'*'
    then test_regex (parse_regex (replace_star (escape_regex normalized))) canonical
    else canonical === normalized

unfoldable pub match_rule : Text → Text → Bool
match_rule canonical rule = match_normalized canonical (to_lower (trim rule))

pub data PolicyCheck : Type 0 where
  allowed denied_by_policy not_allowed_by_policy : PolicyCheck

unfoldable pub policy_rules : Text → List Text
policy_rules policy = keep (λ r. ltb 0 (length r)) (map trim (split policy b','))

abbrev pub is_deny : Text → Bool
is_deny r = starts_with r (ascii "!")

unfoldable pub deny_rules : Text → List Text
deny_rules policy = map (λ r. drop 1 r) (keep is_deny (policy_rules policy))

unfoldable pub allow_rules : Text → List Text
allow_rules policy = keep (λ r. not (is_deny r)) (policy_rules policy)

abbrev pub allow_check : List Text → Text → PolicyCheck
allow_check [] canonical = allowed
allow_check (rule ∷ rules) canonical =
    if any (match_rule canonical) (rule ∷ rules) then allowed else not_allowed_by_policy

unfoldable pub check_recipient_policy : Text → Option Text → PolicyCheck
check_recipient_policy recipient none = allowed
check_recipient_policy recipient (some []) = allowed
check_recipient_policy recipient (some (c ∷ s)) =
    let canonical = to_lower (trim recipient) in
    if any (match_rule canonical) (deny_rules (c ∷ s))
    then denied_by_policy
    else allow_check (allow_rules (c ∷ s)) canonical
