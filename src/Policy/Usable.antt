-- ===== src/Policy/Usable.antt =====
-- src/lib/transactional-send.ts: what a policy is that `validateRecipientPolicy` accepts.
use reccado.Prelude.{
  ℕ, ◌≡◌, ◌≢◌, refl, ap, ◌∙◌, Bool, true, false, ◌||◌, none, List, [], ◌∷◌, ◌++◌, reverse,
  map-append, reverse-reverse, arith, Bool-cases, inl, inr, ◌==◌, length, any, All,
}
use mathlib.Core.List.{reverse-cons}
use reccado.Text.{
  Text, ascii, is_space, trim_start, trim, lower_unit, to_lower, starts_with, has_unit, split,
}
use reccado.Text.Splitting.{split-some, split-here, split-whole, split-Halves}
use reccado.Policy.{match_rule, is_line_end}
use reccado.Policy.Pattern.{atoms, Matches, end, same, stop, take}
use reccado.Policy.Decision.{domain, pattern_rule, address, match_rule_iff}
use reccado.Policy.Rules.{
  domain_problem, sides, is_blank, at_count, address_problem, undenied_problem, undenied,
  recipient_rule_problem, issues_of, validate_recipient_policy,
}

-- One `@`, and text on both sides of it.
pub record IsAddress (s : Text) : Type 0 where
  pub local : Text
  pub host : Text
  pub joined : s ≡ local ++ b'@' ∷ host
  pub local_there : local ≢ []
  pub host_there : host ≢ []
  pub local_plain : has_unit local b'@' ≡ false
  pub host_plain : has_unit host b'@' ≡ false

-- Some address is accepted by the rule.
abbrev pub IsUsable : Text → Type 0
IsUsable rule = (s : Text) × (IsAddress s × (match_rule s rule ≡ true))

any-append : (p : ℕ → Bool) (s t : Text) → any p (s ++ t) ≡ any p s || any p t
unfolding any
any-append p [] t = refl
any-append p (c ∷ s) t = ground (arith, any-append p s t)

any-reverse : (p : ℕ → Bool) (s : Text) → any p (reverse s) ≡ any p s
unfolding any
any-reverse p [] = refl
any-reverse p (c ∷ s) =
    rw (reverse-cons c s, any-append p (reverse s) (c ∷ [])) (ground (arith, any-reverse p s))

trim_start-no_space : (s : Text) → any is_space s ≡ false → trim_start s ≡ s
unfolding any trim_start
trim_start-no_space [] h = refl
trim_start-no_space (c ∷ s) h = let e : is_space c ≡ false = ground arith in rw e refl

trim-no_space : (s : Text) → any is_space s ≡ false → trim s ≡ s
unfolding trim
trim-no_space s h =
    rw (trim_start-no_space s h, trim_start-no_space (reverse s) (any-reverse is_space s ∙ h))
      (reverse-reverse s)

has_unit-to_lower : (s : Text) → has_unit (to_lower s) b'@' ≡ has_unit s b'@'
unfolding has_unit to_lower lower_unit
has_unit-to_lower [] = refl
has_unit-to_lower (c ∷ s) = ground (arith, has_unit-to_lower s)

lower-no_line_end : (c : ℕ) → is_space c ≡ false → is_line_end (lower_unit c) ≡ false
unfolding is_space is_line_end lower_unit
lower-no_line_end c h = ground arith

-- A pattern without line ends matches its own text.
atoms-own : (s : Text) → any is_space s ≡ false → Matches (atoms (to_lower s)) (to_lower s)
unfolding any to_lower
atoms-own [] h = end
atoms-own (c ∷ s) h =
    let rest = atoms-own s (ground arith) in
    let kept = lower-no_line_end c (ground arith) in
    elim (Bool-cases (lower_unit c == b'*')) [
      | inl any_text ↦ rw any_text (take (lower_unit c) kept (stop rest))
      | inr one ↦ rw one (same (lower_unit c) rest)
    ]

filled : (s : Text) → is_blank s ≡ false → to_lower s ≢ []
unfolding to_lower
filled [] h = absurd (ground arith)
filled (c ∷ s) h = λ e. ground arith

domain_accepts :
    (s : Text)
    → any is_space (b'@' ∷ s) ≡ false
    → match_rule (b'x' ∷ b'@' ∷ to_lower s) (b'@' ∷ s) ≡ true
unfolding to_lower lower_unit starts_with
domain_accepts s h =
    (match_rule_iff (b'x' ∷ b'@' ∷ to_lower s) (b'@' ∷ s)).1
      (rw (trim-no_space (b'@' ∷ s) h) (domain refl (b'x' ∷ []) refl))

rule_accepts :
    (rule : Text)
    → any is_space rule ≡ false
    → starts_with (to_lower rule) (ascii "@") ≡ false
    → match_rule (to_lower rule) rule ≡ true
rule_accepts rule h no_at = (match_rule_iff (to_lower rule) rule).1 (
    rw (trim-no_space rule h) (elim (Bool-cases (has_unit (to_lower rule) b'*')) [
      | inl any_text ↦ pattern_rule no_at any_text (atoms-own rule h)
      | inr plain ↦ address no_at plain refl
    ]))

domain-IsUsable :
    (s : Text)
    → any is_space (b'@' ∷ s) ≡ false
    → domain_problem s (at_count (b'@' ∷ s)) ≡ none
    → IsUsable (b'@' ∷ s)
unfolding domain_problem at_count has_unit
domain-IsUsable [] h e = absurd (ground arith)
domain-IsUsable (c ∷ s) h e =
    let few : length (split (c ∷ s) b'@') ≡ 1 =
      ground (arith, ap length (split-here b'@' (c ∷ s) b'@' refl), split-some (c ∷ s) b'@') in
    (
      b'x' ∷ b'@' ∷ to_lower (c ∷ s),
      (
        record {
          local = b'x' ∷ [];
          host = to_lower (c ∷ s);
          joined = refl;
          local_there = λ e. ground arith;
          host_there = filled (c ∷ s) refl;
          local_plain = refl;
          host_plain = has_unit-to_lower (c ∷ s) ∙ (split-whole (c ∷ s) b'@' few).1;
        },
        domain_accepts (c ∷ s) h,
      ),
    )

starts-lower :
    (c : ℕ) (s : Text) → (c == b'@') ≡ false → starts_with (to_lower (c ∷ s)) (ascii "@") ≡ false
unfolding starts_with to_lower lower_unit
starts-lower c s h = ground arith

address_filled :
    (rule : Text)
    → address_problem rule ≡ none
    → is_blank (sides (split rule b'@')).0 || is_blank (sides (split rule b'@')).1 ≡ false
unfolding address_problem
address_filled rule e = ground arith

address-IsUsable :
    (c : ℕ) (s : Text)
    → any is_space (c ∷ s) ≡ false
    → (c == b'@') ≡ false
    → address_problem (c ∷ s) ≡ none
    → IsUsable (c ∷ s)
unfolding address_problem at_count to_lower lower_unit
address-IsUsable c s h no_at e =
    let two : length (split (c ∷ s) b'@') ≡ 2 = ground (arith, split-some (c ∷ s) b'@') in
    let halves = split-Halves (c ∷ s) b'@' two in
    let there : is_blank halves.front || is_blank halves.back ≡ false =
      rw halves.parts at (address_filled (c ∷ s) e) in
    (
      to_lower (c ∷ s),
      (
        record {
          local = to_lower halves.front;
          host = to_lower halves.back;
          joined =
              ap to_lower halves.joined ∙ map-append lower_unit halves.front (b'@' ∷ halves.back);
          local_there = filled halves.front (ground arith);
          host_there = filled halves.back (ground arith);
          local_plain = has_unit-to_lower halves.front ∙ halves.front_plain;
          host_plain = has_unit-to_lower halves.back ∙ halves.back_plain;
        },
        rule_accepts (c ∷ s) h (starts-lower c s no_at),
      ),
    )

undenied-no_space :
    (entry : Text) → any is_space entry ≡ false → any is_space (undenied entry) ≡ false
unfolding any
undenied-no_space [] h = refl
undenied-no_space (c ∷ s) h = ground arith

at-problem :
    (s : Text) → undenied_problem (b'@' ∷ s) ≡ none → domain_problem s (at_count (b'@' ∷ s)) ≡ none
unfolding undenied_problem
at-problem s e = ground arith

undenied-IsUsable :
    (rule : Text) → any is_space rule ≡ false → undenied_problem rule ≡ none → IsUsable rule
unfolding undenied_problem
undenied-IsUsable [] h e = absurd (ground arith)
undenied-IsUsable (c ∷ s) h e = elim (Bool-cases (c == b'@')) [
  | inl at ↦
      let eq : c ≡ b'@' = ground arith in
      rw eq (domain-IsUsable s (rw eq at h) (at-problem s (rw eq at e)))
  | inr no_at ↦ address-IsUsable c s h no_at (ground arith)
]

entry-IsUsable : (entry : Text) → recipient_rule_problem entry ≡ none → IsUsable (undenied entry)
unfolding recipient_rule_problem
entry-IsUsable [] e = absurd (ground arith)
entry-IsUsable (c ∷ s) e =
    undenied-IsUsable (undenied (c ∷ s)) (undenied-no_space (c ∷ s) (ground arith)) (ground arith)

issues-IsUsable :
    (entries : List Text)
    → issues_of entries ≡ []
    → All (λ raw. IsUsable (undenied (trim raw))) entries
unfolding issues_of
issues-IsUsable [] h = tt
issues-IsUsable (raw ∷ entries) h =
    (entry-IsUsable (trim raw) (ground arith), issues-IsUsable entries (ground arith))

-- In a policy without issues every rule, behind its `!` if it has one, accepts some address: a text with
-- one `@` and something on both sides of it. So no rule of it is one that can never match.
pub validate_recipient_policy-IsUsable :
    (policy : Text)
    → validate_recipient_policy policy ≡ []
    → All (λ raw. IsUsable (undenied (trim raw))) (split policy b',')
unfolding validate_recipient_policy
validate_recipient_policy-IsUsable policy h = issues-IsUsable (split policy b',') h
