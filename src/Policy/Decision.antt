-- ===== src/Policy/Decision.antt =====
-- Which recipients a policy lets through, said with relations in place of the tests of `matchRule`.
use reccado.Prelude.{
  ℕ, ◌-◌, ◌≡◌, ◌↔◌, ◌⊎◌, refl, ap, Bool, true, false, some, List, [], ◌∷◌, ◌++◌, inl, inr, arith,
  Bool-cases, length, length-append, drop, any, ◌||◌, zero, suc,
}
use reccado.Text.{Text, ascii, ===_iff, ===_refl, has_unit, starts_with, ends_with, trim, to_lower}
use reccado.Policy.{
  match_rule, match_normalized, allowed, deny_rules, allow_rules, allow_check,
  check_recipient_policy,
}
use reccado.Policy.Pattern.{atoms, Matches, pattern_iff}

drop-split : (n : ℕ) (s : Text) → (front : Text) × (s ≡ front ++ drop n s)
drop-split zero s = ([], refl)
drop-split (suc n) [] = ([], refl)
drop-split (suc n) (c ∷ s) = let (front, e) = drop-split n s in (c ∷ front, ap (λ t. c ∷ t) e)

drop-length-append : (front s : Text) → drop (length front) (front ++ s) ≡ s
drop-length-append [] s = refl
drop-length-append (c ∷ front) s = drop-length-append front s

ends_with-append : (front suffix : Text) → ends_with (front ++ suffix) suffix ≡ true
unfolding ends_with
ends_with-append front suffix =
    let e : length (front ++ suffix) - length suffix ≡ length front =
      omega (arith, length-append front suffix) in
    rw (e, drop-length-append front suffix, ===_refl suffix)
      (ground (arith, length-append front suffix))

ends_with_iff :
    (s suffix : Text) → (ends_with s suffix ≡ true) ↔ ((front : Text) × (s ≡ front ++ suffix))
unfolding ends_with
ends_with_iff s suffix = (
  λ h.
      let (front, e) = drop-split (length s - length suffix) s in
      let same : drop (length s - length suffix) s ≡ suffix = (===_iff _ _).0 (ground arith) in
      (front, rw same at e),
  λ (front, e). rw e (ends_with-append front suffix),
)

-- A rule in normal form accepts a canonical recipient: `@domain` those that end in it, a pattern
-- those of its language, an address itself.
pub data Accepts (canonical normalized : Text) : Type 0 where
  domain :
      starts_with normalized (ascii "@") ≡ true
      → (local : Text) → canonical ≡ local ++ normalized
      → Accepts canonical normalized
  pattern_rule :
      starts_with normalized (ascii "@") ≡ false
      → has_unit normalized b'*' ≡ true
      → Matches (atoms normalized) canonical
      → Accepts canonical normalized
  address :
      starts_with normalized (ascii "@") ≡ false
      → has_unit normalized b'*' ≡ false
      → canonical ≡ normalized
      → Accepts canonical normalized

module _ {canonical n : Text} where
  domain_of :
      starts_with n (ascii "@") ≡ true
      → Accepts canonical n
      → (front : Text) × (canonical ≡ front ++ n)
  domain_of at (domain _ local e) = (local, e)
  domain_of at (pattern_rule no_at _ _) = absurd (cc (at, no_at))
  domain_of at (address no_at _ _) = absurd (cc (at, no_at))

  pattern_of :
      starts_with n (ascii "@") ≡ false
      → has_unit n b'*' ≡ true
      → Accepts canonical n
      → Matches (atoms n) canonical
  pattern_of no_at any_text (domain at _ _) = absurd (cc (at, no_at))
  pattern_of no_at any_text (pattern_rule _ _ m) = m
  pattern_of no_at any_text (address _ plain _) = absurd (cc (any_text, plain))

  address_of :
      starts_with n (ascii "@") ≡ false
      → has_unit n b'*' ≡ false
      → Accepts canonical n
      → canonical ≡ n
  address_of no_at plain (domain at _ _) = absurd (cc (at, no_at))
  address_of no_at plain (pattern_rule _ any_text _) = absurd (cc (any_text, plain))
  address_of no_at plain (address _ _ e) = e

match_normalized_iff :
    (canonical n : Text) → (match_normalized canonical n ≡ true) ↔ Accepts canonical n
unfolding match_normalized
match_normalized_iff canonical n = elim (Bool-cases (starts_with n (ascii "@"))) [
  | inl at ↦ rw at (
    λ h. let (local, e) = (ends_with_iff canonical n).0 h in domain at local e,
    λ a. (ends_with_iff canonical n).1 (domain_of at a),
  )
  | inr no_at ↦ elim (Bool-cases (has_unit n b'*')) [
    | inl any_text ↦
        rw (no_at, any_text)
          (
            λ h. pattern_rule no_at any_text ((pattern_iff n canonical).0 h),
            λ a. (pattern_iff n canonical).1 (pattern_of no_at any_text a),
          )
    | inr plain ↦
        rw (no_at, plain)
          (
            λ h. address no_at plain ((===_iff canonical n).0 h),
            λ a. (===_iff canonical n).1 (address_of no_at plain a),
          )
  ]
]

-- `matchRule` decides that relation on the trimmed, lower-case rule: a domain rule by the end of the
-- address, a `*` pattern by its language, and an address by equality.
pub match_rule_iff :
    (canonical rule : Text)
    → (match_rule canonical rule ≡ true) ↔ Accepts canonical (to_lower (trim rule))
unfolding match_rule
match_rule_iff canonical rule = match_normalized_iff canonical (to_lower (trim rule))

-- Some member satisfies `P`.
abbrev pub Some : (Text → Type 0) → List Text → Type 0
Some P [] = ⊥
Some P (x ∷ xs) = P x ⊎ Some P xs

any_iff :
    (p : Text → Bool) (P : Text → Type 0) (xs : List Text)
    → ((x : Text) → (p x ≡ true) ↔ P x)
    → (any p xs ≡ true) ↔ Some P xs
unfolding any
any_iff p P [] h = (λ e. ground arith, λ e. absurd e)
any_iff p P (x ∷ xs) h =
    let (there, back) = any_iff p P xs h in
    (
      λ e. elim (Bool-cases (p x)) [
        | inl now ↦ inl ((h x).0 now)
        | inr later ↦ inr (there (rw later at e))
      ],
      λ e. elim e [
        | inl now ↦ rw ((h x).1 now)
        | inr later ↦ elim (p x) as (λ b. b || any p xs ≡ true) [ true ↦ refl | false ↦ back later ]
      ],
    )

abbrev pub AcceptedBySome : Text → List Text → Type 0
AcceptedBySome canonical rules = Some (λ rule. Accepts canonical (to_lower (trim rule))) rules

accepted_iff :
    (canonical : Text) (rules : List Text)
    → (any (match_rule canonical) rules ≡ true) ↔ AcceptedBySome canonical rules
accepted_iff canonical rules = any_iff (match_rule canonical) _ rules (match_rule_iff canonical)

allow_check_iff :
    (canonical : Text) (rules : List Text)
    → (allow_check rules canonical ≡ allowed) ↔ ((rules ≡ []) ⊎ AcceptedBySome canonical rules)
allow_check_iff canonical [] = (λ _. inl refl, λ _. refl)
allow_check_iff canonical (r ∷ rules) = (
  λ h. inr ((accepted_iff canonical (r ∷ rules)).0 (ground arith)),
  elim [ inl e ↦ absurd (cc) | inr a ↦ rw ((accepted_iff canonical (r ∷ rules)).1 a) ],
)

-- A policy with rules lets a recipient through exactly when no deny rule accepts it, and either there
-- is no allow rule or one accepts it. A deny rule wins wherever it stands in the list.
pub check_recipient_policy_iff :
    (recipient : Text) (c : ℕ) (s : Text)
    → (check_recipient_policy recipient (some (c ∷ s)) ≡ allowed) ↔ (
        (¬ AcceptedBySome (to_lower (trim recipient)) (deny_rules (c ∷ s)))
        × ((allow_rules (c ∷ s) ≡ [])
            ⊎ AcceptedBySome (to_lower (trim recipient)) (allow_rules (c ∷ s))))
unfolding check_recipient_policy
check_recipient_policy_iff recipient c s =
    let canonical = to_lower (trim recipient) in
    let denied = accepted_iff canonical (deny_rules (c ∷ s)) in
    let listed = allow_check_iff canonical (allow_rules (c ∷ s)) in
    (
      λ h. (λ a. absurd (ground (arith, denied.1 a)), listed.0 (ground arith)),
      λ (free, a). elim (Bool-cases (any (match_rule canonical) (deny_rules (c ∷ s)))) [
        | inl e ↦ absurd (free (denied.0 e))
        | inr e ↦ rw e (listed.1 a)
      ],
    )
