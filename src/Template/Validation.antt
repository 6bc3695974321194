-- ===== src/Template/Validation.antt =====
-- What `validateTemplateVariables` accepts, and what its answer guarantees to the interpolation.
use reccado.Prelude.{
  ◌≡◌, ◌≢◌, ◌↔◌, refl, Bool, true, ◌||◌, none, List, [], ◌∷◌, ◌++◌, inl, inr, arith, Bool-cases,
  All,
}
use reccado.Text.{Text, contains, ===_iff, ===_refl}
use reccado.Template.{
  Template, Variables, names_of, tokens, add_all, or_empty, extract_template_variables, lookup,
  keys, lacking, is_empty, validate_template_variables,
}
use reccado.Template.Tokens.{tokens-space, names_of-append}

contains-append :
    (xs ys : List Text) (n : Text) → contains (xs ++ ys) n ≡ contains xs n || contains ys n
unfolding contains
contains-append [] ys n = refl
contains-append (x ∷ xs) ys n = ground (arith, contains-append xs ys n)

contains-add_all :
    (set names : List Text) (n : Text)
    → contains (add_all set names) n ≡ contains set n || contains names n
unfolding add_all
contains-add_all set [] n = unfold contains in ground arith
contains-add_all set (m ∷ names) n = elim (Bool-cases (contains set m)) [
  | inl old ↦
      rw (old, contains-add_all set names n) (unfold contains in ground (arith, ===_iff m n))
  | inr new ↦
      rw (new, contains-add_all (set ++ m ∷ []) names n, contains-append set (m ∷ []) n)
        (unfold contains in ground arith)
]

-- Whether one of the three texts of a template has the placeholder.
abbrev pub mentions : Template → Text → Bool
mentions t n =
    contains (names_of (tokens t.subject)) n
    || (contains (names_of (tokens (or_empty t.body_text))) n
        || contains (names_of (tokens (or_empty t.body_html))) n)

-- Joining the three texts by spaces neither makes nor breaks a placeholder.
pub extract-mentions :
    (t : Template) (n : Text) → contains (extract_template_variables t) n ≡ mentions t n
unfolding extract_template_variables
extract-mentions t n =
    rw (contains-add_all [] _ n, tokens-space t.subject _, tokens-space (or_empty t.body_text) _)
      (rw (names_of-append, names_of-append)
        (unfold names_of in rw (contains-append, contains-append) (unfold contains in refl)))

lacking_none :
    (set names : List Text)
    → (is_empty (lacking set names) ≡ true)
      ↔ ((n : Text) → contains names n ≡ true → contains set n ≡ true)
unfolding lacking
lacking_none set [] = (λ _ n h. unfold contains in ground arith, λ _. refl)
lacking_none set (m ∷ names) = elim (Bool-cases (contains set m)) [
  | inl old ↦ (
    λ h n k.
        unfold contains in ground (arith, ===_iff m n, (lacking_none set names).0 (rw old at h) n),
    λ h. rw old ((lacking_none set names).1 (λ n k. h n (unfold contains in ground (arith, k)))),
  )
  | inr new ↦ (λ h n k. absurd (ground arith), λ h. absurd (ground (arith, h m, ===_refl m)))
]

lookup-contains : (v : Variables) (n : Text) → contains (keys v) n ≡ true → lookup n v ≢ none
unfolding contains keys lookup
lookup-contains [] n h = ground arith
lookup-contains ((k, x) ∷ v) n h = ground (arith, lookup-contains v n)

same_members :
    (a b : Text → Bool)
    → ((n : Text) → a n ≡ true → b n ≡ true)
    → ((n : Text) → b n ≡ true → a n ≡ true)
    → (n : Text) → a n ≡ b n
same_members a b h k n = ground (arith, h n, k n)

-- The variables pass exactly when the placeholders of the template are the names that have a value:
-- none is missing and none is unknown.
pub validate_iff :
    (t : Template) (v : Variables)
    → ((validate_template_variables t v).ok ≡ true)
      ↔ ((n : Text) → mentions t n ≡ contains (keys v) n)
unfolding validate_template_variables
validate_iff t v = (
  λ h.
      same_members (mentions t) (contains (keys v))
        (λ n k.
          (lacking_none (keys v) (extract_template_variables t)).0 (ground arith) n
            (rw (extract-mentions t n) k))
        (λ n k.
          rw (← extract-mentions t n)
            ((lacking_none (extract_template_variables t) (keys v)).0 (ground arith) n k)),
  λ h. ground (
    arith,
    (lacking_none (keys v) (extract_template_variables t)).1
        (λ n k. rw (← h n) (rw (extract-mentions t n) at k)),
    (lacking_none (extract_template_variables t) (keys v)).1
        (λ n k. rw (extract-mentions t n) (rw (h n) k)),
  ),
)

have_values :
    (v : Variables) (names : List Text)
    → ((n : Text) → contains names n ≡ true → contains (keys v) n ≡ true)
    → All (λ n. lookup n v ≢ none) names
have_values v [] h = tt
have_values v (m ∷ names) h = (
  lookup-contains v m (h m (unfold contains in ground (arith, ===_refl m))),
  have_values v names (λ n k. h n (unfold contains in ground (arith, k))),
)

-- Variables that pass give every placeholder of the subject and of both bodies a value, so no
-- placeholder is left standing in what is sent.
pub validated_is_complete :
    (t : Template) (v : Variables)
    → (validate_template_variables t v).ok ≡ true
    → All (λ n. lookup n v ≢ none) (names_of (tokens t.subject))
      × All (λ n. lookup n v ≢ none) (names_of (tokens (or_empty t.body_text)))
      × All (λ n. lookup n v ≢ none) (names_of (tokens (or_empty t.body_html)))
validated_is_complete t v h =
    let same = (validate_iff t v).0 h in
    (
      have_values v _ (λ n k. ground (arith, same n)),
      have_values v _ (λ n k. ground (arith, same n)),
      have_values v _ (λ n k. ground (arith, same n)),
    )
