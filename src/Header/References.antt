-- ===== src/Header/References.antt =====
-- src/lib/email-headers.ts: which ids of a thread the References of a reply keep.
use reccado.Prelude.{
  ℕ, zero, suc, ◌-◌, ◌≤◌, ◌<◌, ◌≡◌, ◌≢◌, refl, ◌∙◌, false, Option, none, some, List, [], ◌∷◌, ◌++◌,
  length, drop, leb, arith, Bool-cases, inl, inr, leb→le,
}
use reccado.Text.{Text}
use reccado.Header.{max_references, has_reference, with_parent, cut_references, build_references}

unfoldable pub first : List Text → Option Text
first [] = none
first (s ∷ list) = some s

unfoldable pub last : List Text → Option Text
last [] = none
last (s ∷ []) = some s
last (s ∷ t ∷ list) = last (t ∷ list)

last-append : (list : List Text) (s : Text) → last (list ++ s ∷ []) ≡ some s
unfolding last
last-append [] s = refl
last-append (t ∷ []) s = refl
last-append (t ∷ u ∷ list) s = last-append (u ∷ list) s

last-drop : (n : ℕ) (list : List Text) → n < length list → last (drop n list) ≡ last list
unfolding last
last-drop zero list h = refl
last-drop (suc n) [] h = ground arith
last-drop (suc n) (s ∷ []) h = ground arith
last-drop (suc n) (s ∷ t ∷ list) h = last-drop n (t ∷ list) (omega (arith, h))

last-under : (s : Text) (list : List Text) → 0 < length list → last (s ∷ list) ≡ last list
unfolding last
last-under s [] h = ground arith
last-under s (t ∷ list) h = refl

length-drop : (n : ℕ) (list : List Text) → length (drop n list) ≡ length list - n
length-drop zero list = omega arith
length-drop (suc n) [] = omega arith
length-drop (suc n) (s ∷ list) = omega (arith, length-drop n list)

cut-ends :
    (chain : List Text)
    → (length (cut_references chain) ≤ max_references)
      × (first (cut_references chain) ≡ first chain)
      × (last (cut_references chain) ≡ last chain)
unfolding cut_references first last
cut-ends [] = (omega arith, refl, refl)
cut-ends (root ∷ chain) = elim (Bool-cases (leb (suc (length chain)) max_references)) [
  | inl h ↦ rw h (leb→le _ _ h, refl, refl)
  | inr h ↦
      let n : ℕ = suc (length chain) - 19 in
      let kept = length-drop n (root ∷ chain) in
      rw h (
        ground (arith, kept),
        refl,
        last-under root (drop n (root ∷ chain)) (ground (arith, kept))
            ∙ last-drop n (root ∷ chain) (ground arith),
      )
]

first-append :
    (list : List Text) (s t : Text) → first list ≡ some t → first (list ++ s ∷ []) ≡ some t
unfolding first
first-append [] s t e = ground arith
first-append (u ∷ list) s t e = e

-- The References of a reply to a message that its own chain does not name have at most 20 ids, the
-- first of which is the root of the thread and the last of which is the message answered.
pub build_references-ends :
    (references : List Text) (root parent : Text)
    → first references ≡ some root
    → parent ≢ []
    → has_reference references parent ≡ false
    → let built = build_references references (some parent) in
      (length built ≤ max_references) × (first built ≡ some root) × (last built ≡ some parent)
unfolding build_references with_parent
build_references-ends references root [] e h new = absurd (h refl)
build_references-ends references root (c ∷ id) e h new =
    let chain : List Text = references ++ (c ∷ id) ∷ [] in
    let ends = cut-ends chain in
    rw new (
      ends.0,
      ends.1 ∙ first-append references (c ∷ id) root e,
      ends.2 ∙ last-append references (c ∷ id),
    )
