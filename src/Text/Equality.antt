-- ===== src/Text/Equality.antt =====
-- `===` on strings, as lists of UTF-16 code units.
use Prim.Native.Char.{code}
use reccado.Prelude.{
  ℕ, ◌≡◌, refl, subst, ◌↔◌, String, Bool, true, false, ◌&&◌, List, [], ◌∷◌, arith, ◌==◌,
}

abbrev pub Text : Type 0
Text = List ℕ

-- A literal of the source; those are ASCII.
abbrev pub ascii : String → Text
ascii String.[] = []
ascii (String.◌∷◌ c s) = code c ∷ ascii s

infix 50 ◌===◌
unfoldable pub ◌===◌ : Text → Text → Bool
[] === [] = true
(a ∷ s) === (b ∷ t) = a == b && s === t
_ === _ = false

===_sound : (s t : Text) → s === t ≡ true → s ≡ t
unfolding ◌===◌
===_sound [] [] h = refl
===_sound [] (b ∷ t) h = ground arith
===_sound (a ∷ s) [] h = ground arith
===_sound (a ∷ s) (b ∷ t) h = ground (arith, ===_sound s t)

pub ===_refl : (s : Text) → s === s ≡ true
unfolding ◌===◌
===_refl [] = refl
===_refl (a ∷ s) = ground (arith, ===_refl s)

pub ===_iff : (s t : Text) → (s === t ≡ true) ↔ (s ≡ t)
===_iff s t = (===_sound s t, λ e. subst (λ u. s === u ≡ true) e (===_refl s))

pub ===_sym : (s t : Text) → s === t ≡ t === s
unfolding ◌===◌
===_sym [] [] = refl
===_sym [] (b ∷ t) = refl
===_sym (a ∷ s) [] = refl
===_sym (a ∷ s) (b ∷ t) = ground (arith, ===_sym s t)
