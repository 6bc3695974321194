-- ===== src/Prelude/Rows.antt =====
-- A table is the list of its rows. These are the statements that the code issues on one.
use mathlib.Core.Path.{◌≡◌, refl}
use mathlib.Core.Bool.{Bool, true, false}
use mathlib.Core.Option
use mathlib.Core.Option.{Option, none, some}
use mathlib.Core.List.{List, [], ◌∷◌, ◌++◌}
use native.Mathlib.Omega.{arith}
use reccado.Prelude.Tests.{if◌then◌else◌}

module _ {ℓ} {A : Type ℓ} where
  -- SELECT … WHERE p, the first row.
  unfoldable pub find : (A → Bool) → List A → Option A
  find p [] = none
  find p (x ∷ xs) = if p x then some x else find p xs

  -- UPDATE … SET f WHERE p.
  unfoldable pub update_where : (A → Bool) → (A → A) → List A → List A
  update_where p f [] = []
  update_where p f (x ∷ xs) = (if p x then f x else x) ∷ update_where p f xs

  -- DELETE … WHERE p.
  unfoldable pub delete_where : (A → Bool) → List A → List A
  delete_where p [] = []
  delete_where p (x ∷ xs) = let rest = delete_where p xs in if p x then rest else x ∷ rest

  pub find-append_none :
      (p : A → Bool) (xs ys : List A) → find p xs ≡ none → find p (xs ++ ys) ≡ find p ys
  unfolding find
  find-append_none p [] ys h = refl
  find-append_none p (x ∷ xs) ys h = ground (arith, find-append_none p xs ys)

  pub find-append_some :
      (p : A → Bool) (xs ys : List A) (a : A) → find p xs ≡ some a → find p (xs ++ ys) ≡ some a
  unfolding find
  find-append_some p [] ys a h = ground arith
  find-append_some p (x ∷ xs) ys a h = ground (arith, find-append_some p xs ys a)

  -- An update that keeps what a search looks at does not change which row the search finds.
  pub find-update_where :
      (q p : A → Bool) (f : A → A) (xs : List A)
      → ((a : A) → q (f a) ≡ q a)
      → find q (update_where p f xs) ≡ Option.map (λ a. if p a then f a else a) (find q xs)
  unfolding find update_where
  find-update_where q p f [] h = refl
  find-update_where q p f (x ∷ xs) h = ground (arith, h x, find-update_where q p f xs h)

  pub find_sound : (p : A → Bool) (xs : List A) (a : A) → find p xs ≡ some a → p a ≡ true
  unfolding find
  find_sound p [] a h = ground arith
  find_sound p (x ∷ xs) a h = ground (arith, find_sound p xs a)

  -- A search does not see the deletion of what it would not have found, or of nothing it finds.
  pub find-delete_where_all :
      (p q : A → Bool) (xs : List A)
      → ((a : A) → p a ≡ true → q a ≡ true)
      → find p (delete_where q xs) ≡ none
  unfolding find delete_where
  find-delete_where_all p q [] h = refl
  find-delete_where_all p q (x ∷ xs) h = ground (arith, h x, find-delete_where_all p q xs h)

  pub find-delete_where_kept :
      (p q : A → Bool) (xs : List A) (a : A)
      → find p xs ≡ some a
      → q a ≡ false
      → find p (delete_where q xs) ≡ some a
  unfolding find delete_where
  find-delete_where_kept p q [] a e h = ground arith
  find-delete_where_kept p q (x ∷ xs) a e h = ground (arith, find-delete_where_kept p q xs a)

  pub find_elsewhere :
      (p q : A → Bool) (xs : List A) (a : A) → find q xs ≡ none → find p xs ≡ some a → q a ≡ false
  unfolding find
  find_elsewhere p q [] a e f = ground arith
  find_elsewhere p q (x ∷ xs) a e f = ground (arith, find_elsewhere p q xs a)

  -- An update that a search's row escapes leaves the row.
  pub update_where-none :
      (p : A → Bool) (f : A → A) (xs : List A) → find p xs ≡ none → update_where p f xs ≡ xs
  unfolding find update_where
  update_where-none p f [] e = refl
  update_where-none p f (x ∷ xs) e = ground (arith, update_where-none p f xs)
