-- ===== src/Outbound/Order.antt =====
-- src/cloudflare/scheduled.ts: the order in which a sweep takes the stale sends.
use reccado.Prelude.{
  ◌≤◌, ◌<◌, ◌≡◌, refl, ◌∙◌, ap, Bool, true, false, not, ◌&&◌, inl, inr, Bool-cases, List, [], ◌∷◌,
  ◌++◌, arith, leb, keep, All,
}
use reccado.ApiKey.{Instant}
use reccado.Outbound.{OutboundSendRow}
use reccado.Outbound.Sweep.{is_stale, insert_by_update, by_update}

-- A sweep takes the rows that were stale earlier before those that became stale later.
kept :
    (p : OutboundSendRow → Bool) (x : OutboundSendRow) (xs : List OutboundSendRow)
    → p x ≡ true
    → by_update (keep p (x ∷ xs)) ≡ insert_by_update x (by_update (keep p xs))
unfolding by_update keep
kept p x xs e = rw e refl

dropped :
    (p : OutboundSendRow → Bool) (x : OutboundSendRow) (xs : List OutboundSendRow)
    → p x ≡ false
    → by_update (keep p (x ∷ xs)) ≡ by_update (keep p xs)
unfolding keep
dropped p x xs e = rw e refl

module _ (t : Instant) where
  abbrev IsEarly : OutboundSendRow → Type 0
  IsEarly r = r.updated_at < t

  abbrev IsLate : OutboundSendRow → Type 0
  IsLate r = t ≤ r.updated_at

  insert-All :
      (P : OutboundSendRow → Type 0) (row : OutboundSendRow) (xs : List OutboundSendRow)
      → P row
      → All P xs
      → All P (insert_by_update row xs)
  unfolding insert_by_update
  insert-All P row [] h a = (h, tt)
  insert-All P row (x ∷ xs) h a = elim (Bool-cases (leb row.updated_at x.updated_at)) [
    | inl e ↦ rw e (h, a)
    | inr e ↦ rw e (a.0, insert-All P row xs h a.1)
  ]

  insert-before :
      (row : OutboundSendRow) (xs ys : List OutboundSendRow)
      → IsEarly row
      → All IsLate ys
      → insert_by_update row (xs ++ ys) ≡ insert_by_update row xs ++ ys
  unfolding insert_by_update
  insert-before row [] [] h a = refl
  insert-before row [] (y ∷ ys) h a = ground (arith, a.0)
  insert-before row (x ∷ xs) ys h a = ground (arith, insert-before row xs ys h a)

  insert-behind :
      (row : OutboundSendRow) (xs ys : List OutboundSendRow)
      → IsLate row
      → All IsEarly xs
      → insert_by_update row (xs ++ ys) ≡ xs ++ insert_by_update row ys
  unfolding insert_by_update
  insert-behind row [] ys h a = refl
  insert-behind row (x ∷ xs) ys h a = ground (arith, insert-behind row xs ys h a.1, a.0)

  -- The rows that are stale at `u` only.
  abbrev pub is_newly_stale : Instant → OutboundSendRow → Bool
  is_newly_stale u r = is_stale u r && not (is_stale t r)

  earlier : (u : Instant) (r : OutboundSendRow) → t ≤ u → is_stale t r ≡ true → is_stale u r ≡ true
  unfolding is_stale
  earlier u r h e = ground arith

  stale-IsEarly : (r : OutboundSendRow) → is_stale t r ≡ true → IsEarly r
  unfolding is_stale
  stale-IsEarly r e = ground arith

  newly-IsLate : (u : Instant) (r : OutboundSendRow) → is_newly_stale u r ≡ true → IsLate r
  unfolding is_stale
  newly-IsLate u r e = ground arith

  by_update-IsEarly : (xs : List OutboundSendRow) → All IsEarly (by_update (keep (is_stale t) xs))
  by_update-IsEarly [] = unfold by_update keep in tt
  by_update-IsEarly (x ∷ xs) = elim (Bool-cases (is_stale t x)) [
    | inl e ↦
        rw (kept (is_stale t) x xs e)
          (insert-All IsEarly x _ (stale-IsEarly x e) (by_update-IsEarly xs))
    | inr e ↦ rw (dropped (is_stale t) x xs e) (by_update-IsEarly xs)
  ]

  by_update-IsLate :
      (u : Instant) (xs : List OutboundSendRow)
      → All IsLate (by_update (keep (is_newly_stale u) xs))
  by_update-IsLate u [] = unfold by_update keep in tt
  by_update-IsLate u (x ∷ xs) = elim (Bool-cases (is_newly_stale u x)) [
    | inl e ↦
        rw (kept (is_newly_stale u) x xs e)
          (insert-All IsLate x _ (newly-IsLate u x e) (by_update-IsLate u xs))
    | inr e ↦ rw (dropped (is_newly_stale u) x xs e) (by_update-IsLate u xs)
  ]

  pub in_order :
      (u : Instant) (xs : List OutboundSendRow)
      → t ≤ u
      → by_update (keep (is_stale u) xs)
        ≡ by_update (keep (is_stale t) xs) ++ by_update (keep (is_newly_stale u) xs)
  in_order u [] h = unfold by_update keep in refl
  in_order u (x ∷ xs) h =
      let olds : List OutboundSendRow = by_update (keep (is_stale t) xs) in
      let news : List OutboundSendRow = by_update (keep (is_newly_stale u) xs) in
      elim (Bool-cases (is_stale t x)) [
        | inl e ↦
            let soon : is_stale u x ≡ true = earlier u x h e in
            rw
              (
                kept (is_stale u) x xs soon,
                kept (is_stale t) x xs e,
                dropped (is_newly_stale u) x xs (rw (soon, e) refl),
              )
              (ap (insert_by_update x) (in_order u xs h)
                ∙ insert-before x olds news (stale-IsEarly x e) (by_update-IsLate u xs))
        | inr e ↦ elim (Bool-cases (is_stale u x)) [
          | inl f ↦
              rw
                (
                  kept (is_stale u) x xs f,
                  dropped (is_stale t) x xs e,
                  kept (is_newly_stale u) x xs (rw (f, e) refl),
                )
                (ap (insert_by_update x) (in_order u xs h)
                  ∙ insert-behind x olds news (newly-IsLate u x (rw (f, e) refl))
                      (by_update-IsEarly xs))
          | inr f ↦
              rw
                (
                  dropped (is_stale u) x xs f,
                  dropped (is_stale t) x xs e,
                  dropped (is_newly_stale u) x xs (rw f refl),
                )
                (in_order u xs h)
        ]
      ]
