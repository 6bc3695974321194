-- ===== src/Outbound/Progress.antt =====
-- src/cloudflare/scheduled.ts: how far the sweeps of the stale sends get.
use reccado.Prelude.{
  ◌*◌, All, ℕ, zero, suc, ◌+◌, ◌-◌, ◌≤◌, ◌≡◌, refl, sym, ◌∙◌, ap, Bool, false, none, some, ◌||◌,
  length-append, length-take, List, [], ◌∷◌, ◌++◌, any, arith, length, take, drop, min, keep,
  update_where, delete_where,
}
use reccado.Text.{Text, ◌===◌, ===_refl}
use reccado.ApiKey.{Instant}
use reccado.Outbound.{
  Ledger, OutboundSendRow, unknown, SendErrorCode, has_send_key, with_outcome, insert_ops_event,
  update_outbound_send_status,
}
use reccado.Outbound.Order.{is_newly_stale, in_order}
use reccado.Outbound.Sweep.{
  stale_sending_threshold_ms, stale_sending_sweep_limit, is_stale, insert_by_update, by_update,
  list_stale_sending, mark_unknown, mark_each, reconcile_stale_outbound_sends, stale_count,
}

-- Whether a row has the key of one of the rows.
abbrev is_among : List OutboundSendRow → OutboundSendRow → Bool
is_among rows r = any (λ row. r.idempotency_key === row.idempotency_key) rows

keep-marked :
    (older_than now : Instant) (key : Text) (code : SendErrorCode) (xs : List OutboundSendRow)
    → keep
        (is_stale older_than)
        (update_where (has_send_key key) (with_outcome unknown none (some code) now) xs)
      ≡ delete_where (has_send_key key) (keep (is_stale older_than) xs)
unfolding keep update_where delete_where is_stale
keep-marked older_than now key code [] = refl
keep-marked older_than now key code (r ∷ xs) =
    ground (arith, keep-marked older_than now key code xs)

delete-delete :
    (p q : OutboundSendRow → Bool) (xs : List OutboundSendRow)
    → delete_where q (delete_where p xs) ≡ delete_where (λ r. p r || q r) xs
unfolding delete_where
delete-delete p q [] = refl
delete-delete p q (x ∷ xs) = ground (arith, delete-delete p q xs)

delete-nothing : (xs : List OutboundSendRow) → delete_where (λ r. false) xs ≡ xs
unfolding delete_where
delete-nothing [] = refl
delete-nothing (x ∷ xs) = ap (λ ys. x ∷ ys) (delete-nothing xs)

-- Marking rows takes the rows with their keys out of the stale ones.
stale-marked :
    (older_than now : Instant) (rows : List OutboundSendRow) (l : Ledger)
    → keep (is_stale older_than) (mark_each now rows l).outbound_sends
      ≡ delete_where (is_among rows) (keep (is_stale older_than) l.outbound_sends)
unfolding mark_each mark_unknown insert_ops_event update_outbound_send_status any
stale-marked older_than now [] l =
    sym (delete-nothing (keep (is_stale older_than) l.outbound_sends))
stale-marked older_than now (row ∷ rows) l =
    stale-marked older_than now rows (mark_unknown now row l)
    ∙ ap (delete_where (is_among rows))
        (keep-marked older_than now row.idempotency_key _ l.outbound_sends)
    ∙ delete-delete (has_send_key row.idempotency_key) (is_among rows)
        (keep (is_stale older_than) l.outbound_sends)

module _ (p : OutboundSendRow → Bool) where
  left-append :
      (xs ys : List OutboundSendRow)
      → length (delete_where p (xs ++ ys)) ≡ length (delete_where p xs) + length (delete_where p ys)
  unfolding delete_where
  left-append [] ys = omega arith
  left-append (x ∷ xs) ys = ground (arith, left-append xs ys)

  left-le : (xs : List OutboundSendRow) → length (delete_where p xs) ≤ length xs
  unfolding delete_where
  left-le [] = omega arith
  left-le (x ∷ xs) = ground (arith, left-le xs)

  left-insert :
      (row : OutboundSendRow) (xs : List OutboundSendRow)
      → length (delete_where p (insert_by_update row xs)) ≡ length (delete_where p (row ∷ xs))
  unfolding delete_where insert_by_update
  left-insert row [] = refl
  left-insert row (x ∷ xs) = ground (arith, left-insert row xs)

  left-by_update :
      (xs : List OutboundSendRow)
      → length (delete_where p (by_update xs)) ≡ length (delete_where p xs)
  unfolding delete_where by_update
  left-by_update [] = refl
  left-by_update (x ∷ xs) = ground (arith, left-insert x (by_update xs), left-by_update xs)

left-more :
    (row : OutboundSendRow) (rows xs : List OutboundSendRow)
    → length (delete_where (is_among (row ∷ rows)) xs) ≤ length (delete_where (is_among rows) xs)
unfolding delete_where any
left-more row rows [] = omega arith
left-more row rows (x ∷ xs) = ground (arith, left-more row rows xs)

left-own : (rows : List OutboundSendRow) → length (delete_where (is_among rows) rows) ≡ 0
unfolding delete_where any
left-own [] = refl
left-own (row ∷ rows) =
    ground (arith, ===_refl row.idempotency_key, left-more row rows rows, left-own rows)

length-by_update : (xs : List OutboundSendRow) → length (by_update xs) ≡ length xs
length-by_update xs =
    sym (ap length (delete-nothing (by_update xs)))
    ∙ left-by_update (λ r. false) xs
    ∙ ap length (delete-nothing xs)

take-drop : (n : ℕ) (xs : List OutboundSendRow) → take n xs ++ drop n xs ≡ xs
take-drop zero xs = refl
take-drop (suc n) [] = refl
take-drop (suc n) (x ∷ xs) = ap (λ ys. x ∷ ys) (take-drop n xs)

-- Marking the first `n` rows, in the order of the sweep, leaves at most the others.
left-taken :
    (n : ℕ) (xs : List OutboundSendRow)
    → length (delete_where (is_among (take n (by_update xs))) xs) + length (take n (by_update xs))
      ≤ length xs
left-taken n xs =
    let sorted : List OutboundSendRow = by_update xs in
    let p : OutboundSendRow → Bool = is_among (take n sorted) in
    let whole = ap (λ ys. length (delete_where p ys)) (take-drop n sorted) in
    omega (
      arith,
      left-by_update p xs,
      whole,
      left-append p (take n sorted) (drop n sorted),
      left-own (take n sorted),
      left-le p (drop n sorted),
      ap length (take-drop n sorted),
      length-append (take n sorted) (drop n sorted),
      length-by_update xs,
    )

take-append :
    (n : ℕ) (xs ys : List OutboundSendRow)
    → (more : List OutboundSendRow) × (take n (xs ++ ys) ≡ take n xs ++ more)
take-append zero xs ys = ([], refl)
take-append (suc n) [] ys = (take (suc n) ys, refl)
take-append (suc n) (x ∷ xs) ys = let (more, e) = take-append n xs ys in (more, ap (λ zs. x ∷ zs) e)

among-append :
    (rows more : List OutboundSendRow) (r : OutboundSendRow)
    → is_among (rows ++ more) r ≡ is_among rows r || is_among more r
unfolding any
among-append [] more r = refl
among-append (row ∷ rows) more r = ground (arith, among-append rows more r)

left-both :
    (rows more xs : List OutboundSendRow)
    → length (delete_where (is_among (rows ++ more)) xs) ≤ length (delete_where (is_among rows) xs)
unfolding delete_where
left-both rows more [] = omega arith
left-both rows more (x ∷ xs) = ground (arith, among-append rows more x, left-both rows more xs)

-- A sweep at a later threshold still takes the rows that are stale at the earlier one first.
left-swept :
    (n : ℕ) (t u : Instant) (xs : List OutboundSendRow)
    → t ≤ u
    → let stale = keep (is_stale t) xs in
      length (delete_where (is_among (take n (by_update (keep (is_stale u) xs)))) stale)
        + min n (length stale)
      ≤ length stale
left-swept n t u xs h =
    let stale : List OutboundSendRow = keep (is_stale t) xs in
    let first : List OutboundSendRow = by_update stale in
    let news : List OutboundSendRow = by_update (keep (is_newly_stale t u) xs) in
    let (more, e) = take-append n first news in
    rw (in_order t u xs h, e)
      (omega (
        arith,
        left-both (take n first) more stale,
        left-taken n stale,
        length-take n first,
        length-by_update stale,
      ))

sweep-progress :
    (t scheduled_time now : Instant) (l : Ledger)
    → t ≤ scheduled_time - stale_sending_threshold_ms
    → stale_count t (reconcile_stale_outbound_sends scheduled_time now l).0
        + min stale_sending_sweep_limit (stale_count t l)
      ≤ stale_count t l
unfolding reconcile_stale_outbound_sends stale_count list_stale_sending
sweep-progress t scheduled_time now l h =
    let u : Instant = scheduled_time - stale_sending_threshold_ms in
    let picked : List OutboundSendRow =
      take stale_sending_sweep_limit (by_update (keep (is_stale u) l.outbound_sends)) in
    omega (
      arith,
      ap length (stale-marked t now picked l),
      left-swept stale_sending_sweep_limit t u l.outbound_sends h,
    )

-- The sweeps of several runs, each with its scheduled time and its reading of the clock.
unfoldable pub sweep_all : List (Instant × Instant) → Ledger → Ledger
sweep_all [] l = l
sweep_all (time ∷ times) l = sweep_all times (reconcile_stale_outbound_sends time.0 time.1 l).0

-- However late each sweep runs, as long as none has a threshold before `t`: after n sweeps, with
-- nothing else written between them, of the sends that were last written before `t` and still say
-- `sending` there are fewer by 50 n at least, or none where there were no more than 50 n.
pub sweep_all-progress :
    (t : Instant) (times : List (Instant × Instant)) (l : Ledger)
    → All (λ time. t ≤ time.0 - stale_sending_threshold_ms) times
    → stale_count t (sweep_all times l)
        + min (stale_sending_sweep_limit * length times) (stale_count t l)
      ≤ stale_count t l
unfolding sweep_all
sweep_all-progress t [] l a = omega arith
sweep_all-progress t (time ∷ times) l a = omega (
  arith,
  sweep-progress t time.0 time.1 l a.0,
  sweep_all-progress t times (reconcile_stale_outbound_sends time.0 time.1 l).0 a.1,
)
