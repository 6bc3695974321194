-- ===== src/Request/Stale.antt =====
-- src/do/transactional-send-ops.ts: what `reconcileStaleTransactionalRequests` does to the table.
use reccado.Prelude.{
  ◌≡◌, refl, sym, ap, ◌∙◌, Bool, true, false, none, some, List, [], ◌∷◌, arith, any, map, keep,
  length, subst, inl, inr, Bool-cases, All, if◌then◌else◌, ltb, update_where,
}
use reccado.Text.{Text, ◌===◌, ===_refl, ===_sym}
use reccado.ApiKey.{Instant}
use reccado.Mailbox.{Mailbox, RequestRow, RequestStatus, stale_reconciled}
use reccado.Request.{mark_stale, mark_all_stale, stale_ids, reconcile_stale_transactional_requests}

-- A request that was left behind: it is pending, and was last written before the threshold.
abbrev pub is_left_behind : Instant → RequestRow → Bool
is_left_behind older_than r = elim r.status [
  | RequestStatus.pending ↦ ltb r.updated_at older_than
  | _ ↦ false
]

-- Such a request in doubt, without its variables.
abbrev pub in_doubt : Instant → RequestRow → RequestRow
in_doubt now r = record r {
  status = RequestStatus.unknown;
  error_code = some stale_reconciled;
  variables = none;
  updated_at = now;
}

-- The primary key of the table.
abbrev pub HasDistinctIds : List RequestRow → Type 0
HasDistinctIds [] = Unit {0}
HasDistinctIds (r ∷ rows) =
    (any (λ s. r.request_id === s.request_id) rows ≡ false) × HasDistinctIds rows

abbrev has : Text → List Text → Bool
has id ids = any (λ i. id === i) ids

abbrev marked_in : Instant → List Text → RequestRow → RequestRow
marked_in now ids r = if has r.request_id ids then in_doubt now r else r

mark_one :
    (id : Text) (ids : List Text) (now : Instant) (rows : List RequestRow)
    → map (marked_in now ids) (mark_stale id now rows) ≡ map (marked_in now (id ∷ ids)) rows
unfolding update_where any
mark_one id ids now [] = refl
mark_one id ids now (r ∷ rows) = ground (arith, mark_one id ids now rows)

mark_all :
    (ids : List Text) (now : Instant) (rows : List RequestRow)
    → mark_all_stale ids now rows ≡ map (marked_in now ids) rows
unfolding mark_all_stale any
mark_all [] now [] = refl
mark_all [] now (r ∷ rows) = ap (λ rest. r ∷ rest) (mark_all [] now rows)
mark_all (id ∷ ids) now rows = mark_all ids now (mark_stale id now rows) ∙ mark_one id ids now rows

module _ (t : Instant) where
  absent-stale_ids :
      (id : Text) (rows : List RequestRow)
      → any (λ s. id === s.request_id) rows ≡ false
      → has id (stale_ids t rows) ≡ false
  unfolding any stale_ids
  absent-stale_ids id [] h = refl
  absent-stale_ids id (r ∷ rows) h = ground (arith, absent-stale_ids id rows)

  -- The ids to mark are those of the rows that were left behind.
  abbrev Exact : List Text → List RequestRow → Type 0
  Exact ids rows = All (λ s. has s.request_id ids ≡ is_left_behind t s) rows

  Exact-more :
      (r : RequestRow) (ids : List Text) (rows : List RequestRow)
      → any (λ s. r.request_id === s.request_id) rows ≡ false
      → Exact ids rows
      → Exact (r.request_id ∷ ids) rows
  unfolding any
  Exact-more r ids [] h a = tt
  Exact-more r ids (s ∷ rows) h a = (
    ground (arith, ===_sym s.request_id r.request_id, a.0),
    Exact-more r ids rows (ground arith) a.1,
  )

  marked-Exact :
      (now : Instant) (ids : List Text) (rows : List RequestRow)
      → Exact ids rows
      → map (marked_in now ids) rows
        ≡ map (λ r. if is_left_behind t r then in_doubt now r else r) rows
  marked-Exact now ids [] a = refl
  marked-Exact now ids (r ∷ rows) a = rw (a.0, marked-Exact now ids rows a.1) refl

  stale_ids-stale :
      (r : RequestRow) (rows : List RequestRow)
      → is_left_behind t r ≡ true
      → stale_ids t (r ∷ rows) ≡ r.request_id ∷ stale_ids t rows
  unfolding stale_ids
  stale_ids-stale r rows h = rw h refl

  stale_ids-other :
      (r : RequestRow) (rows : List RequestRow)
      → is_left_behind t r ≡ false
      → stale_ids t (r ∷ rows) ≡ stale_ids t rows
  unfolding stale_ids
  stale_ids-other r rows h = rw h refl

  stale_ids-Exact : (rows : List RequestRow) → HasDistinctIds rows → Exact (stale_ids t rows) rows
  unfolding any
  stale_ids-Exact [] d = tt
  stale_ids-Exact (r ∷ rows) d =
      let rest = stale_ids-Exact rows d.1 in
      elim (Bool-cases (is_left_behind t r)) [
        | inl h ↦
            subst (λ ids. Exact ids (r ∷ rows)) (sym (stale_ids-stale r rows h))
              (rw (===_refl r.request_id) (sym h), Exact-more r (stale_ids t rows) rows d.0 rest)
        | inr h ↦
            subst (λ ids. Exact ids (r ∷ rows)) (sym (stale_ids-other r rows h))
              (absent-stale_ids r.request_id rows d.0 ∙ sym h, rest)
      ]

  length-stale_ids :
      (rows : List RequestRow) → length (stale_ids t rows) ≡ length (keep (is_left_behind t) rows)
  unfolding stale_ids keep
  length-stale_ids [] = refl
  length-stale_ids (r ∷ rows) = ground (arith, length-stale_ids rows)

-- The reconciler turns every pending request that was last written before the threshold into one in
-- doubt, with the note of why and without its variables, leaves every other request as it is, in the
-- same order, and answers how many it turned. The ids of the requests are distinct, as in a primary key.
pub reconcile_stale_transactional_requests-marks :
    (m : Mailbox) (older_than now : Instant)
    → HasDistinctIds m.transactional_requests
    → let (after, count) = reconcile_stale_transactional_requests m older_than now in
      (after.transactional_requests
        ≡ map
            (λ r. if is_left_behind older_than r then in_doubt now r else r)
            m.transactional_requests)
      × (count ≡ length (keep (is_left_behind older_than) m.transactional_requests))
unfolding reconcile_stale_transactional_requests
reconcile_stale_transactional_requests-marks m older_than now distinct =
    let rows = m.transactional_requests in
    (
      mark_all (stale_ids older_than rows) now rows
          ∙ marked-Exact older_than now (stale_ids older_than rows) rows
              (stale_ids-Exact older_than rows distinct),
      length-stale_ids older_than rows,
    )
