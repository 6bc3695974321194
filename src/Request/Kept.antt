-- ===== src/Request/Kept.antt =====
-- The statements that keep each transactional request of the table, and what they keep of it.
use mathlib.Core.Option
use reccado.Prelude.{
  ◌≡◌, refl, ap, ◌∙◌, Bool, true, some, inl, inr, Bool-cases, find, update_where, find-update_where,
  if◌then◌else◌,
}
use reccado.Text.{Text}
use reccado.Mailbox.{Mailbox, RequestRow}
use reccado.Request.{is_request, get_transactional_request}

-- The same request, whatever became of its status.
pub record SameRequest (r s : RequestRow) : Type 0 where
  pub request_id : s.request_id ≡ r.request_id
  pub key_id : s.key_id ≡ r.key_id
  pub idempotency_key : s.client_idempotency_key ≡ r.client_idempotency_key
  pub payload_hash : s.payload_hash ≡ r.payload_hash

abbrev pub same : (r : RequestRow) → SameRequest r r
same r = record { request_id = refl; key_id = refl; idempotency_key = refl; payload_hash = refl }

pub SameRequest-trans : (r s t : RequestRow) → SameRequest r s → SameRequest s t → SameRequest r t
SameRequest-trans r s t a b = record {
  request_id = b.request_id ∙ a.request_id;
  key_id = b.key_id ∙ a.key_id;
  idempotency_key = b.idempotency_key ∙ a.idempotency_key;
  payload_hash = b.payload_hash ∙ a.payload_hash;
}

-- Each request of `m` is a request of `n` that is related to it.
pub record Keeps (R : RequestRow → RequestRow → Type 0) (m n : Mailbox) : Type 0 where
  pub kept :
      (k i : Text) (r : RequestRow)
      → get_transactional_request m k i ≡ some r
      → (s : RequestRow) × (get_transactional_request n k i ≡ some s) × R r s

module _ {R : RequestRow → RequestRow → Type 0} where
  pub Keeps-refl : ((r : RequestRow) → R r r) → (m : Mailbox) → Keeps R m m
  Keeps-refl R-refl m = record { kept = λ k i r e. (r, e, R-refl r) }

  pub Keeps-trans :
      ((r s t : RequestRow) → R r s → R s t → R r t)
      → {m n o : Mailbox} → Keeps R m n
      → Keeps R n o
      → Keeps R m o
  Keeps-trans R-trans f g = record {
    kept = λ k i r e.
        let (s, e, a) = f.kept k i r e in
        let (t, e, b) = g.kept k i s e in (t, e, R-trans r s t a b);
  }

  pub same_rows-Keeps :
      ((r : RequestRow) → R r r)
      → (m n : Mailbox) → n.transactional_requests ≡ m.transactional_requests
      → Keeps R m n
  unfolding get_transactional_request
  same_rows-Keeps R-refl m n same_rows = record {
    kept = λ k i r e. (r, ap (find (is_request k i)) same_rows ∙ e, R-refl r);
  }

  -- An UPDATE that sets no column of the request's identity.
  pub update_where-Keeps :
      ((r : RequestRow) → R r r)
      → (p : RequestRow → Bool) (f : RequestRow → RequestRow) {m n : Mailbox}
      → n.transactional_requests ≡ update_where p f m.transactional_requests
      → ((r : RequestRow) → SameRequest r (f r))
      → ((r : RequestRow) → p r ≡ true → R r (f r))
      → Keeps R m n
  unfolding get_transactional_request
  update_where-Keeps R-refl p f {m} {n} rows kept related = record {
    kept = λ k i r e.
        let found =
          ap (find (is_request k i)) rows
          ∙ find-update_where (is_request k i) p f m.transactional_requests
              (λ r. rw ((kept r).key_id, (kept r).idempotency_key) refl)
          ∙ ap (Option.map (λ r. if p r then f r else r)) e in
        elim (Bool-cases (p r)) [
          | inl h ↦ (f r, found ∙ rw h refl, related r h)
          | inr h ↦ (r, found ∙ rw h refl, R-refl r)
        ];
  }

pub Keeps-weaken :
    {R Q : RequestRow → RequestRow → Type 0} {m n : Mailbox}
    → ((r s : RequestRow) → R r s → Q r s)
    → Keeps R m n
    → Keeps Q m n
Keeps-weaken f k = record { kept = λ i j r e. let (s, g, a) = k.kept i j r e in (s, g, f r s a) }
