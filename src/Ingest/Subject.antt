-- ===== src/Ingest/Subject.antt =====
-- src/do/mailbox-ingest.ts: when a received mail joins a thread by its subject.
use reccado.Prelude.{
  ℕ, zero, suc, ◌-◌, ◌≡◌, refl, sym, ◌∙◌, ap, Bool, true, false, ◌&&◌, ◌||◌, some, List, [], ◌∷◌,
  ◌++◌, any, arith, keep, All, take, Bool-cases, inl, inr,
}
use reccado.Text.{Text, ◌===◌, ===_refl, contains}
use reccado.ApiKey.{Instant}
use reccado.Inbox.{Inbox, MessageRow, ThreadRow}
use reccado.Ingest.Threading.{
  is_own, normal, subject_fallback_window_ms, subject_fallback_candidates, participant_scan_limit,
  mailbox_own_domains, counterparties, SubjectInput, is_candidate, insert_thread, latest_threads,
  insert_message, latest_messages, is_in_thread, scanned_messages, shares, first_shared,
  candidate_threads, find_thread_by_subject,
}

module _ {ℓ} {A : Type ℓ} (p : A → Bool) where
  any-take : (n : ℕ) (xs : List A) → any p (take n xs) ≡ true → any p xs ≡ true
  unfolding any
  any-take zero xs h = ground arith
  any-take (suc n) [] h = h
  any-take (suc n) (x ∷ xs) h = ground (arith, any-take n xs)

  any-keep :
      (q : A → Bool) (xs : List A) → any p (keep q xs) ≡ true → any (λ x. q x && p x) xs ≡ true
  unfolding any keep
  any-keep q [] h = h
  any-keep q (x ∷ xs) h = ground (arith, any-keep q xs)

module _ (p : ThreadRow → Bool) where
  any-insert_thread :
      (t : ThreadRow) (xs : List ThreadRow) → any p (insert_thread t xs) ≡ p t || any p xs
  unfolding any insert_thread
  any-insert_thread t [] = refl
  any-insert_thread t (x ∷ xs) = ground (arith, any-insert_thread t xs)

  any-latest_threads : (xs : List ThreadRow) → any p (latest_threads xs) ≡ any p xs
  unfolding any latest_threads
  any-latest_threads [] = refl
  any-latest_threads (x ∷ xs) =
      any-insert_thread x (latest_threads xs) ∙ ap (λ b. p x || b) (any-latest_threads xs)

module _ (p : MessageRow → Bool) where
  any-insert_message :
      (r : MessageRow) (xs : List MessageRow) → any p (insert_message r xs) ≡ p r || any p xs
  unfolding any insert_message
  any-insert_message r [] = refl
  any-insert_message r (x ∷ xs) = ground (arith, any-insert_message r xs)

  any-latest_messages : (xs : List MessageRow) → any p (latest_messages xs) ≡ any p xs
  unfolding any latest_messages
  any-latest_messages [] = refl
  any-latest_messages (x ∷ xs) =
      any-insert_message x (latest_messages xs) ∙ ap (λ b. p x || b) (any-latest_messages xs)

module _ (own_domains incoming : List Text) (m : Inbox) (id : Text) where
  first_shared-listed :
      (threads : List ThreadRow)
      → first_shared own_domains incoming m threads ≡ some id
      → any (λ t. t.id === id) threads ≡ true
  unfolding first_shared any
  first_shared-listed [] e = ground arith
  first_shared-listed (t ∷ threads) e = ground (arith, first_shared-listed threads, ===_refl id)

  first_shared-shares :
      (threads : List ThreadRow)
      → first_shared own_domains incoming m threads ≡ some id
      → any (shares own_domains incoming) (scanned_messages m id) ≡ true
  unfolding first_shared
  first_shared-shares [] e = ground arith
  first_shared-shares (t ∷ threads) e = ground (arith, first_shared-shares threads)

scanned-shares :
    (p : MessageRow → Bool) (m : Inbox) (id : Text)
    → any p (scanned_messages m id) ≡ true
    → any (λ r. is_in_thread id r && p r) m.messages ≡ true
unfolding scanned_messages
scanned-shares p m id h =
    let rows : List MessageRow = keep (is_in_thread id) m.messages in
    any-keep p (is_in_thread id) m.messages (
      sym (any-latest_messages p rows) ∙ any-take p participant_scan_limit (latest_messages rows) h)

listed-candidate :
    (p : ThreadRow → Bool) (m : Inbox) (subject : Text) (at : Instant)
    → any p (candidate_threads m subject at) ≡ true
    → any (λ t. is_candidate subject (at - subject_fallback_window_ms) t && p t) m.threads ≡ true
unfolding candidate_threads
listed-candidate p m subject at h =
    let q : ThreadRow → Bool = is_candidate subject (at - subject_fallback_window_ms) in
    let rows : List ThreadRow = keep q m.threads in
    any-keep p q m.threads (
      sym (any-latest_threads p rows)
      ∙ any-take p subject_fallback_candidates (latest_threads rows) h)

-- The counterparties of a message have no address of the mailbox's own domains.
counterparties-foreign :
    (own_domains addresses : List Text)
    → All (λ a. is_own own_domains a ≡ false) (counterparties own_domains addresses)
unfolding counterparties
counterparties-foreign own_domains [] = tt
counterparties-foreign own_domains (raw ∷ addresses) =
    let rest = counterparties-foreign own_domains addresses in
    elim (Bool-cases (is_own own_domains (normal raw))) [
      | inl own ↦ ground (arith, rest)
      | inr foreign ↦ ground (arith, rest)
    ]

-- A mail joins a thread by its subject only on this evidence: a thread with that id has the same
-- normalized subject and had mail in the 30 days before; and some message of the thread shares an
-- address with the mail, as sender or recipient of both, which
-- is not of the mailbox's own domains.
pub find_thread_by_subject-evidence :
    (m : Inbox) (i : SubjectInput) (id : Text)
    → find_thread_by_subject m i ≡ some id
    → let own_domains = mailbox_own_domains m i.delivered_to in
      let incoming = counterparties own_domains (i.from_addr ∷ i.recipients) in
      (any
          (λ t.
            is_candidate i.subject_norm (i.received_at - subject_fallback_window_ms) t
            && t.id === id)
          m.threads
        ≡ true)
      × (any
            (λ r.
              is_in_thread id r
              && any (contains incoming) (counterparties own_domains (r.from_addr ∷ r.to ++ r.cc)))
            m.messages
          ≡ true)
      × All (λ a. is_own own_domains a ≡ false) incoming
unfolding find_thread_by_subject shares
find_thread_by_subject-evidence m i id e =
    let own_domains : List Text = mailbox_own_domains m i.delivered_to in
    let incoming : List Text = counterparties own_domains (i.from_addr ∷ i.recipients) in
    let threads : List ThreadRow = candidate_threads m i.subject_norm i.received_at in
    (
      listed-candidate (λ t. t.id === id) m i.subject_norm i.received_at
          (first_shared-listed own_domains incoming m id threads e),
      scanned-shares (shares own_domains incoming) m id
          (first_shared-shares own_domains incoming m id threads e),
      counterparties-foreign own_domains (i.from_addr ∷ i.recipients),
    )
