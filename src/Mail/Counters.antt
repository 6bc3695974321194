-- ===== src/Mail/Counters.antt =====
-- src/do/mailbox-do.ts and src/do/mailbox-ingest.ts: the counters of the threads.
use mathlib.Core.Option
use reccado.Prelude.{
  ℕ, suc, ◌+◌, ◌≡◌, refl, sym, ◌∙◌, ap, subst, Bool, false, Option, none, some, List, [], ◌∷◌, ◌++◌,
  arith, keep, find, update_where, find-append_none, find-update_where, find_sound, Option-cases,
  Bool-cases, inl, inr, if◌then◌else◌,
}
use reccado.Text.{Text, ◌===◌, ===_iff, ===_sym}
use reccado.ApiKey.{Instant}
use reccado.Inbox.{Inbox, MessageRow, ThreadRow}
use reccado.Draft.Settle.{has_thread_id, find_thread, bump_thread}
use reccado.Ingest.{bump_unread_thread}
use reccado.Mail.{thread_count, messages_in}

-- For every id, the thread's counter is the number of its messages.
abbrev pub IsCounted : Inbox → Type 0
IsCounted m = (id : Text) → thread_count m id ≡ messages_in id m.messages

abbrev pub one_if : Bool → ℕ
one_if b = if b then 1 else 0

same_test : (u : ThreadRow) (id other : Text) → u.id ≡ other → u.id === id ≡ id === other
same_test u id other e = rw e (===_sym other id)

elsewhere :
    (m : Inbox) (t : ThreadRow) (id other : Text)
    → find_thread m id ≡ some t
    → find_thread m other ≡ none
    → id === other ≡ false
elsewhere m t id other e gone = elim (Bool-cases (id === other)) [
  | inr h ↦ h
  | inl h ↦
      let same : id ≡ other = (===_iff _ _).0 h in
      let there : find_thread m other ≡ some t = rw (sym same) e in ground (arith, there, gone)
]

-- An update of the row of one thread that adds one to its counter.
module _ (id : Text) (f : ThreadRow → ThreadRow) (same : (t : ThreadRow) → (f t).id ≡ t.id)
    (more : (t : ThreadRow) → (f t).message_count ≡ suc t.message_count) where
  counted_update :
      (m : Inbox) (t : ThreadRow) (other : Text)
      → find_thread m id ≡ some t
      → thread_count (record m { threads = update_where (has_thread_id id) f m.threads }) other
        ≡ thread_count m other + one_if (id === other)
  unfolding thread_count find_thread
  counted_update m t other e =
      let found =
        find-update_where (has_thread_id other) (has_thread_id id) f m.threads
          (λ a. ap (λ i. i === other) (same a)) in
      elim (Option-cases (find (has_thread_id other) m.threads)) [
        | inl gone ↦
            let still = found ∙ ap (Option.map (λ a. if has_thread_id id a then f a else a)) gone in
            let differ : id === other ≡ false = elsewhere m t id other e gone in
            ground (arith, still)
        | inr (u, there) ↦
            let still =
              found ∙ ap (Option.map (λ a. if has_thread_id id a then f a else a)) there in
            let named : u.id ≡ other =
              (===_iff _ _).0 (find_sound (has_thread_id other) m.threads u there) in
            let here : u.id === id ≡ id === other = same_test u id other named in
            ground (arith, still, there, more u, here)
      ]

find-append_other :
    (p : ThreadRow → Bool) (xs : List ThreadRow) (t : ThreadRow)
    → p t ≡ false
    → find p (xs ++ t ∷ []) ≡ find p xs
unfolding find
find-append_other p [] t h = rw h refl
find-append_other p (x ∷ xs) t h = ground (arith, find-append_other p xs t h)

-- A new thread that counts one message.
counted_new :
    (m : Inbox) (t : ThreadRow) (other : Text)
    → find_thread m t.id ≡ none
    → t.message_count ≡ 1
    → thread_count (record m { threads = m.threads ++ t ∷ [] }) other
      ≡ thread_count m other + one_if (t.id === other)
unfolding thread_count find_thread find
counted_new m t other gone one = elim (Bool-cases (t.id === other)) [
  | inl h ↦
      let same : t.id ≡ other = (===_iff _ _).0 h in
      let before : find (has_thread_id other) m.threads ≡ none =
        subst (λ i. find (has_thread_id i) m.threads ≡ none) same gone in
      let after = find-append_none (has_thread_id other) m.threads (t ∷ []) before in
      ground (arith, before, after, h, one)
  | inr h ↦
      let after = find-append_other (has_thread_id other) m.threads t h in ground (arith, after, h)
]

pub bump_thread-counts :
    (id : Text) (subject : Option Text) (at now : Instant) (m : Inbox) (other : Text)
    → thread_count (bump_thread id subject at now m) other
      ≡ thread_count m other + one_if (id === other)
unfolding bump_thread
bump_thread-counts id subject at now m other = elim (Option-cases (find_thread m id)) [
  | inl e ↦ rw (e, bump_thread) (counted_new m _ other e refl)
  | inr (t, e) ↦ rw (e, bump_thread) (counted_update id _ (λ t. refl) (λ t. refl) m t other e)
]

pub bump_unread_thread-counts :
    (id : Text) (subject : Option Text) (at now : Instant) (m : Inbox) (other : Text)
    → thread_count (bump_unread_thread id subject at now m) other
      ≡ thread_count m other + one_if (id === other)
unfolding bump_unread_thread
bump_unread_thread-counts id subject at now m other = elim (Option-cases (find_thread m id)) [
  | inl e ↦ rw (e, bump_unread_thread) (counted_new m _ other e refl)
  | inr (t, e) ↦
      rw (e, bump_unread_thread) (counted_update id _ (λ t. refl) (λ t. refl) m t other e)
]

pub messages_in-append :
    (id : Text) (rows : List MessageRow) (row : MessageRow)
    → messages_in id (rows ++ row ∷ []) ≡ messages_in id rows + one_if (row.thread_id === id)
unfolding messages_in keep
messages_in-append id [] row = ground arith
messages_in-append id (r ∷ rows) row = ground (arith, messages_in-append id rows row)

-- Two mailboxes with the same threads count the same.
pub same-count :
    (m n : Inbox) (id : Text) → n.threads ≡ m.threads → thread_count n id ≡ thread_count m id
unfolding thread_count find_thread
same-count m n id e = rw e refl

pub same-IsCounted :
    (m n : Inbox) → n.threads ≡ m.threads → n.messages ≡ m.messages → IsCounted m → IsCounted n
same-IsCounted m n threads messages counted id =
    same-count m n id threads ∙ counted id ∙ ap (messages_in id) (sym messages)
