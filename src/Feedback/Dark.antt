-- ===== src/Feedback/Dark.antt =====
-- src/lib/feedback-liveness.ts: when a sending domain counts as dark.
use reccado.Prelude.{
  if◌then◌else◌, ◌≤◌, ◌≡◌, refl, ap, ◌∙◌, ℕ, Bool, true, false, ◌&&◌, ◌||◌, Option, none, some,
  List, [], ◌∷◌, any, all, ltb, ◌==◌, is_some, arith,
}
use reccado.Text.{Text}
use reccado.ApiKey.{Instant}
use reccado.Feedback.{
  SendRow, FeedbackLivenessState, live, unobserved, never_observed, went_dark, is_silent,
  count_where, later_of, max_of, event_at, silent_at, observation_of, is_later,
  classify_feedback_liveness,
}

abbrev pub is_before : Option Instant → Instant → Bool
is_before none t = true
is_before (some s) t = ltb s t

-- A mature dispatch without an event is later than all events.
unfoldable pub goes_unanswered : Instant → List SendRow → Bool
unfolding any all
goes_unanswered cutoff rows =
    any (λ r. is_silent cutoff r && all (λ s. is_before s.delivery_event_at r.created_at) rows) rows

abbrev is_after : Option Instant → Option Instant → Bool
is_after e none = false
is_after e (some t) = is_before e t

is_before-later_of :
    (a b : Option Instant) (t : Instant)
    → is_before (later_of a b) t ≡ is_before a t && is_before b t
is_before-later_of none b t = refl
is_before-later_of (some x) none t = ground arith
is_before-later_of (some x) (some y) t = ground arith

is_after-later_of :
    (e a b : Option Instant) → is_after e (later_of a b) ≡ is_after e a || is_after e b
is_after-later_of none none b = refl
is_after-later_of none (some x) none = refl
is_after-later_of none (some x) (some y) = ground arith
is_after-later_of (some z) none b = refl
is_after-later_of (some z) (some x) none = ground arith
is_after-later_of (some z) (some x) (some y) = ground arith

all-before :
    (t : Instant) (rows : List SendRow)
    → all (λ s. is_before s.delivery_event_at t) rows ≡ is_before (max_of event_at rows) t
unfolding all max_of
all-before t [] = refl
all-before t (r ∷ rows) =
    ground
      (arith, all-before t rows, is_before-later_of r.delivery_event_at (max_of event_at rows) t)

any-silent :
    (cutoff : Instant) (e : Option Instant) (rows : List SendRow)
    → any (λ r. is_silent cutoff r && is_before e r.created_at) rows
      ≡ is_after e (max_of (silent_at cutoff) rows)
unfolding any max_of
any-silent cutoff e [] = refl
any-silent cutoff e (r ∷ rows) = ground (
  arith,
  any-silent cutoff e rows,
  is_after-later_of e (silent_at cutoff r) (max_of (silent_at cutoff) rows),
)

-- The list has a row without an event in its time exactly where the count of them is not 0.
silent-counted :
    (cutoff : Instant) (rows : List SendRow)
    → is_some (max_of (silent_at cutoff) rows) ≡ ltb 0 (count_where (is_silent cutoff) rows)
unfolding max_of count_where
silent-counted cutoff [] = refl
silent-counted cutoff (r ∷ rows) = ground (arith, silent-counted cutoff rows)

events-counted :
    (rows : List SendRow)
    → is_some (max_of event_at rows) ≡ ltb 0 (count_where (λ r. is_some r.delivery_event_at) rows)
unfolding max_of count_where
events-counted [] = refl
events-counted (r ∷ rows) = ground (arith, events-counted rows)

-- A dispatch of which an event came.
abbrev pub is_observed : SendRow → Bool
is_observed r = is_some r.delivery_event_at

any-observed : (rows : List SendRow) → any is_observed rows ≡ ltb 0 (count_where is_observed rows)
unfolding any count_where
any-observed [] = refl
any-observed (r ∷ rows) = ground (arith, any-observed rows)

-- The state, by whether a dispatch goes unanswered and whether one was answered.
unfoldable pub verdict : Instant → List SendRow → FeedbackLivenessState
unfolding goes_unanswered any
verdict cutoff rows =
    if goes_unanswered cutoff rows
    then (if any is_observed rows then went_dark else never_observed)
    else if any is_observed rows
    then live
    else unobserved

is_later-is_after : (e t : Option Instant) → is_some e ≡ true → is_later t e ≡ is_after e t
is_later-is_after none t h = ground arith
is_later-is_after (some x) none h = refl
is_later-is_after (some x) (some y) h = refl

any-same :
    (p q : SendRow → Bool) (rows : List SendRow)
    → ((r : SendRow) → p r ≡ q r)
    → any p rows ≡ any q rows
unfolding any
any-same p q [] h = refl
any-same p q (r ∷ rows) h = ground (arith, h r, any-same p q rows h)

unanswered-after :
    (cutoff : Instant) (rows : List SendRow)
    → goes_unanswered cutoff rows ≡ is_after (max_of event_at rows) (max_of (silent_at cutoff) rows)
unfolding goes_unanswered
unanswered-after cutoff rows =
    any-same _ _ rows (λ r. ap (λ b. is_silent cutoff r && b) (all-before r.created_at rows))
    ∙ any-silent cutoff (max_of event_at rows) rows

count_where-le :
    (p : SendRow → Bool) (rows : List SendRow) → count_where p rows ≤ count_where (λ r. true) rows
unfolding count_where
count_where-le p [] = omega arith
count_where-le p (r ∷ rows) = ground (arith, count_where-le p rows)

-- The tests of the code, on counts and latest instants that agree.
decided :
    (dispatched observed silent : ℕ) (event silence : Option Instant)
    → observed ≤ dispatched
    → silent ≤ dispatched
    → is_some event ≡ ltb 0 observed
    → is_some silence ≡ ltb 0 silent
    → (if dispatched == 0
        then unobserved
        else if observed == 0
        then (if ltb 0 silent then never_observed else unobserved)
        else if silent == 0
        then live
        else if is_later silence event
        then went_dark
        else live)
      ≡ (if is_after event silence
          then (if ltb 0 observed then went_dark else never_observed)
          else if ltb 0 observed
          then live
          else unobserved)
decided d o s none none a b e f = ground arith
decided d o s none (some t) a b e f = ground arith
decided d o s (some x) none a b e f = ground arith
decided d o s (some x) (some t) a b e f = ground arith

-- The code's tests on counts and latest instants come to this of the rows: a domain is dark exactly
-- when some mature dispatch without an event is later than every event, and then `went_dark` where
-- there was an event at all; a domain that is not dark is `live` exactly when there was an event.
pub classify-verdict :
    (domain : Text) (cutoff : Instant) (rows : List SendRow)
    → classify_feedback_liveness (observation_of domain cutoff rows) ≡ verdict cutoff rows
unfolding classify_feedback_liveness observation_of verdict
classify-verdict domain cutoff rows =
    rw (unanswered-after cutoff rows, any-observed rows)
      (decided _ _ _ (max_of event_at rows) (max_of (silent_at cutoff) rows)
        (count_where-le is_observed rows) (count_where-le (is_silent cutoff) rows)
        (events-counted rows) (silent-counted cutoff rows))
