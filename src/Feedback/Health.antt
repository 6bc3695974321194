-- ===== src/Feedback/Health.antt =====
-- src/lib/feedback-liveness.ts: what the status of all sending domains says of the log.
use reccado.Prelude.{
  ◌≡◌, refl, ap, ◌∙◌, Bool, true, false, not, ◌||◌, List, [], ◌∷◌, any, map, keep, arith,
}
use reccado.Text.{Text, ===_iff}
use reccado.ApiKey.{Instant}
use reccado.Feedback.{
  SendRow, SenderFeedbackObservation, sending_domain, observation_of, feedback_maturity_cutoff,
  feedback_lookback_floor, classify_feedback_liveness,
}
use reccado.Feedback.Dark.{goes_unanswered, verdict, classify-verdict}
use reccado.Feedback.Summary.{
  insert_domain, domains_of, logged_dispatches, group_of, read_sender_feedback_observations,
  DomainStatus, is_dark, status_of, dark_names, summary_of, summarize_sending_feedback,
  get_sending_feedback_status,
}

any-insert_domain :
    (p : Text → Bool) (domain : Text) (domains : List Text)
    → any p (insert_domain domain domains) ≡ p domain || any p domains
unfolding any insert_domain
any-insert_domain p domain [] = refl
any-insert_domain p domain (d ∷ domains) =
    ground (arith, ===_iff domain d, ap p, any-insert_domain p domain domains)

any-domains_of :
    (p : Text → Bool) (rows : List SendRow)
    → any p (domains_of rows) ≡ any (λ r. p (sending_domain r)) rows
unfolding any domains_of
any-domains_of p [] = refl
any-domains_of p (r ∷ rows) =
    any-insert_domain p (sending_domain r) (domains_of rows)
    ∙ ap (λ b. p (sending_domain r) || b) (any-domains_of p rows)

any-map {ℓ κ} :
    {A : Type ℓ} {B : Type κ} (p : B → Bool) (f : A → B) (xs : List A)
    → any p (map f xs) ≡ any (λ x. p (f x)) xs
unfolding any
any-map p f [] = refl
any-map p f (x ∷ xs) = ap (λ b. p (f x) || b) (any-map p f xs)

any-same {ℓ} :
    {A : Type ℓ} (p q : A → Bool) (xs : List A) → ((x : A) → p x ≡ q x) → any p xs ≡ any q xs
unfolding any
any-same p q [] h = refl
any-same p q (x ∷ xs) h = ground (arith, h x, any-same p q xs h)

abbrev is_dark_status : DomainStatus → Bool
is_dark_status d = is_dark d.state

abbrev is_nameless : List Text → Bool
is_nameless [] = true
is_nameless (name ∷ names) = false

named-dark :
    (domains : List DomainStatus)
    → is_nameless (dark_names domains) ≡ not (any is_dark_status domains)
unfolding any keep
named-dark [] = refl
named-dark (d ∷ domains) = ground (arith, named-dark domains)

summary-named :
    (d : DomainStatus) (domains : List DomainStatus) (names : List Text)
    → (summary_of (d ∷ domains) names).ok ≡ is_nameless names
unfolding summary_of
summary-named d domains [] = ground arith
summary-named d domains (name ∷ names) = refl

-- The summary is a failure exactly when a domain is dark.
summary-ok :
    (domains : List DomainStatus)
    → (summary_of domains (dark_names domains)).ok ≡ not (any is_dark_status domains)
unfolding any keep summary_of
summary-ok [] = refl
summary-ok (d ∷ domains) =
    summary-named d domains (dark_names (d ∷ domains)) ∙ named-dark (d ∷ domains)

dark-verdict :
    (cutoff : Instant) (rows : List SendRow)
    → is_dark (verdict cutoff rows) ≡ goes_unanswered cutoff rows
unfolding verdict
dark-verdict cutoff rows = ground arith

-- The status is a failure exactly when some recent dispatch in the log is of a domain that goes
-- unanswered: one of the domain's dispatches is older than a day, has no event, and is later than every
-- event of the domain.
pub get_sending_feedback_status-ok :
    (log : List SendRow) (now : Instant)
    → let rows = logged_dispatches (feedback_lookback_floor now) log in
      (get_sending_feedback_status log now).ok
      ≡ not (
          any
            (λ r. goes_unanswered (feedback_maturity_cutoff now) (group_of (sending_domain r) rows))
            rows)
unfolding get_sending_feedback_status summarize_sending_feedback read_sender_feedback_observations
get_sending_feedback_status-ok log now =
    let cutoff = feedback_maturity_cutoff now in
    let rows : List SendRow = logged_dispatches (feedback_lookback_floor now) log in
    let goes : Text → Bool = λ domain. goes_unanswered cutoff (group_of domain rows) in
    let observe : Text → SenderFeedbackObservation =
      λ domain. observation_of domain cutoff (group_of domain rows) in
    summary-ok (map status_of (map observe (domains_of rows)))
    ∙ ap not (
        any-map is_dark_status status_of (map observe (domains_of rows))
        ∙ any-map (λ o. is_dark (classify_feedback_liveness o)) observe (domains_of rows)
        ∙ any-same (λ domain. is_dark (classify_feedback_liveness (observe domain))) goes
            (domains_of rows)
            (λ domain.
              ap is_dark (classify-verdict domain cutoff (group_of domain rows))
              ∙ dark-verdict cutoff (group_of domain rows))
        ∙ any-domains_of goes rows)
