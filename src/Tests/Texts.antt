-- ===== src/Tests/Texts.antt =====
-- Templates and recipient policies at concrete inputs.
use reccado.Payload.{transactional_payload_hash}
use reccado.Payload.Order.{Reordered, transactional_payload_hash-Reordered}
use reccado.Tests.{platform}
use reccado.Template.{or_empty}
use reccado.Prelude.{◌≡◌, ◌≢◌, ◌↔◌, ◌⊎◌, refl, arith, true, none, some, [], ◌∷◌, All}
use reccado.Text.{split, Text, ascii, trim, to_lower, contains}
use reccado.Template.{
  Template, Variables, Interpolated, validate_template_variables, interpolate_template,
  interpolate_html, escape_html, tokens, names_of, keys, lookup, max_subject_length,
  max_body_length,
}
use reccado.Template.Validation.{mentions, validate_iff}
use reccado.Template.Markup.{markup, markup-interpolate_html, literals}
use reccado.Policy.{
  PolicyCheck, check_recipient_policy, deny_rules, allow_rules, test_regex, parse_regex,
  replace_star, escape_regex,
}
use reccado.Policy.Rules.{undenied, second_at, not_a_rule, validate_recipient_policy}
use reccado.Policy.Usable.{IsUsable, validate_recipient_policy-IsUsable}
use reccado.Policy.Decision.{AcceptedBySome, check_recipient_policy_iff}

abbrev hi : Template
hi = record {
  id = ascii "hi";
  subject = ascii "Hi {{name}}";
  body_text = none;
  body_html = some (ascii "<b>{{name}}</b>");
}

abbrev values : Variables
values = (ascii "name", ascii "<i>Bo") ∷ []

abbrev sent : Interpolated
sent = record {
  subject = ascii "Hi <i>Bo";
  body_text = none;
  body_html = some (ascii "<b>&lt;i&gt;Bo</b>");
}

values_pass : (validate_template_variables hi values).ok ≡ true
unfolding reccado.Template.validate_template_variables
values_pass = refl

hi_is_sent : interpolate_template hi values ≡ some sent
unfolding reccado.Template.has_newline reccado.Template.interpolate
    reccado.Template.interpolate_html reccado.Template.interpolate_template
hi_is_sent = refl

validate_iff_example :
    ((validate_template_variables hi values).ok ≡ true)
    ↔ ((n : Text) → mentions hi n ≡ contains (keys values) n)
validate_iff_example = validate_iff hi values

markup-interpolate_html_example :
    markup (interpolate_html values (ascii "<b>{{name}}</b>"))
    ≡ markup (literals (tokens (ascii "<b>{{name}}</b>")))
markup-interpolate_html_example = markup-interpolate_html values (ascii "<b>{{name}}</b>")

validate_recipient_policy-IsUsable_example :
    All (λ raw. IsUsable (undenied (trim raw))) (split (ascii "@b.io, !x*@c.io") b',')
unfolding reccado.Policy.Rules.validate_recipient_policy
validate_recipient_policy-IsUsable_example =
    validate_recipient_policy-IsUsable (ascii "@b.io, !x*@c.io") refl

-- A second `@` in a domain rule, and a rule without one.
issues_told :
    validate_recipient_policy (ascii "@a@b.io,b.io")
    ≡ record { rule = ascii "@a@b.io"; reason = second_at }
      ∷ record { rule = ascii "b.io"; reason = not_a_rule }
      ∷ []
unfolding reccado.Policy.Rules.validate_recipient_policy
issues_told = refl

check_recipient_policy_iff_example :
    (check_recipient_policy (ascii "Eve@b.io") (some (ascii "@b.io,!eve@b.io"))
      ≡ PolicyCheck.allowed)
    ↔ ((¬ AcceptedBySome
          (to_lower (trim (ascii "Eve@b.io")))
          (deny_rules (ascii "@b.io,!eve@b.io")))
        × ((allow_rules (ascii "@b.io,!eve@b.io") ≡ [])
            ⊎ AcceptedBySome
                (to_lower (trim (ascii "Eve@b.io")))
                (allow_rules (ascii "@b.io,!eve@b.io"))))
check_recipient_policy_iff_example =
    check_recipient_policy_iff (ascii "Eve@b.io") b'@' (ascii "b.io,!eve@b.io")

abbrev greeting : Text × Text
greeting = (ascii "greeting", ascii "Hello")

other_names : ascii "greeting" ≢ ascii "name"
other_names e = ground (arith, e)

transactional_payload_hash-Reordered_example :
    transactional_payload_hash platform (record {
      key_id = ascii "k1";
      client_idempotency_key = ascii "order-1";
      template = ascii "hi";
      to = ascii " Eve@b.io";
      variables = greeting ∷ ((ascii "name", ascii "Bo") ∷ []);
    })
    ≡ transactional_payload_hash platform (record {
      key_id = ascii "k1";
      client_idempotency_key = ascii "order-1";
      template = ascii "hi";
      to = ascii "eve@B.io";
      variables = (ascii "name", ascii "Bo") ∷ (greeting ∷ []);
    })
unfolding reccado.Text.trim reccado.Text.to_lower
transactional_payload_hash-Reordered_example =
    transactional_payload_hash-Reordered platform (ascii "k1") (ascii "order-1") (ascii "hi")
      (ascii " Eve@b.io") (ascii "eve@B.io") (greeting ∷ ((ascii "name", ascii "Bo") ∷ []))
      ((ascii "name", ascii "Bo") ∷ (greeting ∷ []))
      (Reordered.swap greeting (ascii "name", ascii "Bo") [] other_names) refl
