-- ===== src/Payload/Order.antt =====
-- src/lib/transactional-send.ts: the order of the variables in `transactionalPayloadHash`.
use reccado.ApiKey.{Platform}
use reccado.Text.{trim, to_lower}
use reccado.Prelude.{◌≡◌, ◌≢◌, refl, ap, ◌∙◌, true, false, [], ◌∷◌, arith}
use reccado.Text.{Text}
use reccado.Template.{Variables}
use reccado.Payload.{
  text_le, insert_variable, sort_variables, canonical_payload, transactional_payload_hash,
}

text_le_total : (s t : Text) → text_le s t ≡ false → text_le t s ≡ true
unfolding text_le
text_le_total [] t h = ground arith
text_le_total (a ∷ s) [] h = refl
text_le_total (a ∷ s) (b ∷ t) h = ground (arith, text_le_total s t)

text_le_antisym : (s t : Text) → text_le s t ≡ true → text_le t s ≡ true → s ≡ t
unfolding text_le
text_le_antisym [] [] h k = refl
text_le_antisym [] (b ∷ t) h k = ground arith
text_le_antisym (a ∷ s) [] h k = ground arith
text_le_antisym (a ∷ s) (b ∷ t) h k = ground (arith, text_le_antisym s t)

text_le_trans : (s t u : Text) → text_le s t ≡ true → text_le t u ≡ true → text_le s u ≡ true
unfolding text_le
text_le_trans [] t u h k = refl
text_le_trans (a ∷ s) [] u h k = ground arith
text_le_trans (a ∷ s) (b ∷ t) [] h k = ground arith
text_le_trans (a ∷ s) (b ∷ t) (c ∷ u) h k = ground (arith, text_le_trans s t u)

insert_swap :
    (v w : Text × Text) (vs : Variables)
    → v.0 ≢ w.0
    → insert_variable v (insert_variable w vs) ≡ insert_variable w (insert_variable v vs)
unfolding insert_variable
insert_swap v w [] ne = ground (arith, ne, text_le_total v.0 w.0, text_le_antisym v.0 w.0)
insert_swap v w (x ∷ xs) ne = ground (
  arith,
  ne,
  insert_swap v w xs ne,
  text_le_total v.0 w.0,
  text_le_antisym v.0 w.0,
  text_le_total v.0 x.0,
  text_le_total w.0 x.0,
  text_le_trans v.0 w.0 x.0,
  text_le_trans w.0 v.0 x.0,
)

-- The same variables in another order, in which none has passed another of its name.
pub data Reordered : Variables → Variables → Type 0 where
  stop : Reordered [] []
  keep : (v : Text × Text) {vs ws : Variables} → Reordered vs ws → Reordered (v ∷ vs) (v ∷ ws)
  swap : (v w : Text × Text) (vs : Variables) → v.0 ≢ w.0 → Reordered (v ∷ (w ∷ vs)) (w ∷ (v ∷ vs))
  chain : {us vs ws : Variables} → Reordered us vs → Reordered vs ws → Reordered us ws

sort_variables-Reordered :
    {vs ws : Variables} → Reordered vs ws → sort_variables vs ≡ sort_variables ws
unfolding sort_variables
sort_variables-Reordered stop = refl
sort_variables-Reordered (keep v r) = ap (insert_variable v) (sort_variables-Reordered r)
sort_variables-Reordered (swap v w vs ne) = insert_swap v w (sort_variables vs) ne
sort_variables-Reordered (chain r s) = sort_variables-Reordered r ∙ sort_variables-Reordered s

-- The hash of a payload is the same for the variables in another order, in which none has passed
-- another of its name, and for the recipient's address in another case or with other outer spaces.
pub transactional_payload_hash-Reordered :
    (p : Platform) (k i template to other : Text) (vs ws : Variables)
    → Reordered vs ws
    → to_lower (trim to) ≡ to_lower (trim other)
    → transactional_payload_hash p (record {
      key_id = k;
      client_idempotency_key = i;
      template = template;
      to = to;
      variables = vs;
    })
      ≡ transactional_payload_hash p (record {
        key_id = k;
        client_idempotency_key = i;
        template = template;
        to = other;
        variables = ws;
      })
unfolding transactional_payload_hash canonical_payload
transactional_payload_hash-Reordered p k i template to other vs ws r same =
    rw (sort_variables-Reordered r, same) refl
