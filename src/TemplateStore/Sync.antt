-- ===== src/TemplateStore/Sync.antt =====
-- src/do/transactional-send-ops.ts: what `syncTemplates` has checked when it writes.
use reccado.Prelude.{keep, ◌++◌, ◌⊎◌, ◌++◌}
use reccado.TemplateStore.{sync_each, archive_missing}
use reccado.Prelude.{
  ◌≡◌, refl, ap, ◌≤◌, Bool, false, none, List, [], ◌∷◌, length, map, arith, inl, inr, Bool-cases,
  Option-cases, ltb,
}
use reccado.Text.{Text, ◌===◌, contains}
use reccado.Template.{Template}
use reccado.ApiKey.{Instant}
use reccado.Mailbox.{Mailbox}
use reccado.TemplateStore.{
  synced, constraint_failed, SyncOutcome, template_input_problem, batch_problem, sync_all,
  sync_templates, max_template_sync_batch,
}

-- Each template of a batch can be stored, and no id comes twice.
pub data IsSound : List Text → List Template → Type 0 where
  stop : {seen : List Text} → IsSound seen []
  next :
      {seen : List Text} (t : Template) (batch : List Template)
      → template_input_problem t ≡ none
      → contains seen t.id ≡ false
      → IsSound (t.id ∷ seen) batch
      → IsSound seen (t ∷ batch)

batch-IsSound :
    (seen : List Text) (batch : List Template)
    → batch_problem seen batch ≡ none
    → IsSound seen batch
unfolding batch_problem
batch-IsSound seen [] h = stop
batch-IsSound seen (t ∷ batch) h =
    next t batch (ground arith) (ground arith) (batch-IsSound (t.id ∷ seen) batch (ground arith))

sync_all_cases :
    (m : Mailbox) (mailbox_id : Text) (batch : List Template) (archive : Bool) (now : Instant)
    → ((outcomes : List (Text × SyncOutcome)) × ((sync_all m mailbox_id batch archive now).1
          ≡ synced outcomes))
      ⊎ (sync_all m mailbox_id batch archive now ≡ (m, constraint_failed))
unfolding sync_all
sync_all_cases m mailbox_id batch archive now =
    let existing = keep (λ t. t.mailbox_id === mailbox_id) m.templates in
    elim (Option-cases (sync_each mailbox_id existing batch now m)) [
      | inl e ↦ inr (rw (e, sync_all) refl)
      | inr (r, e) ↦ elim (Bool-cases archive) [
        | inl a ↦ inl (
          r.1 ++ (archive_missing mailbox_id (map (λ t. t.id) batch) existing now r.0).1,
          rw (e, sync_all, a) refl,
        )
        | inr a ↦ inl (r.1, rw (e, sync_all, a) refl)
      ]
    ]

-- A sync either reports an outcome for a batch of at most 100 templates that can all be stored, no id
-- twice, or it leaves the mailbox as it is.
pub sync_templates-atomic :
    (m : Mailbox) (mailbox_id : Text) (batch : List Template) (archive : Bool) (now : Instant)
    → ((outcomes : List (Text × SyncOutcome)) × ((sync_templates m mailbox_id batch archive now).1
          ≡ synced outcomes)
        × (length batch ≤ max_template_sync_batch)
        × IsSound [] batch)
      ⊎ ((sync_templates m mailbox_id batch archive now).0 ≡ m)
unfolding sync_templates
sync_templates-atomic m mailbox_id batch archive now =
    elim (Bool-cases (ltb max_template_sync_batch (length batch))) [
      | inl h ↦ inr (rw h refl)
      | inr h ↦ elim (Option-cases (batch_problem [] batch)) [
        | inr (problem, e) ↦ inr (rw (h, e) refl)
        | inl e ↦ elim (sync_all_cases m mailbox_id batch archive now) [
          | inr f ↦ inr (rw (h, e) (ap (λ x. x.0) f))
          | inl (outcomes, f) ↦ inl (outcomes, rw (h, e) f, ground arith, batch-IsSound [] batch e)
        ]
      ]
    ]
