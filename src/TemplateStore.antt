-- ===== src/TemplateStore.antt =====
-- src/do/transactional-send-ops.ts: the templates of a mailbox, and their sync with a caller's list.
pub mod Sync
use reccado.Prelude.{map}
use reccado.Prelude.{
  ℕ, Bool, true, false, ◌&&◌, ◌||◌, not, Option, none, some, List, [], ◌∷◌, ◌++◌, keep, any, leb,
  ltb, length, if◌then◌else◌, update_where, find,
}
use reccado.Text.{Text, ascii, ◌===◌, has_unit, includes, contains}
use reccado.Template.{Template, max_body_length, has_newline, is_empty}
use reccado.ApiKey.{Instant}
use reccado.Mailbox.{Mailbox, TemplateRow, TemplateStatus}

-- `TemplateInput` is the record of a template's content; a missing body is null.
abbrev pub is_template : Text → Text → TemplateRow → Bool
is_template mailbox_id template_id t = t.id === template_id && t.mailbox_id === mailbox_id

-- none where the primary key refuses the INSERT
unfoldable pub create_template : Mailbox → Text → Template → Instant → Option Mailbox
unfolding find ◌===◌
create_template m mailbox_id input now = elim (find (λ t. t.id === input.id) m.templates) [
  | some row ↦ none
  | none ↦ some (record m {
    templates =
        m.templates
        ++ record {
          id = input.id;
          mailbox_id = mailbox_id;
          subject = input.subject;
          body_text = input.body_text;
          body_html = input.body_html;
          status = TemplateStatus.active;
          created_at = now;
          updated_at = now;
        }
          ∷ [];
  })
]

-- The mailbox afterwards, and whether a row was written.
unfoldable pub update_template : Mailbox → Text → Template → Instant → Mailbox × Bool
unfolding update_where any
update_template m mailbox_id input now = (
  record m {
    templates =
        update_where (is_template mailbox_id input.id)
          (λ t. record t {
            subject = input.subject;
            body_text = input.body_text;
            body_html = input.body_html;
            updated_at = now;
          })
          m.templates;
  },
  any (is_template mailbox_id input.id) m.templates,
)

unfoldable pub archive_template : Mailbox → Text → Text → Instant → Mailbox × Bool
unfolding update_where any
archive_template m mailbox_id template_id now = (
  record m {
    templates =
        update_where (is_template mailbox_id template_id)
          (λ t. record t { status = TemplateStatus.archived; updated_at = now }) m.templates;
  },
  any (is_template mailbox_id template_id) m.templates,
)

abbrev pub is_active : TemplateRow → Bool
is_active t = elim t.status [ TemplateStatus.active ↦ true | TemplateStatus.archived ↦ false ]

-- Newest first.
unfoldable pub insert_template : TemplateRow → List TemplateRow → List TemplateRow
insert_template t [] = t ∷ []
insert_template t (u ∷ rows) =
    let rest = insert_template t rows in
    if leb u.updated_at t.updated_at then t ∷ (u ∷ rows) else u ∷ rest

unfoldable pub newest_templates : List TemplateRow → List TemplateRow
unfolding insert_template
newest_templates [] = []
newest_templates (t ∷ rows) = insert_template t (newest_templates rows)

unfoldable pub list_templates : Mailbox → Text → List TemplateRow
unfolding keep ◌===◌
list_templates m mailbox_id =
    newest_templates (keep (λ t. t.mailbox_id === mailbox_id && is_active t) m.templates)

pub data TemplateProblem : Type 0 where
  id_and_subject_required invalid_template_id subject_contains_newline : TemplateProblem
  body_text_too_long body_html_too_long : TemplateProblem

abbrev pub is_too_long : Option Text → Bool
is_too_long none = false
is_too_long (some body) = ltb max_body_length (length body)

unfoldable pub template_input_problem : Template → Option TemplateProblem
unfolding includes has_unit has_newline
template_input_problem input =
    if is_empty input.id || is_empty input.subject
    then some id_and_subject_required
    else if includes input.id (ascii "..") || has_unit input.id b'/' || has_unit input.id b'\\'
    then some invalid_template_id
    else if has_newline input.subject
    then some subject_contains_newline
    else if is_too_long input.body_text
    then some body_text_too_long
    else if is_too_long input.body_html
    then some body_html_too_long
    else none

pub data SyncOutcome : Type 0 where
  created updated unchanged already_archived missing_from_sync : SyncOutcome

pub data SyncProblem : Type 0 where
  too_many_templates : SyncProblem
  bad_template : TemplateProblem → SyncProblem
  duplicate_template_id : SyncProblem

abbrev pub max_template_sync_batch : ℕ
max_template_sync_batch = 100

-- The loop over the batch that comes before all writes.
unfoldable pub batch_problem : List Text → List Template → Option SyncProblem
unfolding contains
batch_problem seen [] = none
batch_problem seen (t ∷ batch) =
    let rest = batch_problem (t.id ∷ seen) batch in
    elim (template_input_problem t) [
      | some problem ↦ some (bad_template problem)
      | none ↦ if contains seen t.id then some duplicate_template_id else rest
    ]

abbrev pub same_body : Option Text → Option Text → Bool
same_body none none = true
same_body (some a) (some b) = a === b
same_body _ _ = false

abbrev pub is_identical : TemplateRow → Template → Bool
is_identical row desired =
    row.subject === desired.subject
    && (same_body row.body_text desired.body_text && same_body row.body_html desired.body_html)

-- One entry, beside the rows read before the writes; none where an INSERT throws.
unfoldable pub sync_one :
    Text → List TemplateRow → Template → Instant → Mailbox → Option (Mailbox × SyncOutcome)
unfolding find ◌===◌
sync_one mailbox_id existing t now m = elim (find (λ row. row.id === t.id) existing) [
  | none ↦ elim (create_template m mailbox_id t now) [
    | none ↦ none
    | some after ↦ some (after, created)
  ]
  | some row ↦
      if not (is_active row)
      then some (m, already_archived)
      else if is_identical row t
      then some (m, unchanged)
      else some ((update_template m mailbox_id t now).0, updated)
]

unfoldable pub sync_each :
    Text
    → List TemplateRow
    → List Template
    → Instant
    → Mailbox
    → Option (Mailbox × List (Text × SyncOutcome))
sync_each mailbox_id existing [] now m = some (m, [])
sync_each mailbox_id existing (t ∷ batch) now m = elim (sync_one mailbox_id existing t now m) [
  | none ↦ none
  | some (after, outcome) ↦ elim (sync_each mailbox_id existing batch now after) [
    | none ↦ none
    | some (last, outcomes) ↦ some (last, (t.id, outcome) ∷ outcomes)
  ]
]

-- The second loop of the transaction.
unfoldable pub archive_missing :
    Text → List Text → List TemplateRow → Instant → Mailbox → Mailbox × List (Text × SyncOutcome)
unfolding contains
archive_missing mailbox_id seen [] now m = (m, [])
archive_missing mailbox_id seen (row ∷ existing) now m =
    if is_active row && not (contains seen row.id)
    then (let (last, outcomes) =
          archive_missing mailbox_id seen existing now
            (archive_template m mailbox_id row.id now).0 in
        (last, (row.id, missing_from_sync) ∷ outcomes))
    else archive_missing mailbox_id seen existing now m

pub data Synced : Type 0 where
  synced : List (Text × SyncOutcome) → Synced
  refused : SyncProblem → Synced
  constraint_failed : Synced

-- The transaction: nothing is kept where an INSERT throws.
unfoldable pub sync_all : Mailbox → Text → List Template → Bool → Instant → Mailbox × Synced
unfolding keep ◌===◌
sync_all m mailbox_id batch archive now =
    let existing = keep (λ t. t.mailbox_id === mailbox_id) m.templates in
    elim (sync_each mailbox_id existing batch now m) [
      | none ↦ (m, constraint_failed)
      | some (after, outcomes) ↦
          if archive
          then (let (last, more) =
                archive_missing mailbox_id (map (λ t. t.id) batch) existing now after in
              (last, synced (outcomes ++ more)))
          else (after, synced outcomes)
    ]

-- `syncTemplates`, for entries of the right shape
unfoldable pub sync_templates : Mailbox → Text → List Template → Bool → Instant → Mailbox × Synced
sync_templates m mailbox_id batch archive now =
    if ltb max_template_sync_batch (length batch)
    then (m, refused too_many_templates)
    else elim (batch_problem [] batch) [
      | some problem ↦ (m, refused problem)
      | none ↦ sync_all m mailbox_id batch archive now
    ]
