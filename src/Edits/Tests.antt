-- ===== src/Edits/Tests.antt =====
-- An edit of a concrete row, and the theorem about it.
use yalia_sii.Prelude.{String, ◌≡◌, refl, none, some, List, [], ◌∷◌, map, true, all, subst}
use mathlib.Core.Option.{some-injective}
use yalia_sii.Template.{group_by_of}
use yalia_sii.Sql.{is_uuid, is_column_key}
use yalia_sii.Rows.{TableRow, is_correcto}
use yalia_sii.Loads.{build_group_id_sql, requeue, mark_queued}
use yalia_sii.Loads.Marking.{HasSafeKeys}
use yalia_sii.Rules.{resolve_write_rule}
use yalia_sii.Samples.{plain, grouped_write, invoices, invoice, stored}
use yalia_sii.Edits.{may_edit, can_edit, queue_edited, update_and_write}
use yalia_sii.Edits.Outcome.{EditOutcome, update_and_write-EditOutcome}

abbrev first : String
first = "0a1b2c3d-0000-4000-8000-00000000000f"

abbrev second : String
second = "0A1B2C3D-0000-4000-8000-00000000000E"

abbrev table : List TableRow
table =
    stored first (some "error") none (invoice "A" "1" "n")
    ∷ stored second (some "Correcto") none (invoice "B" "1" "n")
    ∷ []

edit_run :
    map
      (λ r. r.submission_status)
      (update_and_write plain invoices "c1" first (invoice "A" "2" "n") table).0
    ≡ some "revisado" ∷ some "Correcto" ∷ []
unfolding update_and_write may_edit can_edit is_uuid is_correcto resolve_write_rule queue_edited
    mark_queued build_group_id_sql requeue group_by_of is_column_key
edit_run = refl

invoices_safe : HasSafeKeys invoices
unfolding is_column_key group_by_of
invoices_safe w e =
    subst (λ v. all is_column_key (group_by_of v) ≡ true) (some-injective grouped_write w e) refl

update_and_write-EditOutcome_example :
    EditOutcome plain invoices "c1" first
      (invoice "A" "2" "n")
      table
      (update_and_write plain invoices "c1" first (invoice "A" "2" "n") table).0
      (update_and_write plain invoices "c1" first (invoice "A" "2" "n") table).1
update_and_write-EditOutcome_example =
    update_and_write-EditOutcome plain invoices "c1" first (invoice "A" "2" "n") table invoices_safe
      (refl, (refl, tt))
