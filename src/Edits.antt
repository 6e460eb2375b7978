-- ===== src/Edits.antt =====
-- src/tables/table-rows.service.ts, updateAndWrite: the edit of one row. The edit is saved by a
-- statement of its own before the row is queued, so that it stays where queuing throws; the
-- result is the table and the answer. The answer holds the row's columns, before `flatten`.
pub mod Outcome
mod Tests
use yalia_sii.Prelude.{
  String, Bool, true, false, not, ◌&&◌, ◌||◌, Option, none, some, List, [], ◌∷◌, ◌==◌,
  if◌then◌else◌, is_some, any, find,
}
use yalia_sii.Json.{Object, Platform}
use yalia_sii.Sql.{is_uuid}
use yalia_sii.Template.{TableTemplate, WriteConfig}
use yalia_sii.Rows.{TableRow, is_correcto, update_where}
use yalia_sii.Rules.{resolve_write_rule}
use yalia_sii.Loads.{mark_queued}
use yalia_sii.Http.{Reply, ok, bad_request, not_found, failed}

-- DatasetUpdateResult; `external` is the status of the attempt.
pub record DatasetUpdateResult : Type 0 where
  pub row : TableRow
  pub external : Option String

-- The guards before the save.
unfoldable pub may_edit : TableTemplate → String → String → Bool
may_edit t conn id = is_uuid id && elim t.write [
  | none ↦ true
  | some w ↦ w.editable && is_some (resolve_write_rule w.connections conn)
]

-- `id = … AND table_key = …`, and `connection_id = …` where a connection is named.
abbrev pub names_row : TableTemplate → String → String → TableRow → Bool
names_row t conn id r =
    r.id == id && r.table_key == t.key && (conn == "" || r.connection_id == conn)

-- The condition of the UPDATE: an accepted row is not among its rows.
unfoldable pub can_edit : TableTemplate → String → String → TableRow → Bool
can_edit t conn id r = names_row t conn id r && not (is_correcto r.submission_status)

module _ (host : Platform) (t : TableTemplate) where
  abbrev pub edit : Object → TableRow → TableRow
  edit fields r = record r { row_data = fields }

  -- The answer to an edit that is queued: the reset of two columns of the row as it was saved.
  unfoldable pub queued_result : TableRow → DatasetUpdateResult
  queued_result r = record {
    row = record r { submission_status = some "revisado"; sii_response = none };
    external = some "revisado";
  }

  unfoldable pub queue_edited : TableRow → List TableRow → List TableRow × Reply DatasetUpdateResult
  unfolding queued_result
  queue_edited r rows = elim (mark_queued host t (r.id ∷ []) "revisado" rows) [
    | none ↦ (rows, failed)
    | some queued ↦ (queued, ok (queued_result r))
  ]

  unfoldable pub update_and_write :
      String → String → Object → List TableRow → List TableRow × Reply DatasetUpdateResult
  unfolding may_edit can_edit queue_edited
  update_and_write conn id fields rows =
      if may_edit t conn id
      then elim (find (can_edit t conn id) rows) [
        | none ↦ (rows, if any (names_row t conn id) rows then bad_request else not_found)
        | some r ↦
            let saved = update_where (can_edit t conn id) (edit fields) rows in
            elim t.write [
              | none ↦ (saved, ok (record { row = edit fields r; external = none }))
              | some w ↦ queue_edited (edit fields r) saved
            ]
      ]
      else (rows, bad_request)
