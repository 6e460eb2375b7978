-- ===== src/Callback/Apply.antt =====
-- src/callbacks/sii-result.processor.ts: the results of a callback, written to the rows. Of several
-- results for one row the UPDATE takes one that is not specified, here the first.
use yalia_sii.Prelude.{
  String, Bool, ◌&&◌, ◌||◌, Option, none, some, List, [], ◌∷◌, ◌++◌, map, ◌==◌, if◌then◌else◌, any,
  all, find, is_empty, is_some, is_text, ◌>>=◌,
}
use yalia_sii.Json.{Json, str, obj, Object, Platform, from_entries, merge}
use yalia_sii.Template.{TableTemplate, TableColumnDef}
use yalia_sii.Rows.{TableRow, is_correcto}
use yalia_sii.Callback.{VendorResult, map_vendor_result}

pub record Matched : Type 0 where
  pub id : String
  pub table_key : String
  pub error_code : Option String
  pub error_message : Option String

-- `SET submission_status = v.submission_status, sii_response = v.raw`
unfoldable pub set_result : VendorResult → TableRow → TableRow
set_result v r = record r {
  submission_status = some v.submission_status;
  sii_response = some (obj (from_entries v.raw));
}

-- The result that a row is joined with, none where there is none or the row is accepted.
abbrev pub joined : (TableRow → Option VendorResult) → TableRow → Option VendorResult
joined pick r = if is_correcto r.submission_status then none else pick r

abbrev pub apply_one : (TableRow → Option VendorResult) → TableRow → TableRow
apply_one pick r = elim (joined pick r) [ none ↦ r | some v ↦ set_result v r ]

-- The last of the results with that reference: `new Map(items.map(…)).get(ref)`.
unfoldable pub last_of : String → List VendorResult → Option VendorResult
last_of ref [] = none
last_of ref (v ∷ vs) = elim (last_of ref vs) [
  | some w ↦ some w
  | none ↦ if v.ref == ref then some v else none
]

abbrev code_of : Option VendorResult → Option String
code_of none = none
code_of (some v) = v.error_code

abbrev message_of : Option VendorResult → Option String
message_of none = none
message_of (some v) = v.error_message

-- `RETURNING`, and the errors that `ref` finds for a row.
unfoldable pub matched_rows :
    (TableRow → Option VendorResult)
    → (TableRow → String)
    → List VendorResult
    → List TableRow
    → List Matched
unfolding last_of
matched_rows pick ref items [] = []
matched_rows pick ref items (r ∷ rows) = elim (joined pick r) [
  | none ↦ matched_rows pick ref items rows
  | some v ↦
      record {
        id = r.id;
        table_key = r.table_key;
        error_code = code_of (last_of (ref r) items);
        error_message = message_of (last_of (ref r) items);
      }
      ∷ matched_rows pick ref items rows
]

-- `v.internal_ref = t.id` with the cast, and `t.batch_id = v.batch_ref`.
unfoldable pub by_row :
    (String → Option String) → List VendorResult → TableRow → Option VendorResult
by_row as_uuid items r = find (λ v. is_text (as_uuid v.ref) r.id) items

unfoldable pub by_batch : List VendorResult → TableRow → Option VendorResult
by_batch items r = find (λ v. is_text r.batch_id v.ref) items

abbrev pub batch_ref : TableRow → String
batch_ref r = elim r.batch_id [ none ↦ "" | some b ↦ b ]

-- The template's columns `error_code` and `error_message`, as far as the result has them.
unfoldable pub patch_of : TableTemplate → Matched → Object
patch_of t m =
    (elim m.error_code [
      | none ↦ []
      | some c ↦
          if any (λ (d : TableColumnDef). d.key == "error_code") t.columns
          then ("error_code", str c) ∷ []
          else []
    ])
    ++ (elim m.error_message [
      | none ↦ []
      | some c ↦
          if any (λ (d : TableColumnDef). d.key == "error_message") t.columns
          then ("error_message", str c) ∷ []
          else []
    ])

abbrev pub has_error : Matched → Bool
has_error m = is_some m.error_code || is_some m.error_message

-- `data = t.data || v.patch`, for the rows named.
unfoldable pub apply_error_fields :
    (String → Option TableTemplate) → List Matched → List TableRow → List TableRow
unfolding patch_of
apply_error_fields templates matched = map (λ r.
    elim (find (λ (m : Matched). m.id == r.id && has_error m) matched) [
      | none ↦ r
      | some m ↦ elim (templates m.table_key) [
        | none ↦ r
        | some t ↦ record r { row_data = merge r.row_data (patch_of t m) }
      ]
    ])

module _ (host : Platform) (as_uuid : String → Option String)
    (templates : String → Option TableTemplate) where
  unfoldable pub apply_line_items :
      List VendorResult → List TableRow → Option (List TableRow × List Matched)
  unfolding by_row matched_rows set_result
  apply_line_items items rows =
      if all (λ v. is_some (as_uuid v.ref)) items
      then some (
        map (apply_one (by_row as_uuid items)) rows,
        matched_rows (by_row as_uuid items) (λ r. r.id) items rows,
      )
      else none

  unfoldable pub apply_batch_items :
      List VendorResult → List TableRow → List TableRow × List Matched
  unfolding by_batch matched_rows set_result
  apply_batch_items items rows =
      (map (apply_one (by_batch items)) rows, matched_rows (by_batch items) batch_ref items rows)

  -- The job: none where the cast of a reference throws, before anything is written.
  unfoldable pub process : Json → List TableRow → Option (List TableRow)
  unfolding apply_line_items apply_batch_items apply_error_fields
  process payload rows =
      let mapped = map_vendor_result host payload in
      if is_empty mapped.line_items && is_empty mapped.batch_items
      then some rows
      else apply_line_items mapped.line_items rows >>= λ (after, matched).
          (let (last, more) = apply_batch_items mapped.batch_items after in
            some (apply_error_fields templates (matched ++ more) last))
