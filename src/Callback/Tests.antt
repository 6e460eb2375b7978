-- ===== src/Callback/Tests.antt =====
-- A payload and its echo, and the theorem about them at concrete rows.
use yalia_sii.Prelude.{Option, List, map, true, In, inl}
use yalia_sii.Json.{Json, get}
use yalia_sii.Samples.{stored}
use yalia_sii.Prelude.{◌≡◌, refl, [], ◌∷◌, none, some}
use yalia_sii.Json.{str, arr, obj, nil, cons, end, field, get}
use yalia_sii.Template.{WriteConfig}
use yalia_sii.Samples.{plain, invoices, invoice, stored, grouped_write}
use yalia_sii.Payload.{PayloadRow, payload_of, camel}
use yalia_sii.Callback.{map_vendor_result, refs_of, text_field}
use yalia_sii.Rows.{TableRow, HasKey, is_correcto}
use yalia_sii.Callback.Apply.{
  process, apply_line_items, apply_batch_items, apply_error_fields, by_row, by_batch, matched_rows,
}
use yalia_sii.Callback.Final.{process-accepted}
use yalia_sii.Callback.RoundTrip.{map_vendor_result-payload_of}

abbrev first : PayloadRow
first = record { id = "a"; fields = invoice "1" "1" "x" }

-- A row with lines of its own, which name a reference.
abbrev second : PayloadRow
second = record {
  id = "b";
  fields = ("tax_lines", arr (cons (obj (field "internal_ref" (str "c") end)) nil)) ∷ [];
}

abbrev collapsed_write : WriteConfig
collapsed_write = record grouped_write {
  batch = some (record {
    group_by = "nif" ∷ [];
    max_batch_size = none;
    max_records_per_poll = none;
    collapse = some none;
  });
}

camel_run : camel "internal_ref" ≡ "internalRef"
unfolding camel
camel_run = refl

map_vendor_result-payload_of_example :
    refs_of
      (map_vendor_result plain
        (payload_of invoices collapsed_write (first ∷ second ∷ []) "batch")).line_items
    ≡ "a" ∷ "b" ∷ []
map_vendor_result-payload_of_example =
    map_vendor_result-payload_of plain invoices collapsed_write first (second ∷ []) "batch" refl

-- An answer for an accepted row and for a pending one.
abbrev answer : Json
answer = arr (
    cons (obj (field "internal_ref" (str "a") (field "state" (str "ERROR") end)))
      (cons (obj (field "internal_ref" (str "b") (field "state" (str "ERROR") end))) nil))

abbrev done_row : TableRow
done_row = stored "a" (some "correcto") none (invoice "1" "1" "x")

abbrev table : List TableRow
table = done_row ∷ stored "b" (some "pending") none (invoice "2" "1" "x") ∷ []

abbrev rows_of : Option (List TableRow) → List TableRow
rows_of none = []
rows_of (some rows) = rows

abbrev written : Option (List TableRow)
written = process plain (λ s. some s) (λ k. some invoices) answer table

written_run :
    map (λ (r : TableRow). r.submission_status) (rows_of written)
    ≡ some "correcto" ∷ some "ERROR" ∷ []
unfolding process apply_line_items apply_batch_items apply_error_fields by_row by_batch matched_rows
    map_vendor_result text_field get is_correcto
written_run = refl

written-rows : written ≡ some (rows_of written)
unfolding process apply_line_items apply_batch_items apply_error_fields by_row by_batch matched_rows
    map_vendor_result text_field get is_correcto
written-rows = refl

table-HasKey : HasKey table
table-HasKey = (refl, (refl, tt))

is_done : is_correcto done_row.submission_status ≡ true
unfolding is_correcto
is_done = refl

process-accepted_example : In done_row (rows_of written)
process-accepted_example =
    process-accepted plain (λ s. some s) (λ k. some invoices) answer table (rows_of written)
      done_row table-HasKey written-rows (inl refl) is_done
