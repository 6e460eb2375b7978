-- ===== src/Deletes/Tests.antt =====
-- Deletions from a concrete table, and the theorems about them.
use yalia_sii.Prelude.{
  ℕ, String, ◌≡◌, refl, true, not, inl, inr, none, some, List, [], ◌∷◌, map, keep, length, ◌&&◌,
  any, has, In, arith,
}
use yalia_sii.Rows.{TableRow}
use yalia_sii.Sql.{is_table_key, is_column_key}
use yalia_sii.Json.{text_at}
use yalia_sii.Template.{group_by_of}
use yalia_sii.Samples.{plain, invoices, invoice, stored, engine, open_gate}
use yalia_sii.Filters.{
  apply_filters, apply_each, apply_filter, range_match, column_filter, bound_conditions,
  is_filterable, column_of, test_all, test,
}
use yalia_sii.Deletes.{
  Store, DatasetDeleteParams, in_scope, is_grouped, group_ids, with_group_expansion, matching,
  delete_filtered, delete_where, delete_rows, uncontrolled_deletes, reset_delete_baseline,
}
use yalia_sii.Deletes.Outward.{replace_id, propagate_external_deletes}
use yalia_sii.Deletes.Ledger.{
  Accounted, Tells, delete_rows-Accounted, Deletion, delete_history, delete_history-controlled,
}
use yalia_sii.Deletes.Missing.{
  Missing, holds_id, unique, find_missing_ids, find_missing_ids-exact, search_ids,
}
use yalia_sii.Deletes.Unfiltered.{IsUnknown, delete_rows-unfiltered}
use yalia_sii.Deletes.Whole.{delete_rows-whole}

abbrev in_group : String → TableRow → TableRow
in_group g r = record r { group_id = some g }

abbrev a : TableRow
a = in_group "x" (stored "a" none none (invoice "1" "1" "x"))

abbrev b : TableRow
b = in_group "x" (stored "b" none none (invoice "2" "1" "x"))

abbrev c : TableRow
c = in_group "y" (stored "c" none none (invoice "3" "1" "y"))

abbrev start : Store
start = record {
  db = record { rows = a ∷ b ∷ c ∷ []; outbox = []; runs = []; calls = []; drawn = 0; step = 0 };
  events = [];
  n_tup_del = 4;
}

abbrev by_filter : String → String → DatasetDeleteParams
by_filter k v = record {
  connection_id = "c1";
  ids = [];
  older_than_days = none;
  filters = (k, v) ∷ [];
}

-- One row of a group is named, and both go.
delete_run :
    map
      (λ (r : TableRow). r.id)
      (delete_rows plain engine open_gate
        (λ s. s)
        (λ k. true)
        7
        invoices
        (by_filter "id" "1")
        start).0.db.rows
    ≡ "c" ∷ []
unfolding delete_rows delete_filtered delete_where matching test_all test with_group_expansion
    is_grouped group_ids apply_filters apply_each apply_filter range_match column_filter
    bound_conditions is_filterable column_of group_by_of text_at propagate_external_deletes
delete_run = refl

replace_run : replace_id "7" "/invoices/{id}/void" ≡ "/invoices/7/void"
unfolding replace_id
replace_run = refl

delete_rows-whole_example :
    In b
      (delete_rows plain engine open_gate
        (λ s. s)
        (λ k. true)
        7
        invoices
        (by_filter "id" "3")
        start).0.db.rows
unfolding is_grouped delete_rows delete_filtered delete_where matching test_all test
    with_group_expansion group_ids apply_filters apply_each apply_filter range_match column_filter
    bound_conditions is_filterable column_of group_by_of text_at propagate_external_deletes
delete_rows-whole_example =
    delete_rows-whole plain engine open_gate (λ s. s) (λ k. true) 7 invoices (by_filter "id" "3")
      start "x" a b refl (inr (inl refl)) refl refl refl (inl refl)

delete_rows-Accounted_example :
    let out =
      delete_rows plain engine open_gate
        (λ s. s)
        (λ k. true)
        7
        invoices
        (by_filter "id" "1")
        start in
    (n : ℕ) × Accounted start out.0 n × Tells out.1 n
delete_rows-Accounted_example =
    delete_rows-Accounted plain engine open_gate (λ s. s) (λ k. true) (λ k. refl) 7 invoices
      (by_filter "id" "1") start

-- Two deletions, at different times and on different tables.
abbrev history : List Deletion
history =
    record { at = 8; template = invoices; params = by_filter "id" "1" }
    ∷ record { at = 9; template = record invoices { key = "orders" }; params = by_filter "nif" "y" }
    ∷ []

delete_history-controlled_example :
    uncontrolled_deletes (
      delete_history plain engine open_gate
        (λ s. s)
        (λ k. true)
        (λ k. refl)
        history
        (reset_delete_baseline 7 start))
    ≡ 0
delete_history-controlled_example =
    delete_history-controlled plain engine open_gate (λ s. s) (λ k. true) (λ k. refl) 7 history
      start

IsUnknown-customer : IsUnknown invoices "customer"
unfolding is_filterable range_match
IsUnknown-customer = record {
  not_filterable = refl;
  not_range = refl;
  not_write_status = refl;
  not_submission_status = refl;
  not_updated_from = refl;
  not_updated_until = refl;
}

delete_rows-unfiltered_example :
    (delete_rows plain engine open_gate
      (λ s. s)
      (λ k. true)
      7
      invoices
      (by_filter "customer" "v")
      start).0.db.rows
    ≡ keep (λ r. not (in_scope invoices "c1" r)) start.db.rows
delete_rows-unfiltered_example =
    delete_rows-unfiltered plain engine open_gate (λ s. s) (λ k. true) 7 invoices "c1" "customer"
      "v" start IsUnknown-customer refl

abbrev found : Missing
found = search_ids plain invoices "c1" ("9" ∷ "1" ∷ []) start.db.rows []

abbrev asked : List String
asked = "9" ∷ "1" ∷ "9" ∷ []

find_missing_ids-exact_example :
    ((x : String)
      → has x found.missing_ids
        ≡ (has x asked && not (any (holds_id plain invoices "c1" x) start.db.rows)))
    × (found.checked_count ≡ length (unique asked))
unfolding find_missing_ids unique is_table_key is_column_key
find_missing_ids-exact_example =
    find_missing_ids-exact plain invoices "c1" asked start.db.rows [] found (omega arith) refl
