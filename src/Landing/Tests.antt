-- ===== src/Landing/Tests.antt =====
-- Events for a concrete table, and the theorem about them.
use yalia_sii.Prelude.{String, true, ◌≡◌, refl, Option, none, some, [], ◌∷◌}
use yalia_sii.Sql.{is_uuid, is_table_key, is_column_key}
use yalia_sii.Json.{Json, str, arr, obj, get, from_items, from_entries, text_at, string_of}
use yalia_sii.Template.{id_fields_of, group_by_of}
use yalia_sii.Rows.{accepted, is_correcto}
use yalia_sii.Samples.{plain, invoices, invoice, before, strokes-Injective, is_new, before-HasKey}
use yalia_sii.Loads.{mark_queued, build_group_id_sql}
use yalia_sii.Ingest.{
  recency_of, key_of, put_newest, split_rows, sort_by_key, chunks, upsert_row, upsert_chunks,
  append_chunks, new_row, conflicts, may_update, tally,
}
use yalia_sii.Ingest.Transaction.{ingest, has_safe_names}
use yalia_sii.Connections.{Vault, exists}
use yalia_sii.Landing.{
  OperationContext, OperationResult, err, landed, unknown_connection, missing_table_key, Executed,
  execute, extract_rows, records_of, single_row, property_of, seal_of_event, as_string,
  table_key_of, failed_with, land, land_rows, execute_on,
}
use yalia_sii.Landing.Safe.{is_error, execute-IsSafe}

abbrev place : String
place = "0a1b2c3d-0000-4000-8000-00000000000f"

abbrev vault : Vault
vault = record {
  connections =
      record {
        id = place;
        name = "A";
        clave = "";
        write_cron_interval_sec = none;
        concurrency = none;
        base_url = "https://a";
        credentials_encrypted = "";
        default_headers = [];
        handshake = none;
        active = true;
        sii_callback_secret_encrypted = "";
      }
      ∷ [];
  drawn = 0;
}

abbrev to : String → OperationContext
to conn = record {
  trace_id = "trace";
  connection_id = conn;
  params = some (("tableKey", str "invoices") ∷ []);
  load_meta = none;
}

abbrev payload : Json
payload = arr (
    from_items
      (obj (from_entries (invoice "1" "2" "x")) ∷ obj (from_entries (invoice "3" "2" "y")) ∷ []))

abbrev executed : String → Option Executed
executed conn = execute plain 7 (invoices ∷ []) payload (to conn) vault before 3

abbrev result_of : Option Executed → Option OperationResult
result_of none = none
result_of (some x) = some x.result

running : Unit {0}
unfolding execute execute_on land_rows land failed_with table_key_of as_string seal_of_event
    extract_rows new_row records_of property_of exists is_uuid ingest recency_of key_of split_rows
    sort_by_key chunks upsert_row upsert_chunks append_chunks conflicts may_update mark_queued
    build_group_id_sql group_by_of id_fields_of is_column_key is_table_key text_at has_safe_names
    put_newest string_of is_correcto tally
running = tt

executed_run :
    result_of (executed place)
    ≡ some (landed (record { inserted = 2; upserted = 0; skipped_stale = 0 }))
unfolding running
executed_run = refl

unknown_run : result_of (executed "c1") ≡ some (err unknown_connection)
unfolding running
unknown_run = refl

single_run : extract_rows (obj (from_entries (("tableKey", str "t") ∷ []))) ≡ some []
unfolding extract_rows property_of single_row get
single_run = refl

abbrev after : Executed
after = elim (executed place) [
  | none ↦ record { result = err missing_table_key; store = before; drawn = 3 }
  | some x ↦ x
]

executed-after : executed place ≡ some after
unfolding running
executed-after = refl

execute-IsSafe_example :
    (accepted after.store.rows ≡ accepted before.rows)
    × (is_error after.result ≡ true → after.store ≡ before)
execute-IsSafe_example =
    execute-IsSafe plain 7 (invoices ∷ []) payload (to place) vault before 3 after strokes-Injective
      before-HasKey is_new executed-after
