-- ===== src/Landing.antt =====
-- src/tables/ingest-table.operation.ts: the operation by which the hub delivers rows to a table, or
-- the seal of a load.
pub mod Safe
mod Tests
use yalia_sii.Prelude.{
  ℕ, String, Bool, true, false, not, ◌&&◌, Option, none, some, List, [], ◌∷◌, ◌==◌, if◌then◌else◌,
  is_empty, keep, ◌>>=◌,
}
use yalia_sii.Json.{
  Json, null, bool, num, str, arr, obj, Object, Platform, entries, items, get, string_of,
}
use yalia_sii.Template.{TableTemplate}
use yalia_sii.Rules.{or_value}
use yalia_sii.Loads.{Store, LoadMeta, or_null, seal_load}
use yalia_sii.Ingest.Transaction.{Counts, Ingested, ingest}
use yalia_sii.Templates.Catalog.{find_by_key}
use yalia_sii.Connections.{Vault, exists}

pub record OperationContext : Type 0 where
  pub trace_id : String
  pub connection_id : String
  pub params : Option Object
  pub load_meta : Option LoadMeta

-- The codes of the errors. SEAL_FAILED is left out, where the database fails while it seals.
pub data ErrorCode : Type 0 where
  missing_table_key : ErrorCode
  unknown_table : ErrorCode
  missing_connection : ErrorCode
  unknown_connection : ErrorCode
  ingest_failed : ErrorCode

pub data OperationResult : Type 0 where
  err : ErrorCode → OperationResult
  sealed : String → ℕ → OperationResult
  landed : Counts → OperationResult

-- What the operation answers, the tables after it, and the ids drawn.
pub record Executed : Type 0 where
  pub result : OperationResult
  pub store : Store
  pub drawn : ℕ

-- `value?.[key]`, which an array and a text do not have for the keys in question.
unfoldable pub property_of : String → Json → Option Json
unfolding get
property_of key (obj fs) = get key (entries fs)
property_of key _ = none

-- `payload[0..]` as records. An item that is no object is outside of the model.
unfoldable pub records_of : List Json → Option (List Object)
records_of [] = some []
records_of (obj fs ∷ vs) = records_of vs >>= λ os. some (entries fs ∷ os)
records_of _ = none

-- A single row, without the `tableKey`.
unfoldable pub single_row : Object → List Object
single_row o =
    let rest = keep (λ ((k, v) : String × Json). not (k == "tableKey")) o in
    if is_empty rest then [] else rest ∷ []

unfoldable pub extract_rows : Json → Option (List Object)
unfolding records_of single_row property_of
extract_rows (arr vs) = records_of (items vs)
extract_rows (obj fs) = elim (property_of "rows" (obj fs)) [
  | some (arr vs) ↦ records_of (items vs)
  | _ ↦ some (single_row (entries fs))
]
extract_rows _ = some []

-- The seal that an event carries: the load, and the number of its batches.
unfoldable pub seal_of_event : Option LoadMeta → Option (String × ℕ)
seal_of_event none = none
seal_of_event (some m) =
    if m.load_complete && not (m.load_id == "")
    then some (m.load_id, or_value m.total_batches 0)
    else none

module _ (host : Platform) (now : ℕ) where
  unfoldable pub as_string : Option Json → Option String
  as_string none = none
  as_string (some null) = none
  as_string (some (str s)) = if s == "" then none else some s
  as_string (some v) = some (string_of host v)

  -- The key of the table: "" counts as missing.
  unfoldable pub table_key_of : Json → OperationContext → String
  unfolding as_string property_of
  table_key_of payload ctx =
      elim (as_string (elim ctx.params [ none ↦ none | some ps ↦ get "tableKey" ps ])) [
        | some k ↦ k
        | none ↦ or_value (as_string (property_of "tableKey" payload)) ""
      ]

  unfoldable pub failed_with : ErrorCode → Store → ℕ → Executed
  failed_with code s drawn = record { result = err code; store = s; drawn = drawn }

  -- The transaction of `ingest`, which leaves nothing where it throws.
  unfoldable pub land : Option Ingested → Store → ℕ → Executed
  unfolding failed_with
  land none s drawn = failed_with ingest_failed s drawn
  land (some done) s drawn = record {
    result = landed done.counts;
    store = done.store;
    drawn = done.drawn;
  }

  unfoldable pub land_rows :
      TableTemplate → List Object → OperationContext → Vault → Store → ℕ → Executed
  unfolding failed_with land
  land_rows t rows ctx vault s drawn =
      if is_empty rows
      then record {
        result = landed (record { inserted = 0; upserted = 0; skipped_stale = 0 });
        store = s;
        drawn = drawn;
      }
      else if ctx.connection_id == ""
      then failed_with missing_connection s drawn
      else if not (exists ctx.connection_id vault)
      then failed_with unknown_connection s drawn
      else land (ingest host now t ctx.connection_id (some ctx.trace_id) rows ctx.load_meta s drawn)
          s drawn

  -- The branch of a table that is there: none where a row is no object.
  unfoldable pub execute_on :
      TableTemplate → Json → OperationContext → Vault → Store → ℕ → Option Executed
  unfolding seal_of_event extract_rows land_rows
  execute_on t payload ctx vault s drawn = elim (seal_of_event ctx.load_meta) [
    | some (id, total) ↦ some (record {
      result = sealed id total;
      store = seal_load host now t id total (or_null ctx.connection_id) s;
      drawn = drawn;
    })
    | none ↦ extract_rows payload >>= λ rows. some (land_rows t rows ctx vault s drawn)
  ]

  unfoldable pub execute :
      List TableTemplate → Json → OperationContext → Vault → Store → ℕ → Option Executed
  unfolding table_key_of execute_on failed_with
  execute templates payload ctx vault s drawn =
      if table_key_of payload ctx == ""
      then some (failed_with missing_table_key s drawn)
      else elim (find_by_key (table_key_of payload ctx) templates) [
        | none ↦ some (failed_with unknown_table s drawn)
        | some t ↦ execute_on t payload ctx vault s drawn
      ]
