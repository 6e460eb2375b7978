-- ===== src/Ingest/Tests.antt =====
-- Runs of `ingest`, and the theorems about it at concrete inputs.
use yalia_sii.Prelude.{
  ℕ, ◌≤◌, ◌≡◌, refl, Option, none, some, List, [], ◌∷◌, arith, length, All, ◌+◌,
}
use yalia_sii.Json.{Object, text_at, string_of}
use yalia_sii.Template.{id_fields_of, group_by_of}
use yalia_sii.Sql.{is_column_key, is_table_key}
use yalia_sii.Rows.{accepted, is_correcto}
use yalia_sii.Samples.{before, strokes-Injective, is_new, before-HasKey, plain, invoices, invoice}
use yalia_sii.Loads.{mark_queued, build_group_id_sql}
use yalia_sii.Ingest.{
  recency_of, key_of, put_newest, split_rows, sort_by_key, chunks, upsert_row, upsert_chunks,
  append_chunks, conflicts, may_update, tally,
}
use yalia_sii.Ingest.Transaction.{Ingested, Counts, ingest, has_safe_names}
use yalia_sii.Ingest.Immutable.{ingest-accepted}
use yalia_sii.Prelude.{inl, inr}
use yalia_sii.Ingest.Kept.{Kept, split_rows-Kept}
use yalia_sii.Ingest.Totals.{ingest-counted}
use yalia_sii.Ingest.Chunks.{concat, chunks-partition}

running : Unit {0}
unfolding ingest recency_of key_of split_rows sort_by_key chunks upsert_row upsert_chunks
    append_chunks conflicts may_update mark_queued build_group_id_sql group_by_of id_fields_of
    is_column_key is_table_key text_at has_safe_names put_newest string_of is_correcto tally
running = tt

abbrev delivered : List Object
delivered =
    invoice "1" "2" "x" ∷ invoice "2" "2" "x" ∷ invoice "3" "2" "y" ∷ invoice "3" "1" "z" ∷ []

abbrev loaded : Option Ingested
loaded = ingest plain 7 invoices "c1" none delivered none before 3

abbrev counted : Option Ingested → Option Counts
counted none = none
counted (some i) = some i.counts

loaded_run : counted loaded ≡ some (record { inserted = 1; upserted = 1; skipped_stale = 1 })
unfolding running
loaded_run = refl

abbrev outcome : Option Ingested → Ingested
outcome none = record {
  counts = record { inserted = 0; upserted = 0; skipped_stale = 0 };
  store = before;
  drawn = 0;
}
outcome (some i) = i

abbrev after : Ingested
after = outcome loaded

loaded-after : loaded ≡ some after
unfolding running
loaded-after = refl

ingest-accepted_example : accepted after.store.rows ≡ accepted before.rows
ingest-accepted_example =
    ingest-accepted plain 7 invoices "c1" none delivered none before 3 after strokes-Injective
      before-HasKey is_new loaded-after

ingest-counted_example :
    (length after.store.rows ≡ length before.rows + after.counts.inserted)
    × (after.counts.inserted + after.counts.upserted + after.counts.skipped_stale
        ≤ length delivered)
ingest-counted_example =
    ingest-counted plain 7 invoices "c1" none delivered none before 3 after loaded-after

abbrev five : List ℕ
five = 1 ∷ 2 ∷ 3 ∷ 4 ∷ 5 ∷ []

chunks-partition_example :
    (concat (chunks 2 five) ≡ five) × All (λ c. (1 ≤ length c) × (length c ≤ 2)) (chunks 2 five)
chunks-partition_example = chunks-partition 2 five (omega arith)

split_rows-Kept_example :
    Kept plain invoices delivered
      (invoice "3" "2" "y")
      (split_rows plain invoices (record { with_id = []; without_id = [] }) delivered)
split_rows-Kept_example =
    split_rows-Kept plain invoices delivered (invoice "3" "2" "y") (inr (inr (inl refl)))
