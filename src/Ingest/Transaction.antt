-- ===== src/Ingest/Transaction.antt =====
-- `ingest` as a whole, and `createRow` on top of it.
use yalia_sii.Prelude.{
  ℕ, String, Bool, not, ◌&&◌, ◌||◌, Option, none, some, List, [], ◌∷◌, map, ◌==◌, if◌then◌else◌,
  is_empty, all, is_some, ◌>>=◌,
}
use yalia_sii.Json.{Json, obj, Object, Platform, entries}
use yalia_sii.Sql.{is_column_key, is_table_key}
use yalia_sii.Template.{TableTemplate, id_fields_of}
use yalia_sii.Rules.{resolve_write_rule}
use yalia_sii.Http.{Reply, bad_request, or_failed}
use yalia_sii.Loads.{Store, LoadMeta, stage_load_rows, mark_queued}
use yalia_sii.Ingest.{chunks, split_rows, sort_by_key, Progress, upsert_chunks, append_chunks}

pub record Counts : Type 0 where
  pub inserted : ℕ
  pub upserted : ℕ
  pub skipped_stale : ℕ

pub record Ingested : Type 0 where
  pub counts : Counts
  pub store : Store
  pub drawn : ℕ

module _ (host : Platform) (now : ℕ) (t : TableTemplate) (conn : String)
    (trace : Option String) where
  -- The asserts on the names that go into the text of the statement.
  unfoldable pub has_safe_names : Bool
  has_safe_names =
      all is_column_key (id_fields_of t)
      && is_table_key t.key
      && (t.recency_field == "" || is_column_key t.recency_field)

  -- The inserts of the transaction: an upsert of the rows with a key, an append of the others.
  unfoldable pub write_rows :
      List Object → Progress host now t conn trace → Option (Progress host now t conn trace)
  unfolding chunks split_rows
  write_rows ds p =
      if is_empty (id_fields_of t)
      then append_chunks host now t conn trace (chunks 1000 ds) p
      else if has_safe_names
      then (let split = split_rows host t (record { with_id = []; without_id = [] }) ds in
          upsert_chunks host now t conn trace
            (chunks 1000 (map (λ e. e.1) (sort_by_key split.with_id))) p
          >>= λ q. append_chunks host now t conn trace (chunks 1000 split.without_id) q)
      else none

  -- `loadMeta?.loadId`
  abbrev load_of_meta : Option LoadMeta → Option LoadMeta
  load_of_meta none = none
  load_of_meta (some m) = if m.load_id == "" then none else some m

  abbrev start : Store → ℕ → Progress host now t conn trace
  start s drawn = record {
    rows = s.rows;
    drawn = drawn;
    affected = [];
    n_inserted = 0;
    n_upserted = 0;
    n_skipped = 0;
  }

  unfoldable pub finish : Option LoadMeta → Store → Progress host now t conn trace → Option Store
  finish meta s p = elim (load_of_meta meta) [
    | none ↦
        mark_queued host t p.affected "queued" p.rows >>= λ rows. some (record s { rows = rows })
    | some m ↦ stage_load_rows host now t p.affected conn m (record s { rows = p.rows })
  ]

  unfoldable pub ingest : List Object → Option LoadMeta → Store → ℕ → Option Ingested
  unfolding write_rows finish
  ingest ds meta s drawn =
      if is_empty ds
      then some (record {
        counts = record { inserted = 0; upserted = 0; skipped_stale = 0 };
        store = s;
        drawn = drawn;
      })
      else write_rows ds (start s drawn) >>= λ p. finish meta s p >>= λ s'. some (record {
        counts = record {
          inserted = p.n_inserted;
          upserted = p.n_upserted;
          skipped_stale = p.n_skipped;
        };
        store = s';
        drawn = p.drawn;
      })

-- A record of the request's body: an object, and no array.
abbrev object_of : Json → Option Object
object_of (obj fs) = some (entries fs)
object_of _ = none

module _ (host : Platform) (now : ℕ) (t : TableTemplate) (conn : String) where
  unfoldable pub create_row : Json → Store → ℕ → Reply Ingested
  unfolding ingest
  create_row body s drawn = elim t.write [
    | none ↦ bad_request
    | some w ↦
        if not w.creatable
        then bad_request
        else if conn == "" || not (is_some (resolve_write_rule w.connections conn))
        then bad_request
        else elim (object_of body) [
          | none ↦ bad_request
          | some d ↦ or_failed (ingest host now t conn none (d ∷ []) none s drawn)
        ]
  ]
