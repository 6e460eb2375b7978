-- ===== src/Deletes.antt =====
-- src/tables/table-rows.service.ts: deleteRows with propagateExternalDeletes, deleteResult,
-- recordDeleteEvent and applyIdSubstitution, and the readers of the ledger of deletions: getStats,
-- resetDeleteBaseline and findMissingIds. Each statement is a transaction of its own.
pub mod Cases
pub mod Ledger
pub mod Missing
pub mod Outward
pub mod Unfiltered
pub mod Whole
mod Tests
use yalia_sii.Prelude.{
  ℕ, ◌+◌, ◌-◌, ◌*◌, String, Bool, true, false, not, ◌&&◌, ◌||◌, Option, none, some, List, [], ◌∷◌,
  ◌++◌, map, ◌==◌, ◌=ℕ◌, ltb, if◌then◌else◌, is_some, is_empty, all, any, has, keep, take, count,
  length, ◌>>=◌,
}
use yalia_sii.Json.{Platform, text_at}
use yalia_sii.Sql.{is_uuid, is_table_key, is_column_key}
use yalia_sii.Template.{TableTemplate, WriteConfig, id_fields_of, group_by_of}
use yalia_sii.Rows.{TableRow, has_id}
use yalia_sii.Rules.{or_value}
use yalia_sii.Loads.{or_null, ◌⧺◌}
use yalia_sii.Http.{Reply, ok, bad_request, failed}
use yalia_sii.Outbound.{Db, Gateway}
use yalia_sii.Filters.{Engine, Condition, apply_filters, test_all}
use yalia_sii.Deletes.Outward.{propagate_external_deletes}

pub data DeleteReason : Type 0 where
  bulk ids retention baseline : DeleteReason

-- A row of `table_delete_events`.
pub record DeleteEvent : Type 0 where
  pub table_key : String
  pub connection_id : Option String
  pub affected : ℕ
  pub reason : DeleteReason
  pub record_ids : Option (List String)
  pub created_at : ℕ

-- The tables, the ledger, and Postgres's count of the rows deleted from `table_rows`.
pub record Store : Type 0 where
  pub db : Db
  pub events : List DeleteEvent
  pub n_tup_del : ℕ

-- DatasetDeleteParams
pub record DatasetDeleteParams : Type 0 where
  pub connection_id : String
  pub ids : List String
  pub older_than_days : Option ℕ
  pub filters : List (String × String)

-- `table_key = …`, and `connection_id = …` where a connection is named.
abbrev pub in_scope : TableTemplate → String → TableRow → Bool
in_scope t conn r = r.table_key == t.key && (conn == "" || r.connection_id == conn)

-- `!!template.write?.batch?.groupBy?.length`
unfoldable pub is_grouped : TableTemplate → Bool
is_grouped t = elim t.write [ none ↦ false | some w ↦ not (is_empty (group_by_of w)) ]

abbrev pub in_groups : List String → TableRow → Bool
in_groups groups r = elim r.group_id [ none ↦ false | some g ↦ has g groups ]

-- `SELECT group_id FROM … AND group_id IS NOT NULL`
unfoldable pub group_ids : List TableRow → List String
group_ids [] = []
group_ids (r ∷ rows) = elim r.group_id [ none ↦ group_ids rows | some g ↦ g ∷ group_ids rows ]

-- withGroupExpansion
unfoldable pub with_group_expansion :
    TableTemplate → String → List TableRow → (TableRow → Bool) → TableRow → Bool
unfolding is_grouped group_ids
with_group_expansion t conn rows matches r =
    if is_grouped t
    then matches r || (in_scope t conn r && in_groups (group_ids (keep matches rows)) r)
    else matches r

-- `concat_ws(':', …)`
joined : List (Option String) → Option String
joined [] = none
joined (none ∷ vs) = joined vs
joined (some v ∷ vs) = elim (joined vs) [ none ↦ some v | some rest ↦ some (v ⧺ ":" ⧺ rest) ]

module _ (host : Platform) where
  -- The expression of RETURNING, for the template's id fields.
  unfoldable pub record_id : List String → TableRow → Option String
  unfolding joined
  record_id [] r = none
  record_id (f ∷ []) r = text_at host f r.row_data
  record_id (f ∷ g ∷ fs) r =
      some (or_value (joined (map (λ k. text_at host k r.row_data) (f ∷ g ∷ fs))) "")

  present_ids : List (Option String) → List String
  present_ids [] = []
  present_ids (none ∷ vs) = present_ids vs
  present_ids (some v ∷ vs) = v ∷ present_ids vs

  -- deleteResult, and what recordDeleteEvent makes of an empty list.
  unfoldable pub record_ids_of : List String → List TableRow → Option (List String)
  unfolding present_ids record_id
  record_ids_of fields gone =
      let found = present_ids (map (record_id fields) gone) in
      if is_empty found then none else some found

  module _ (pg : Engine) (gate : Gateway) (encode : String → String) (keeps : ℕ → Bool) (now : ℕ)
      (t : TableTemplate) where
    -- recordDeleteEvent; `keeps` says whether the insertion of that step goes through.
    unfoldable pub record_delete_event :
        String → DeleteReason → ℕ → Option (List String) → List DeleteEvent → List DeleteEvent
    record_delete_event conn reason n record_ids events =
        if n =ℕ 0
        then events
        else if keeps (length events)
        then events
          ++ record {
            table_key = t.key;
            connection_id = or_null conn;
            affected = n;
            reason = reason;
            record_ids = record_ids;
            created_at = now;
          }
            ∷ []
        else events

    -- One of the three ways: the requests to the external system, the DELETE and the ledger.
    unfoldable pub delete_where :
        String → DeleteReason → (TableRow → Bool) → Store → Store × Reply ℕ
    unfolding record_delete_event record_ids_of
    delete_where conn reason p s =
        let gone = keep p s.db.rows in
        let db = propagate_external_deletes host gate encode now t gone s.db in
        (
          record {
            db = record db { rows = keep (λ r. not (p r)) s.db.rows };
            events =
                record_delete_event conn reason (length gone) (record_ids_of (id_fields_of t) gone)
                  s.events;
            n_tup_del = s.n_tup_del + length gone;
          },
          ok (length gone),
        )

    day_ms : ℕ
    day_ms = 86400000

    -- `created_at < cutoff`
    unfoldable pub is_older : ℕ → TableRow → Bool
    unfolding day_ms
    is_older days r = ltb (r.created_at + days * day_ms) now

    -- The rows that a request names, before the expansion; none where a cast throws.
    unfoldable pub matching : String → List Condition → TableRow → Option Bool
    unfolding test_all
    matching conn cs r = if in_scope t conn r then test_all pg host cs r else some false

    abbrev pub selects : (TableRow → Option Bool) → TableRow → Bool
    selects m r = or_value (m r) false

    abbrev pub non_empty : List (String × String) → List (String × String)
    non_empty = keep (λ f. not (f.1 == ""))

    unfoldable pub delete_ids : String → List String → Store → Store × Reply ℕ
    unfolding delete_where with_group_expansion
    delete_ids conn wanted s =
        let valid = keep is_uuid wanted in
        if is_empty valid
        then (s, ok 0)
        else delete_where conn ids
            (with_group_expansion t conn s.db.rows (λ r. in_scope t conn r && has_id valid r)) s

    unfoldable pub delete_older : String → ℕ → Store → Store × Reply ℕ
    unfolding delete_where with_group_expansion is_older
    delete_older conn days s =
        delete_where conn retention
          (with_group_expansion t conn s.db.rows (λ r. in_scope t conn r && is_older days r)) s

    unfoldable pub delete_filtered : String → List (String × String) → Store → Store × Reply ℕ
    unfolding delete_where with_group_expansion matching
    delete_filtered conn filters s =
        let m = matching conn (apply_filters pg t filters) in
        if all (λ r. is_some (m r)) s.db.rows
        then delete_where conn bulk (with_group_expansion t conn s.db.rows (selects m)) s
        else (s, failed)

    unfoldable pub delete_rows : DatasetDeleteParams → Store → Store × Reply ℕ
    unfolding delete_ids delete_older delete_filtered
    delete_rows params s =
        if not (is_empty params.ids)
        then delete_ids params.connection_id params.ids s
        else elim params.older_than_days [
          | some days ↦ delete_older params.connection_id days s
          | none ↦
              let filters = non_empty params.filters in
              if is_empty filters
              then (s, bad_request)
              else delete_filtered params.connection_id filters s
        ]

-- `SELECT COALESCE(SUM(affected), 0)`
unfoldable pub total_affected : List DeleteEvent → ℕ
total_affected [] = 0
total_affected (e ∷ es) = e.affected + total_affected es

-- The counters of getStats.
unfoldable pub uncontrolled_deletes : Store → ℕ
unfolding total_affected
uncontrolled_deletes s = s.n_tup_del - total_affected s.events

baseline_event : ℕ → ℕ → DeleteEvent
baseline_event now n = record {
  table_key = "*";
  connection_id = none;
  affected = n;
  reason = baseline;
  record_ids = none;
  created_at = now;
}

unfoldable pub reset_delete_baseline : ℕ → Store → Store
unfolding total_affected baseline_event
reset_delete_baseline now s =
    let delta = s.n_tup_del - total_affected s.events in
    if ltb 0 delta then record s { events = s.events ++ baseline_event now delta ∷ [] } else s
