-- ===== src/Loads.antt =====
-- src/tables/table-rows.service.ts, the staging of a load that arrives in several batches: markQueued,
-- markStaged, stageLoadRows, sealLoad and flipLoadIfComplete. Each is one transaction over the
-- tables `table_rows`, `table_loads` and `table_load_batches`, so that `FOR UPDATE` makes the
-- operations on one load a sequence. `none` is a thrown error, which rolls the transaction back.
pub mod Complete
pub mod Delivery
pub mod Early
pub mod Marking
pub mod Sealing
mod Tests
use Prim.Native.String.{◌++◌ as text_append}
use Prim.Native.Char.{char}
use yalia_sii.Prelude.{
  ℕ, String, Bool, true, false, ◌&&◌, ◌||◌, Option, none, some, List, [], ◌∷◌, map, ◌==◌, ◌=ℕ◌, ltb,
  if◌then◌else◌, is_text, is_some, is_empty, any, all, find, count, ◌>>=◌,
}
use yalia_sii.Json.{Platform, text_at}
use yalia_sii.Sql.{is_column_key}
use yalia_sii.Template.{TableTemplate, group_by_of}
use yalia_sii.Rows.{TableRow, update_where, has_id}

pub record TableLoad : Type 0 where
  pub load_id : String
  pub table_key : String
  pub connection_id : Option String
  pub expected_batches : Option ℕ
  pub created_at : ℕ
  pub sealed_at : Option ℕ
  pub stale_at : Option ℕ

pub record Store : Type 0 where
  pub rows : List TableRow
  pub loads : List TableLoad
  pub load_batches : List (String × ℕ)

pub record LoadMeta : Type 0 where
  pub load_id : String
  pub batch_index : Option ℕ
  pub total_batches : Option ℕ
  pub load_complete : Bool

infixr 65 ◌⧺◌
abbrev pub ◌⧺◌ : String → String → String
s ⧺ t = text_append s t

-- chr(31)
abbrev unit_separator : String
unit_separator = String.◌∷◌ (char 31 tt) String.[]

-- `coalesce(s, '')`
abbrev pub or_blank : Option String → String
or_blank none = ""
or_blank (some s) = s

module _ (host : Platform) where
  group_text : List String → TableRow → String
  group_text [] r = ""
  group_text (k ∷ ks) r = unit_separator ⧺ or_blank (text_at host k r.row_data) ⧺ group_text ks r

  -- `buildGroupIdSql`: the expression that gives a row its `group_id`.
  unfoldable pub build_group_id_sql : List String → Option (TableRow → Option String)
  unfolding group_text
  build_group_id_sql group_by =
      if is_empty group_by
      then some (λ r. none)
      else if all is_column_key group_by
      then some (λ r. some (host.md5 (r.connection_id ⧺ group_text group_by r)))
      else none

  -- The assignments of markQueued.
  unfoldable pub requeue : String → (TableRow → Option String) → TableRow → TableRow
  requeue status group_id r = record r {
    submission_status = some status;
    batch_id = none;
    sii_response = none;
    write_status = none;
    write_error = none;
    last_written_at = none;
    group_id = group_id r;
  }

  unfoldable pub mark_queued :
      TableTemplate → List String → String → List TableRow → Option (List TableRow)
  unfolding requeue
  mark_queued t ids status rows = elim t.write [
    | none ↦ some rows
    | some w ↦
        if is_empty ids
        then some rows
        else build_group_id_sql (group_by_of w) >>= λ group_id.
            some (update_where (has_id ids) (requeue status group_id) rows)
  ]

  -- `submission_status IS NULL OR submission_status IN ('staged', 'queued', 'revisado')`
  abbrev pub can_stage : Option String → Bool
  can_stage none = true
  can_stage (some s) = s == "staged" || s == "queued" || s == "revisado"

  unfoldable pub stage : String → (TableRow → Option String) → TableRow → TableRow
  unfolding requeue
  stage load_id group_id r = record (requeue "staged" group_id r) { load_id = some load_id }

  unfoldable pub mark_staged :
      TableTemplate → List String → String → List TableRow → Option (List TableRow)
  unfolding stage
  mark_staged t ids load_id rows = elim t.write [
    | none ↦ some rows
    | some w ↦
        if is_empty ids
        then some rows
        else build_group_id_sql (group_by_of w) >>= λ group_id. some (
            update_where (λ r. has_id ids r && can_stage r.submission_status)
              (stage load_id group_id) rows)
  ]

abbrev pub is_load : String → TableLoad → Bool
is_load id l = l.load_id == id

-- `SELECT … FROM table_loads WHERE load_id = $1 FOR UPDATE`
abbrev pub load_of : String → List TableLoad → Option TableLoad
load_of id loads = find (is_load id) loads

abbrev pub is_sealed : TableLoad → Bool
is_sealed l = is_some l.sealed_at

-- `SELECT count(*) FROM table_load_batches WHERE load_id = $1`
abbrev pub received : String → List (String × ℕ) → ℕ
received id = count (λ b. b.0 == id)

-- `INSERT INTO table_load_batches … ON CONFLICT DO NOTHING`
unfoldable pub record_batch : String → Option ℕ → List (String × ℕ) → List (String × ℕ)
record_batch id none bs = bs
record_batch id (some i) bs = if any (λ b. b.0 == id && b.1 =ℕ i) bs then bs else (id, i) ∷ bs

-- `submission_status = 'staged'` and `load_id = $1`.
abbrev pub is_staged_in : String → TableRow → Bool
is_staged_in id r = is_text r.load_id id && is_text r.submission_status "staged"

abbrev pub update_load : String → (TableLoad → TableLoad) → List TableLoad → List TableLoad
update_load id f = map (λ l. if is_load id l then f l else l)

unfoldable pub seal : ℕ → String → Store → Store
seal now id s = record s {
  rows =
      update_where (is_staged_in id) (λ r. record r { submission_status = some "queued" }) s.rows;
  loads = update_load id (λ l. record l { sealed_at = some now }) s.loads;
}

unfoldable pub flip_load_if_complete : ℕ → String → Store → Store
unfolding seal
flip_load_if_complete now id s = elim (load_of id s.loads) [
  | none ↦ s
  | some load ↦ if is_sealed load then s else elim load.expected_batches [
    | none ↦ s
    | some n ↦ if ltb (received id s.load_batches) n then s else seal now id s
  ]
]

pub fresh_load : ℕ → String → String → Option String → Option ℕ → TableLoad
fresh_load now id key conn expected = record {
  load_id = id;
  table_key = key;
  connection_id = conn;
  expected_batches = expected;
  created_at = now;
  sealed_at = none;
  stale_at = none;
}

-- `INSERT INTO table_loads … ON CONFLICT (load_id) DO NOTHING`
unfoldable pub ensure_load : ℕ → String → String → Option String → List TableLoad → List TableLoad
unfolding fresh_load
ensure_load now id key conn loads =
    if is_some (load_of id loads) then loads else fresh_load now id key conn none ∷ loads

-- `connectionId || null`
abbrev pub or_null : String → Option String
or_null s = if s == "" then none else some s

-- `load?.sealed_at`
abbrev pub sealed_load : String → List TableLoad → Bool
sealed_load id loads = elim (load_of id loads) [ none ↦ false | some l ↦ is_sealed l ]

module _ (host : Platform) (now : ℕ) (t : TableTemplate) where
  unfoldable pub stage_load_rows : List String → String → LoadMeta → Store → Option Store
  unfolding ensure_load record_batch flip_load_if_complete
  stage_load_rows ids conn meta s =
      let id = meta.load_id in
      let loads = ensure_load now id t.key (or_null conn) s.loads in
      if sealed_load id loads
      then (mark_queued host t ids "queued" s.rows >>= λ rows.
          some (record s { rows = rows; loads = loads }))
      else mark_staged host t ids id s.rows >>= λ rows. some (
          flip_load_if_complete now id (record s {
            rows = rows;
            loads = loads;
            load_batches = record_batch id meta.batch_index s.load_batches;
          }))

  -- `COALESCE(table_loads.connection_id, EXCLUDED.connection_id)`
  abbrev pub first_of_two : Option String → Option String → Option String
  first_of_two none c = c
  first_of_two (some b) c = some b

  -- `INSERT … ON CONFLICT (load_id) DO UPDATE SET expected_batches = …`
  unfoldable pub expect_batches : String → ℕ → Option String → List TableLoad → List TableLoad
  unfolding fresh_load
  expect_batches id total conn loads =
      if is_some (load_of id loads)
      then update_load id
          (λ l. record l {
            expected_batches = some total;
            connection_id = first_of_two l.connection_id conn;
          })
          loads
      else fresh_load now id t.key conn (some total) ∷ loads

  unfoldable pub seal_load : String → ℕ → Option String → Store → Store
  unfolding expect_batches flip_load_if_complete
  seal_load id total conn s =
      flip_load_if_complete now id (record s { loads = expect_batches id total conn s.loads })
