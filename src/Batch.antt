-- ===== src/Batch.antt =====
-- src/tables/table-write-batch.service.ts: the partitions of a sweep and their calls. The batches of a
-- partition are sent one after the other; more than one at once is left out, and so are the names of
-- the groups that go into the run history.
pub mod Complete
mod Tests
use yalia_sii.Prelude.{
  ℕ, zero, suc, min, String, Bool, true, false, not, ◌&&◌, ◌||◌, Option, none, some, List, [], ◌∷◌,
  ◌++◌, map, ◌==◌, if◌then◌else◌, is_text, is_some, is_empty, length, has, keep, ◌-◌,
}
use yalia_sii.Json.{Json, Object, Platform, get, string_of, null}
use yalia_sii.Template.{TableTemplate, WriteConfig, group_by_of}
use yalia_sii.Rows.{TableRow}
use yalia_sii.Rules.{SendPhase, create, update, delete, or_value}
use yalia_sii.Http.{Reply, ok, bad_request, ◌>>=◌}
use yalia_sii.Ingest.{chunks}
use yalia_sii.Payload.{PayloadRow, collapse_of}
use yalia_sii.Sweep.{
  RowWithConnection, fetch_rows_by_ids, fetch_rows_by_group_ids, fetch_group_members,
  fetch_queued_rows_capped,
}
use yalia_sii.Outbound.{Trigger, schedule, manual, Db, Gateway}
use yalia_sii.Submit.{Submitted, submit_group}

-- `row.submissionStatus === 'revisado' ? 'update' : 'create'`
unfoldable pub phase_of : RowWithConnection → SendPhase
phase_of r = if is_text r.submission_status "revisado" then update else create

abbrev pub same_phase : SendPhase → SendPhase → Bool
same_phase create create = true
same_phase update update = true
same_phase delete delete = true
same_phase _ _ = false

-- The parts of the key, which do not run into one another, `${connId ?? ''}::${phase}::${groupKey}`: the group is the stored id, or for
-- an old row the values of its columns.
pub data GroupKey : Type 0 where
  stored : String → GroupKey
  values : List (String × String) → GroupKey

pub record Partition : Type 0 where
  pub connection_id : String
  pub group_values : List (String × String)
  pub group_id : Option String
  pub phase : SendPhase
  pub rows : List PayloadRow

module _ (host : Platform) where
  -- `String(row.data[col] ?? '')`
  abbrev value_text : Option Json → String
  value_text none = ""
  value_text (some null) = ""
  value_text (some v) = string_of host v

  unfoldable pub group_values_of : List String → RowWithConnection → List (String × String)
  group_values_of cols r = map (λ c. (c, value_text (get c r.fields))) cols

  abbrev pub same_values : List (String × String) → List (String × String) → Bool
  same_values [] [] = true
  same_values ((a, v) ∷ vs) ((b, w) ∷ ws) = a == b && v == w && same_values vs ws
  same_values _ _ = false

  abbrev pub same_key : GroupKey → GroupKey → Bool
  same_key (stored a) (stored b) = a == b
  same_key (values v) (values w) = same_values v w
  same_key _ _ = false

  unfoldable pub group_key_of : List String → RowWithConnection → GroupKey
  unfolding group_values_of
  group_key_of cols r = elim r.group_id [
    | none ↦ values (group_values_of cols r)
    | some g ↦ stored g
  ]

  abbrev pub key_of_partition : Partition → GroupKey
  key_of_partition p = elim p.group_id [ none ↦ values p.group_values | some g ↦ stored g ]

  unfoldable pub belongs : List String → RowWithConnection → Partition → Bool
  unfolding phase_of group_key_of
  belongs cols r p =
      p.connection_id == r.connection_id
      && same_phase p.phase (phase_of r)
      && same_key (key_of_partition p) (group_key_of cols r)

  abbrev pub payload_row : RowWithConnection → PayloadRow
  payload_row r = record { id = r.id; fields = r.fields }

  unfoldable pub add_to_partition :
      List String → RowWithConnection → List Partition → List Partition
  unfolding belongs phase_of group_values_of
  add_to_partition cols r [] =
      record {
        connection_id = r.connection_id;
        group_values = group_values_of cols r;
        group_id = r.group_id;
        phase = phase_of r;
        rows = payload_row r ∷ [];
      }
      ∷ []
  add_to_partition cols r (p ∷ ps) =
      if belongs cols r p
      then record p { rows = p.rows ++ payload_row r ∷ [] } ∷ ps
      else p ∷ add_to_partition cols r ps

  unfoldable pub partition : List String → List RowWithConnection → List Partition → List Partition
  unfolding add_to_partition
  partition cols [] ps = ps
  partition cols (r ∷ rows) ps = partition cols rows (add_to_partition cols r ps)

  -- `Math.min(maxBatchSize ?? HARD_MAX_BATCH_SIZE, HARD_MAX_BATCH_SIZE)`
  unfoldable pub max_batch_size_of : WriteConfig → ℕ
  max_batch_size_of w = elim w.batch [
    | none ↦ 1000
    | some b ↦ min (or_value b.max_batch_size 1000) 1000
  ]

  module _ (gate : Gateway) (now : ℕ) (t : TableTemplate) (w : WriteConfig) where
    unfoldable pub submit_chunks : Partition → Trigger → List (List PayloadRow) → Db → Reply Db
    submit_chunks p trigger [] d = ok d
    submit_chunks p trigger (c ∷ cs) d =
        submit_group host gate now t c none trigger
          (if is_empty (group_by_of w) then none else some p.group_values) p.connection_id p.phase d
        >>= λ (d', r). submit_chunks p trigger cs d'

    -- `members.length ? members : part.rows`
    abbrev members_or : List RowWithConnection → List PayloadRow → List PayloadRow
    members_or [] rows = rows
    members_or (m ∷ ms) rows = map payload_row (m ∷ ms)

    unfoldable pub submit_whole : Partition → String → Trigger → Db → Reply Db
    submit_whole p g trigger d =
        submit_group host gate now t
          (members_or (fetch_group_members t.key p.connection_id g d.rows) p.rows)
          (some (map (λ (r : PayloadRow). r.id) p.rows)) trigger (some p.group_values)
          p.connection_id p.phase d
        >>= λ (d', r). ok d'

    unfoldable pub submit_partition : Partition → Trigger → Db → Reply Db
    unfolding submit_chunks submit_whole chunks max_batch_size_of
    submit_partition p trigger d = elim (if is_some (collapse_of w) then p.group_id else none) [
      | some g ↦
          if g == ""
          then submit_chunks p trigger (chunks (max_batch_size_of w) p.rows) d
          else submit_whole p g trigger d
      | none ↦ submit_chunks p trigger (chunks (max_batch_size_of w) p.rows) d
    ]

    unfoldable pub submit_partitions : List Partition → Trigger → Db → Reply Db
    unfolding submit_partition
    submit_partitions [] trigger d = ok d
    submit_partitions (p ∷ ps) trigger d =
        submit_partition p trigger d >>= λ d'. submit_partitions ps trigger d'

    unfoldable pub partition_and_submit : List RowWithConnection → Trigger → Db → Reply Db
    unfolding partition submit_partitions
    partition_and_submit rows trigger d =
        submit_partitions (partition (group_by_of w) rows []) trigger d

    -- The limit of a sweep: `maxRecordsPerPoll ?? 10_000`.
    abbrev limit_of : ℕ
    limit_of = elim w.batch [ none ↦ 10000 | some b ↦ or_value b.max_records_per_poll 10000 ]

    unfoldable pub submit_all_queued : Trigger → String → Db → Reply Db
    unfolding partition_and_submit
    submit_all_queued trigger conn d =
        let queued = fetch_queued_rows_capped t.key limit_of conn d.rows in
        if is_empty queued then ok d else partition_and_submit queued trigger d

    -- The ids of the groups selected, each once.
    abbrev groups_of_rows : List RowWithConnection → List String
    groups_of_rows [] = []
    groups_of_rows (r ∷ rows) =
        let rest = groups_of_rows rows in
        elim r.group_id [ none ↦ rest | some g ↦ if g == "" || has g rest then rest else g ∷ rest ]

    -- `byId.set(row.id, row)`: a row that is there keeps its place.
    abbrev set_row : RowWithConnection → List RowWithConnection → List RowWithConnection
    set_row r [] = r ∷ []
    set_row r (s ∷ rows) = if s.id == r.id then r ∷ rows else s ∷ set_row r rows

    abbrev set_rows : List RowWithConnection → List RowWithConnection → List RowWithConnection
    set_rows [] seen = seen
    set_rows (r ∷ rows) seen = set_rows rows (set_row r seen)

    pub record Counted : Type 0 where
      pub submitted : ℕ
      pub skipped : ℕ

    unfoldable pub submit_by_ids : List String → String → Db → Reply (Db × Counted)
    unfolding partition_and_submit
    submit_by_ids ids conn d =
        let selected = fetch_rows_by_ids t.key ids conn d.rows in
        let skipped = length ids - length selected in
        if is_empty selected
        then ok (d, record { submitted = 0; skipped = skipped })
        else (let siblings = fetch_rows_by_group_ids t.key (groups_of_rows selected) conn d.rows in
            let expanded = set_rows (selected ++ siblings) [] in
            partition_and_submit expanded manual d >>= λ d'.
            ok (d', record { submitted = length expanded; skipped = skipped }))
