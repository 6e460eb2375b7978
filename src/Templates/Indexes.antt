-- ===== src/Templates/Indexes.antt =====
-- src/tables/table-index-manager.service.ts: the indexes that a template wants, and how they are
-- kept in step with it. An index that failed to build is left behind, and is not valid.
use yalia_sii.Prelude.{
  String, Bool, true, false, not, ◌&&◌, Option, none, some, List, [], ◌∷◌, ◌==◌, if◌then◌else◌,
  is_empty, all, any, keep,
}
use yalia_sii.Sql.{is_table_key, is_column_key}
use yalia_sii.Template.{TableTemplate, TableColumnDef, id_fields_of, group_by_of}
use yalia_sii.Loads.{◌⧺◌}
use yalia_sii.Http.{Reply, ok, bad_request, failed, ◌>>=◌}

pub data IndexSpec : Type 0 where
  filter : String → IndexSpec
  unique_id : List String → IndexSpec
  group : List String → IndexSpec

pub record Index : Type 0 where
  pub name : String
  pub table_key : String
  pub spec : IndexSpec
  pub is_valid : Bool

abbrev pub Named : Type 0
Named = List (String × IndexSpec)

-- `out.set(name, spec)`
unfoldable pub set_spec : String → IndexSpec → Named → Named
set_spec name spec [] = (name, spec) ∷ []
set_spec name spec ((n, s) ∷ ns) =
    if n == name then (n, spec) ∷ ns else (n, s) ∷ set_spec name spec ns

-- `fields.join(',')`
unfoldable pub comma_joined : List String → String
comma_joined [] = ""
comma_joined (s ∷ []) = s
comma_joined (s ∷ u ∷ ss) = s ⧺ "," ⧺ comma_joined (u ∷ ss)

-- The network and the disk: `hash` is shortHash, `builds` says whether an index can be built,
-- `drops` whether one can be dropped.
module _ (hash : String → String) (builds drops : String → Bool) where
  column_indexes : String → List TableColumnDef → Named → Reply Named
  unfolding set_spec
  column_indexes key [] out = ok out
  column_indexes key (c ∷ cs) out =
      let skipped = column_indexes key cs out in
      let added =
        column_indexes key cs
          (set_spec ("ix_tr_" ⧺ hash ("filter:" ⧺ key ⧺ ":" ⧺ c.key)) (filter c.key) out) in
      if not c.filterable && not c.sortable
      then skipped
      else if is_column_key c.key
      then added
      else failed

  id_index : TableTemplate → Named → Reply Named
  unfolding set_spec comma_joined
  id_index t out =
      let fields = id_fields_of t in
      if is_empty fields
      then ok out
      else if all is_column_key fields
      then ok (
          set_spec ("ux_tr_" ⧺ hash ("id:" ⧺ t.key ⧺ ":" ⧺ comma_joined fields)) (unique_id fields)
            out)
      else failed

  group_columns : TableTemplate → List String
  group_columns t = elim t.write [ none ↦ [] | some w ↦ group_by_of w ]

  group_index : TableTemplate → Named → Reply Named
  unfolding set_spec comma_joined group_columns
  group_index t out =
      if is_empty (group_columns t)
      then ok out
      else if all is_column_key (group_columns t)
      then ok (
          set_spec ("ix_tr_" ⧺ hash ("group:" ⧺ t.key ⧺ ":" ⧺ comma_joined (group_columns t)))
            (group (group_columns t)) out)
      else failed

  unfoldable pub desired_indexes : TableTemplate → Reply Named
  unfolding column_indexes id_index group_index
  desired_indexes t = column_indexes t.key t.columns [] >>= id_index t >>= group_index t

  -- The error of a build that fails.
  unfoldable pub build_error : IndexSpec → Reply (Unit {0})
  build_error (unique_id fields) = bad_request
  build_error spec = failed

  unfoldable pub fresh_index : String → String → IndexSpec → Bool → Index
  fresh_index key name spec valid = record {
    name = name;
    table_key = key;
    spec = spec;
    is_valid = valid;
  }

  unfoldable pub is_broken : String → Index → Bool
  is_broken name i = i.name == name && not i.is_valid

  unfoldable pub ensure_index :
      String → String → IndexSpec → List Index → List Index × Reply (Unit {0})
  unfolding fresh_index build_error is_broken
  ensure_index key name spec ixs =
      if not (is_table_key key)
      then (ixs, failed)
      else elim (any (λ i. i.name == name) (keep (λ i. not (is_broken name i)) ixs)) [
        | true ↦ (keep (λ i. not (is_broken name i)) ixs, ok tt)
        | false ↦
            if builds name
            then (fresh_index key name spec true ∷ keep (λ i. not (is_broken name i)) ixs, ok tt)
            else (
              fresh_index key name spec false ∷ keep (λ i. not (is_broken name i)) ixs,
              build_error spec,
            )
      ]

  -- The loop over the wanted indexes; it ends with the first that fails.
  unfoldable pub ensure_all : String → Named → List Index → List Index × Reply (Unit {0})
  unfolding ensure_index
  ensure_all key [] ixs = (ixs, ok tt)
  ensure_all key ((n, s) ∷ ns) ixs =
      let (done, reply) = ensure_index key n s ixs in
      let rest = ensure_all key ns done in elim reply [ ok _ ↦ rest | other ↦ (done, other) ]

  -- A drop that fails is only logged.
  unfoldable pub drop_index : String → List Index → List Index
  drop_index name ixs = if drops name then keep (λ i. not (i.name == name)) ixs else ixs

  unfoldable pub drop_stale : Named → Named → List Index → List Index
  unfolding drop_index
  drop_stale wanted [] ixs = ixs
  drop_stale wanted ((n, s) ∷ ns) ixs =
      drop_stale wanted ns (if any (λ w. w.0 == n) wanted then ixs else drop_index n ixs)

  unfoldable pub previous_indexes : Option TableTemplate → Reply Named
  unfolding desired_indexes
  previous_indexes none = ok []
  previous_indexes (some t) = desired_indexes t

  unfoldable pub swap_indexes : String → Named → Named → List Index → List Index × Reply (Unit {0})
  unfolding ensure_all drop_stale
  swap_indexes key wanted previous ixs =
      let (done, reply) = ensure_all key wanted ixs in
      elim reply [ ok _ ↦ (drop_stale wanted previous done, ok tt) | other ↦ (done, other) ]

  unfoldable pub sync_indexes :
      Option TableTemplate → TableTemplate → List Index → List Index × Reply (Unit {0})
  unfolding previous_indexes desired_indexes swap_indexes
  sync_indexes old new ixs = elim (desired_indexes new) [
    | ok wanted ↦ elim (previous_indexes old) [
      | ok previous ↦ swap_indexes new.key wanted previous ixs
      | _ ↦ (ixs, failed)
    ]
    | _ ↦ (ixs, failed)
  ]

  drop_each : Named → List Index → List Index
  unfolding drop_index
  drop_each [] ixs = ixs
  drop_each ((n, s) ∷ ns) ixs = drop_each ns (drop_index n ixs)

  unfoldable pub drop_all_indexes : TableTemplate → List Index → List Index × Reply (Unit {0})
  unfolding drop_each
  drop_all_indexes t ixs = elim (desired_indexes t) [
    | ok ns ↦ (drop_each ns ixs, ok tt)
    | _ ↦ (ixs, failed)
  ]
