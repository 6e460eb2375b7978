-- ===== src/Templates/Sound.antt =====
-- Which templates are ever stored.
use yalia_sii.Prelude.{
  String, Bool, true, false, not, ◌&&◌, ◌||◌, Option, none, some, List, [], ◌∷◌, map, ◌==◌, ◌≡◌,
  refl, subst, inl, inr, if◌then◌else◌, all, keep, has, In, All, All-In, arith, eq_iff, Bool-cases,
  Option-cases, both_true,
}
use mathlib.Core.Option.{some-injective}
use yalia_sii.Sql.{is_table_key, is_column_key}
use yalia_sii.Template.{
  TableTemplate, TableColumnDef, BatchConfig, WriteConfig, id_fields_of, group_by_of,
}
use yalia_sii.Rules.{or_value}
use yalia_sii.Loads.Marking.{HasSafeKeys}
use yalia_sii.Http.{Reply, ok}
use yalia_sii.Templates.{
  UpsertTableTemplateDto, TableColumnDto, WriteConfigDto, accepts_column, accepts_dto, has_fields,
  keys_of, no_duplicates, check_ids, check_batch, check_write, optional, map_option, validate,
  to_column, to_write, to_entity,
}
use yalia_sii.Templates.Catalog.{
  Catalog, has_key, exists, find_by_key, synced, create, update, remove,
}
use yalia_sii.Templates.Indexes.{Index, drop_all_indexes}

abbrev pub column_keys : TableTemplate → List String
column_keys t = map (λ (c : TableColumnDef). c.key) t.columns

-- What the rest of the program relies on.
pub record WellFormed (t : TableTemplate) : Type 0 where
  pub safe_key : is_table_key t.key ≡ true
  pub safe_columns : all is_column_key (column_keys t) ≡ true
  pub distinct : no_duplicates (column_keys t) ≡ true
  pub ids : all (λ k. has k (column_keys t)) (id_fields_of t) ≡ true
  pub groups :
      (w : WriteConfig) → t.write ≡ some w → all (λ k. has k (column_keys t)) (group_by_of w) ≡ true
  pub hidden_fixed : all (λ (c : TableColumnDef). not c.hidden || c.read_only) t.columns ≡ true

all-safe :
    (k : String) (keys : List String)
    → all is_column_key keys ≡ true
    → has k keys ≡ true
    → is_column_key k ≡ true
all-safe k [] h m = cc
all-safe k (j ∷ keys) h m = elim (Bool-cases (j == k)) [
  | inl same ↦ subst (λ x. is_column_key x ≡ true) ((eq_iff j k).0 same) (ground arith)
  | inr other ↦ all-safe k keys (ground arith) (ground (arith, m))
]

all_in-safe :
    (ks keys : List String)
    → all is_column_key keys ≡ true
    → all (λ k. has k keys) ks ≡ true
    → all is_column_key ks ≡ true
all_in-safe [] keys h m = refl
all_in-safe (k ∷ ks) keys h m =
    let first = all-safe k keys h (ground arith) in
    rw (first, all_in-safe ks keys h (ground arith)) refl

WellFormed-HasSafeKeys : (t : TableTemplate) → WellFormed t → HasSafeKeys t
WellFormed-HasSafeKeys t f w e =
    all_in-safe (group_by_of w) (column_keys t) f.safe_columns (f.groups w e)

keys-to_column :
    (cs : List TableColumnDto)
    → map (λ (c : TableColumnDef). c.key) (map to_column cs)
      ≡ map (λ (c : TableColumnDto). c.key) cs
unfolding to_column
keys-to_column [] = refl
keys-to_column (c ∷ cs) = rw (keys-to_column cs) refl

accepted-safe :
    (cs : List TableColumnDto)
    → all accepts_column cs ≡ true
    → all is_column_key (map (λ (c : TableColumnDto). c.key) cs) ≡ true
unfolding accepts_column
accepted-safe [] h = refl
accepted-safe (c ∷ cs) h = ground (arith, accepted-safe cs)

hidden-fixed :
    (cs : List TableColumnDto)
    → all (λ (c : TableColumnDef). not c.hidden || c.read_only) (map to_column cs) ≡ true
unfolding to_column
hidden-fixed [] = refl
hidden-fixed (c ∷ cs) = elim (Bool-cases (or_value c.hidden false)) [
  | inl h ↦ rw (to_column, h, hidden-fixed cs) refl
  | inr v ↦ rw (to_column, v, hidden-fixed cs) refl
]

ids_known :
    (d : UpsertTableTemplateDto) (o : Option (List String))
    → d.id_fields ≡ o
    → check_ids d ≡ true
    → all (λ k. has k (keys_of d)) (id_fields_of (to_entity d)) ≡ true
unfolding check_ids id_fields_of to_entity has_fields
ids_known d none e h = elim (Bool-cases (d.id_field == "")) [
  | inl b ↦ rw (to_entity, e, has_fields, b) refl
  | inr g ↦ rw (to_entity, e, has_fields, g) (ground (arith, rw (e, check_ids, has_fields, g) at h))
]
ids_known d (some []) e h = elim (Bool-cases (d.id_field == "")) [
  | inl b ↦ rw (to_entity, e, has_fields, b) refl
  | inr g ↦ rw (to_entity, e, has_fields, g) (ground (arith, rw (e, check_ids, has_fields, g) at h))
]
ids_known d (some (f ∷ fs)) e h =
    rw (to_entity, e, has_fields) (ground (arith, rw (e, check_ids, has_fields) at h))

batch_groups :
    (keys : List String) (o : Option BatchConfig)
    → optional (λ (b : BatchConfig). all (λ k. has k keys) b.group_by) o ≡ true
    → all (λ k. has k keys) (elim o as (λ _. List String) [ none ↦ [] | some b ↦ b.group_by ])
      ≡ true
batch_groups keys none h = refl
batch_groups keys (some b) h = h

groups_known :
    (d : UpsertTableTemplateDto) (keys : List String) (o : Option WriteConfigDto) (w : WriteConfig)
    → keys ≡ keys_of d
    → optional (check_write d) o ≡ true
    → map_option to_write o ≡ some w
    → all (λ k. has k keys) (group_by_of w) ≡ true
unfolding check_write check_batch to_write group_by_of
groups_known d keys none w same h e = cc
groups_known d keys (some w0) w same h e =
    subst (λ v. all (λ k. has k keys) (group_by_of v) ≡ true) (some-injective _ _ e)
      (rw same (batch_groups (keys_of d) w0.batch (ground arith)))

optional-some :
    {A : Type 0} (p : A → Bool) (o : Option A) (a : A)
    → optional p o ≡ true
    → o ≡ some a
    → p a ≡ true
optional-some p none a h e = cc
optional-some p (some b) a h e = subst (λ x. p x ≡ true) (some-injective b a e) h

-- What the decorators and validate let through is well formed.
to_entity-WellFormed :
    (d : UpsertTableTemplateDto) → (accepts_dto d && validate d) ≡ true → WellFormed (to_entity d)
unfolding accepts_dto validate to_entity keys_of
to_entity-WellFormed d h =
    let same : column_keys (to_entity d) ≡ keys_of d = keys-to_column d.columns in
    let (dto, checks) = both_true _ _ h in
    let (dto3, _) = both_true _ _ (both_true _ _ dto).0 in
    let (dto1, columns_ok) = both_true _ _ dto3 in
    let (checks3, write_ok) = both_true _ _ checks in
    let (checks2, _) = both_true _ _ checks3 in
    let (checks1, ids_ok) = both_true _ _ checks2 in
    record {
      safe_key = (both_true _ _ dto1).0;
      safe_columns = rw same (accepted-safe d.columns columns_ok);
      distinct = rw same (both_true _ _ checks1).1;
      ids = rw same (ids_known d d.id_fields refl ids_ok);
      groups = λ w e. groups_known d (column_keys (to_entity d)) d.write w same write_ok e;
      hidden_fixed = hidden-fixed d.columns;
    }

module _ (hash : String → String) (builds drops : String → Bool) where
  pub data Request : Type 0 where
    creates : UpsertTableTemplateDto → Request
    updates : String → UpsertTableTemplateDto → Request
    removes : String → Request

  unfoldable pub handle : Request → Catalog → Catalog
  handle (creates d) c = (create hash builds drops d c).0
  handle (updates key d) c = (update hash builds drops key d c).0
  handle (removes key) c = (remove hash builds drops key c).0

  unfoldable pub handle_all : List Request → Catalog → Catalog
  unfolding handle
  handle_all [] c = c
  handle_all (r ∷ rs) c = handle_all rs (handle r c)

  All-replaced :
      (key : String) (t : TableTemplate) (ts : List TableTemplate)
      → WellFormed t
      → All WellFormed ts
      → All WellFormed (map (λ u. if has_key key u then t else u) ts)
  All-replaced key t [] f h = tt
  All-replaced key t (u ∷ ts) f h = elim (Bool-cases (has_key key u)) [
    | inl hit ↦ rw hit (f, All-replaced key t ts f h.1)
    | inr miss ↦ rw miss (h.0, All-replaced key t ts f h.1)
  ]

  All-left :
      (p : TableTemplate → Bool) (ts : List TableTemplate)
      → All WellFormed ts
      → All WellFormed (keep p ts)
  All-left p [] h = tt
  All-left p (u ∷ ts) h = elim (Bool-cases (p u)) [
    | inl hit ↦ rw hit (h.0, All-left p ts h.1)
    | inr miss ↦ rw miss (All-left p ts h.1)
  ]

  create-WellFormed :
      (d : UpsertTableTemplateDto) (c : Catalog)
      → All WellFormed c.templates
      → All WellFormed (create hash builds drops d c).0.templates
  unfolding create synced
  create-WellFormed d c h = elim (Bool-cases (accepts_dto d && validate d)) [
    | inr bad ↦ rw (bad, create) h
    | inl good ↦ elim (Bool-cases (exists d.key c.templates)) [
      | inl there ↦ rw (good, create, there) h
      | inr fresh ↦ rw (good, create, fresh, synced) (to_entity-WellFormed d good, h)
    ]
  ]

  update-WellFormed :
      (key : String) (d : UpsertTableTemplateDto) (c : Catalog)
      → All WellFormed c.templates
      → All WellFormed (update hash builds drops key d c).0.templates
  unfolding update synced
  update-WellFormed key d c h = elim (Bool-cases (accepts_dto d && validate d)) [
    | inr bad ↦ rw (bad, update) h
    | inl good ↦ elim (Option-cases (find_by_key key c.templates)) [
      | inl gone ↦ rw (good, update, gone) h
      | inr (old, found) ↦ elim (Bool-cases (not (d.key == key) && exists d.key c.templates)) [
        | inl taken ↦ rw (good, update, found, taken) h
        | inr free ↦
            rw (good, update, found, free, synced)
              (All-replaced key (to_entity d) c.templates (to_entity-WellFormed d good) h)
      ]
    ]
  ]

  dropped-WellFormed :
      (key : String) (c : Catalog) (out : List Index × Reply (Unit {0}))
      → All WellFormed c.templates
      → All WellFormed
          (elim out.1 as (λ _. Catalog × Reply (Unit {0})) [
            | ok _ ↦ (
              record { templates = keep (λ u. not (has_key key u)) c.templates; indexes = out.0 },
              ok tt,
            )
            | other ↦ (record c { indexes = out.0 }, other)
          ]).0.templates
  dropped-WellFormed key c (left, ok u) h = All-left (λ u. not (has_key key u)) c.templates h
  dropped-WellFormed key c (left, _) h = h

  remove-WellFormed :
      (key : String) (c : Catalog)
      → All WellFormed c.templates
      → All WellFormed (remove hash builds drops key c).0.templates
  unfolding remove
  remove-WellFormed key c h = elim (Option-cases (find_by_key key c.templates)) [
    | inl gone ↦ rw (gone, remove) h
    | inr (t, found) ↦
        rw (found, remove)
          (dropped-WellFormed key c (drop_all_indexes hash builds drops t c.indexes) h)
  ]

  handle-WellFormed :
      (r : Request) (c : Catalog)
      → All WellFormed c.templates
      → All WellFormed (handle r c).templates
  unfolding handle
  handle-WellFormed (creates d) c h = create-WellFormed d c h
  handle-WellFormed (updates key d) c h = update-WellFormed key d c h
  handle-WellFormed (removes key) c h = remove-WellFormed key c h

  handle_all-All :
      (rs : List Request) (c : Catalog)
      → All WellFormed c.templates
      → All WellFormed (handle_all rs c).templates
  unfolding handle_all
  handle_all-All [] c h = h
  handle_all-All (r ∷ rs) c h = handle_all-All rs (handle r c) (handle-WellFormed r c h)

  -- Whatever requests arrive at an empty catalog, and whatever indexes fail to build or to drop,
  -- every stored template has a safe key, columns with different and safe keys, id fields and
  -- grouping columns among them, and no hidden column that can be edited; so the columns that
  -- group its rows have names that can stand in SQL text.
  pub handle_all-WellFormed :
      (rs : List Request) (t : TableTemplate)
      → In t (handle_all rs (record { templates = []; indexes = [] })).templates
      → WellFormed t × HasSafeKeys t
  handle_all-WellFormed rs t m =
      let f =
        All-In WellFormed t _ (handle_all-All rs (record { templates = []; indexes = [] }) tt) m in
      (f, WellFormed-HasSafeKeys t f)
