-- ===== src/Template.antt =====
-- src/tables/entities/table-template.entity.ts: a table's columns, keys and write-back rules. The
-- display formats of a column (NumberFormat, DateFormat) and the dates of the template are left out.
use yalia_sii.Prelude.{ℕ, String, Bool, Option, none, some, List, [], ◌∷◌, ◌==◌, if◌then◌else◌}

pub data ColumnType : Type 0 where
  string number boolean date json : ColumnType

pub record TableColumnDef : Type 0 where
  pub key : String
  pub label : String
  pub type : ColumnType
  pub filterable : Bool
  pub sortable : Bool
  pub hidden : Bool
  pub read_only : Bool
  pub exclude_from_payload : Bool

pub data SortDir : Type 0 where
  asc desc : SortDir

pub record TableSortDef : Type 0 where
  pub key : String
  pub dir : SortDir

-- `collapse` is none, or holds its `rowsField`.
pub record BatchConfig : Type 0 where
  pub group_by : List String
  pub max_batch_size : Option ℕ
  pub max_records_per_poll : Option ℕ
  pub collapse : Option (Option String)

pub record WriteConnectionRule : Type 0 where
  pub connection_id : Option String
  pub method : String
  pub path : String
  pub query : Option (List (String × String))
  pub update_method : Option String
  pub update_path : Option String
  pub update_query : Option (List (String × String))
  pub delete_method : Option String
  pub delete_path : Option String
  pub delete_query : Option (List (String × String))

pub record WriteConfig : Type 0 where
  pub scheduled : Bool
  pub editable : Bool
  pub creatable : Bool
  pub delete_enabled : Bool
  pub show_sii_status : Bool
  pub connections : List WriteConnectionRule
  pub batch : Option BatchConfig

pub record TableTemplate : Type 0 where
  pub key : String
  pub label : String
  pub description : Option String
  pub id_field : String
  pub id_fields : Option (List String)
  pub recency_field : String
  pub columns : List TableColumnDef
  pub default_sort : Option TableSortDef
  pub write : Option WriteConfig
  pub retention_days : Option ℕ
  pub allow_bulk_delete : Bool

-- `f ? [f] : []`.
abbrev single_field : String → List String
single_field f = if f == "" then [] else f ∷ []

-- `t.idFields?.length ? t.idFields : t.idField ? [t.idField] : []`.
unfoldable pub id_fields_of : TableTemplate → List String
id_fields_of t = elim t.id_fields [
  | none ↦ single_field t.id_field
  | some fields ↦ elim fields [ [] ↦ single_field t.id_field | f ∷ fs ↦ f ∷ fs ]
]

-- `write?.batch?.groupBy ?? []`.
unfoldable pub group_by_of : WriteConfig → List String
group_by_of w = elim w.batch [ none ↦ [] | some b ↦ b.group_by ]
