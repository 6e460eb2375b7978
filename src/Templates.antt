-- ===== src/Templates.antt =====
-- src/tables/dto/upsert-table-template.dto.ts and the checks of src/tables/table-templates.service.ts:
-- what a request for a template holds, what its decorators and validate let through, and toEntity.
-- The display formats of a column are left out. A text that may be missing is "" where it is.
pub mod Catalog
pub mod Indexes
pub mod Sound
pub mod Origin
pub mod Built
mod Tests
use yalia_sii.Prelude.{
  ℕ, String, Bool, true, false, not, ◌&&◌, ◌||◌, Option, none, some, List, [], ◌∷◌, map, ◌==◌, ◌=ℕ◌,
  leb, if◌then◌else◌, is_empty, all, find, has,
}
use yalia_sii.Sql.{codes, is_table_key, is_column_key}
use yalia_sii.Template.{
  TableTemplate, TableColumnDef, TableSortDef, ColumnType, BatchConfig, WriteConfig,
  WriteConnectionRule, group_by_of,
}
use yalia_sii.Rules.{or_value}

pub record TableColumnDto : Type 0 where
  pub key : String
  pub label : String
  pub type : ColumnType
  pub filterable : Option Bool
  pub sortable : Option Bool
  pub hidden : Option Bool
  pub read_only : Option Bool
  pub exclude_from_payload : Option Bool

-- TableSortDto, BatchConfigDto with CollapseConfigDto and WriteConnectionRuleDto have the fields of
-- the stored records.
pub record WriteConfigDto : Type 0 where
  pub scheduled : Bool
  pub editable : Bool
  pub creatable : Option Bool
  pub delete_enabled : Option Bool
  pub show_sii_status : Option Bool
  pub connections : List WriteConnectionRule
  pub batch : Option BatchConfig

pub record UpsertTableTemplateDto : Type 0 where
  pub key : String
  pub label : String
  pub description : Option String
  pub id_field : String
  pub id_fields : Option (List String)
  pub recency_field : String
  pub columns : List TableColumnDto
  pub default_sort : Option TableSortDef
  pub write : Option WriteConfigDto
  pub retention_days : Option ℕ
  pub allow_bulk_delete : Option Bool

-- The decorators. `@IsOptional()` lets a missing value through.
abbrev pub optional {ℓ} : {A : Type ℓ} → (A → Bool) → Option A → Bool
optional p none = true
optional p (some a) = p a

abbrev is_given : String → Bool
is_given s = not (s == "")

is_send_method : String → Bool
is_send_method m = m == "PUT" || m == "PATCH" || m == "POST"

unfoldable pub accepts_column : TableColumnDto → Bool
accepts_column c = is_column_key c.key && is_given c.label

unfoldable pub accepts_batch : BatchConfig → Bool
accepts_batch b =
    not (is_empty b.group_by)
    && optional (leb 1) b.max_batch_size
    && optional (leb 1) b.max_records_per_poll
    && optional (optional is_given) b.collapse

unfoldable pub accepts_rule : WriteConnectionRule → Bool
unfolding is_send_method
accepts_rule r =
    optional is_given r.connection_id
    && is_send_method r.method
    && is_given r.path
    && optional is_send_method r.update_method
    && optional is_given r.update_path
    && optional (λ m. is_send_method m || m == "DELETE") r.delete_method
    && optional is_given r.delete_path

unfoldable pub accepts_write : WriteConfigDto → Bool
unfolding accepts_rule accepts_batch
accepts_write w =
    not (is_empty w.connections) && all accepts_rule w.connections && optional accepts_batch w.batch

unfoldable pub accepts_dto : UpsertTableTemplateDto → Bool
unfolding accepts_column accepts_write
accepts_dto d =
    is_table_key d.key
    && is_given d.label
    && all accepts_column d.columns
    && optional accepts_write d.write
    && optional (leb 1) d.retention_days

-- `dto.idFields?.length`
unfoldable pub has_fields : Option (List String) → Bool
has_fields none = false
has_fields (some fs) = not (is_empty fs)

abbrev pub fields_of : Option (List String) → List String
fields_of none = []
fields_of (some fs) = fs

unfoldable pub keys_of : UpsertTableTemplateDto → List String
keys_of d = map (λ (c : TableColumnDto). c.key) d.columns

unfoldable pub no_duplicates : List String → Bool
no_duplicates [] = true
no_duplicates (k ∷ ks) = not (has k ks) && no_duplicates ks

-- `path.includes('{id}')`
unfoldable pub includes_id : List ℕ → Bool
includes_id (a ∷ b ∷ c ∷ d ∷ s) =
    (a =ℕ b'{' && b =ℕ b'i' && c =ℕ b'd' && d =ℕ b'}') || includes_id (b ∷ c ∷ d ∷ s)
includes_id s = false

abbrev path_has_id : Option String → Bool
path_has_id none = false
path_has_id (some p) = includes_id (codes p)

unfoldable pub uses_id : WriteConnectionRule → Bool
unfolding includes_id
uses_id r = includes_id (codes r.path) || path_has_id r.update_path || path_has_id r.delete_path

-- The loop over the rules, with the connections and whether a generic rule were met.
unfoldable pub check_rules : Bool → List String → Bool → List WriteConnectionRule → Bool
unfolding uses_id
check_rules keyed seen generic [] = true
check_rules keyed seen generic (r ∷ rs) =
    let after_generic = check_rules keyed seen true rs in
    let after_named = check_rules keyed (or_value r.connection_id "" ∷ seen) generic rs in
    not (uses_id r && not keyed)
    && (if or_value r.connection_id "" == ""
        then not generic && after_generic
        else not (has (or_value r.connection_id "") seen) && after_named)

-- `col && !col.sortable` does not hold.
unfoldable pub sort_is_sortable : List TableColumnDto → TableSortDef → Bool
sort_is_sortable columns s = elim (find (λ (c : TableColumnDto). c.key == s.key) columns) [
  | none ↦ true
  | some c ↦ or_value c.sortable false
]

unfoldable pub check_ids : UpsertTableTemplateDto → Bool
unfolding has_fields keys_of
check_ids d =
    (d.id_field == "" || has d.id_field (keys_of d))
    && (not (has_fields d.id_fields)
        || (d.id_field == "" && all (λ f. has f (keys_of d)) (fields_of d.id_fields)))
    && (d.recency_field == ""
        || ((not (d.id_field == "") || has_fields d.id_fields) && has d.recency_field (keys_of d)))

unfoldable pub check_batch : UpsertTableTemplateDto → WriteConfigDto → Bool
unfolding keys_of
check_batch d w = optional (λ (b : BatchConfig). all (λ k. has k (keys_of d)) b.group_by) w.batch

unfoldable pub check_write : UpsertTableTemplateDto → WriteConfigDto → Bool
unfolding check_rules check_batch has_fields
check_write d w =
    check_rules (not (d.id_field == "") || has_fields d.id_fields) [] false w.connections
    && check_batch d w

-- validate; every failure is a BadRequestException.
unfoldable pub validate : UpsertTableTemplateDto → Bool
unfolding keys_of no_duplicates check_ids sort_is_sortable check_write
validate d =
    not (is_empty d.columns)
    && no_duplicates (keys_of d)
    && check_ids d
    && optional (λ s. has s.key (keys_of d) && sort_is_sortable d.columns s) d.default_sort
    && optional (check_write d) d.write

unfoldable pub to_column : TableColumnDto → TableColumnDef
to_column c = record {
  key = c.key;
  label = c.label;
  type = c.type;
  filterable = or_value c.filterable false;
  sortable = or_value c.sortable false;
  hidden = or_value c.hidden false;
  read_only = if or_value c.hidden false then true else or_value c.read_only false;
  exclude_from_payload = or_value c.exclude_from_payload false;
}

-- A flag that is missing reads as false, `showSiiStatus` as true.
unfoldable pub to_write : WriteConfigDto → WriteConfig
to_write w = record {
  scheduled = w.scheduled;
  editable = w.editable;
  creatable = or_value w.creatable false;
  delete_enabled = or_value w.delete_enabled false;
  show_sii_status = or_value w.show_sii_status true;
  connections = w.connections;
  batch = w.batch;
}

abbrev pub map_option {ℓ κ} : {A : Type ℓ} {B : Type κ} → (A → B) → Option A → Option B
map_option f none = none
map_option f (some a) = some (f a)

unfoldable pub to_entity : UpsertTableTemplateDto → TableTemplate
unfolding to_column to_write has_fields
to_entity d = record {
  key = d.key;
  label = d.label;
  description = d.description;
  id_field = if has_fields d.id_fields then "" else d.id_field;
  id_fields = if has_fields d.id_fields then d.id_fields else none;
  recency_field = d.recency_field;
  columns = map to_column d.columns;
  default_sort = d.default_sort;
  write = map_option to_write d.write;
  retention_days = d.retention_days;
  allow_bulk_delete = or_value d.allow_bulk_delete false;
}
