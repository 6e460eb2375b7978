-- ===== src/Templates/Tests.antt =====
-- Requests for concrete templates, and the theorems about them.
use yalia_sii.Prelude.{String, Bool, true, false, ◌≡◌, refl, inl, none, some, List, [], ◌∷◌, map}
use yalia_sii.Sql.{is_table_key, is_column_key}
use yalia_sii.Template.{TableTemplate, string, id_fields_of, group_by_of}
use yalia_sii.Loads.Marking.{HasSafeKeys}
use yalia_sii.Samples.{rule}
use yalia_sii.Http.{Reply, ok, bad_request}
use yalia_sii.Templates.{
  TableColumnDto, UpsertTableTemplateDto, accepts_column, accepts_batch, accepts_rule,
  accepts_write, accepts_dto, has_fields, keys_of, no_duplicates, includes_id, uses_id, check_rules,
  sort_is_sortable, check_ids, check_batch, check_write, validate, to_column, to_write, to_entity,
}
use yalia_sii.Templates.Indexes.{
  Named, desired_indexes, ensure_index, ensure_all, is_broken, build_error, fresh_index,
  swap_indexes, previous_indexes, sync_indexes, drop_stale,
}
use yalia_sii.Templates.Catalog.{Catalog, synced, create}
use yalia_sii.Templates.Sound.{WellFormed, creates, handle, handle_all, handle_all-WellFormed}
use yalia_sii.Templates.Built.{InStep, sync_indexes-valid}

abbrev wanted_column : String → TableColumnDto
wanted_column k = record {
  key = k;
  label = k;
  type = string;
  filterable = some true;
  sortable = none;
  hidden = none;
  read_only = none;
  exclude_from_payload = none;
}

abbrev wanted : UpsertTableTemplateDto
wanted = record {
  key = "invoices";
  label = "Invoices";
  description = none;
  id_field = "id";
  id_fields = none;
  recency_field = "";
  columns = wanted_column "id" ∷ wanted_column "nif" ∷ [];
  default_sort = none;
  write = some (record {
    scheduled = true;
    editable = true;
    creatable = none;
    delete_enabled = none;
    show_sii_status = none;
    connections = rule ∷ [];
    batch = some (record {
      group_by = "nif" ∷ [];
      max_batch_size = none;
      max_records_per_poll = none;
      collapse = none;
    });
  });
  retention_days = some 30;
  allow_bulk_delete = none;
}

abbrev nothing : Catalog
nothing = record { templates = []; indexes = [] }

abbrev good : String → Bool
good name = true

validated : validate wanted ≡ true
unfolding validate keys_of no_duplicates check_ids sort_is_sortable check_write check_rules
    check_batch uses_id includes_id has_fields
validated = refl

handle_all-WellFormed_example : WellFormed (to_entity wanted) × HasSafeKeys (to_entity wanted)
unfolding handle_all handle create synced accepts_dto accepts_column accepts_write accepts_rule
    accepts_batch validate keys_of no_duplicates check_ids sort_is_sortable check_write check_rules
    check_batch uses_id includes_id has_fields is_table_key is_column_key
handle_all-WellFormed_example =
    handle_all-WellFormed (λ s. s) good good (creates wanted ∷ []) (to_entity wanted) (inl refl)

sync_indexes-valid_example :
    (ns : Named) × (desired_indexes (λ s. s) good good (to_entity wanted) ≡ ok ns)
    × InStep
        (λ s. s)
        good
        good
        (to_entity wanted).key
        ns
        []
        (sync_indexes (λ s. s) good good none (to_entity wanted) []).0
unfolding sync_indexes swap_indexes previous_indexes desired_indexes ensure_all ensure_index
    is_broken fresh_index drop_stale to_entity to_column to_write is_table_key is_column_key
    id_fields_of group_by_of has_fields
sync_indexes-valid_example = sync_indexes-valid (λ s. s) good good none (to_entity wanted) [] refl

-- A unique index that can not be built: the request fails, and the template stays saved.
abbrev unfit : UpsertTableTemplateDto
unfit = record wanted {
  columns = record (wanted_column "id") { filterable = none } ∷ [];
  write = none;
}

abbrev saved_keys : Catalog × Reply TableTemplate → List String
saved_keys out = map (λ (t : TableTemplate). t.key) out.0.templates

saved_anyway : saved_keys (create (λ s. s) (λ name. false) good unfit nothing) ≡ "invoices" ∷ []
unfolding create synced accepts_dto accepts_column validate keys_of no_duplicates check_ids
    sort_is_sortable has_fields is_table_key is_column_key sync_indexes to_entity
saved_anyway = refl

refused_late : (create (λ s. s) (λ name. false) good unfit nothing).1 ≡ bad_request
unfolding create synced accepts_dto accepts_column validate keys_of no_duplicates check_ids
    sort_is_sortable has_fields is_table_key is_column_key sync_indexes swap_indexes
    previous_indexes desired_indexes ensure_all ensure_index is_broken build_error fresh_index
    to_entity to_column id_fields_of
refused_late = refl
