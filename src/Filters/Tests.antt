-- ===== src/Filters/Tests.antt =====
-- The filters of concrete requests, and the theorem about them.
use yalia_sii.Prelude.{String, List, [], ◌∷◌, ◌≡◌, refl, All}
use yalia_sii.Samples.{invoices, engine}
use yalia_sii.Filters.{
  write_status_is, contains, is_blank, apply_filters, apply_each, apply_filter, range_match,
  column_filter, set_bound, bound_conditions, is_filterable, column_of,
}
use yalia_sii.Filters.Columns.{Declared, apply_filters-Declared}

abbrev asked : List (String × String)
asked =
    ("nif", "B1")
    ∷ ("other", "x")
    ∷ ("_writeStatus", "sent")
    ∷ ("rev_from", "2024-01-01")
    ∷ ("id", "__null__")
    ∷ []

filters_run :
    apply_filters engine invoices asked
    ≡ contains "nif" "B1" ∷ write_status_is "sent" ∷ is_blank "id" ∷ []
unfolding apply_filters apply_each apply_filter range_match column_filter set_bound bound_conditions
    is_filterable column_of
filters_run = refl

apply_filters-Declared_example : All (Declared invoices) (apply_filters engine invoices asked)
apply_filters-Declared_example = apply_filters-Declared invoices engine asked
