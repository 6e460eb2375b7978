-- ===== src/Filters.antt =====
-- src/tables/table-rows.service.ts, applyFilters and the expressions it uses: the conditions that
-- the filters of a request add to a WHERE. A condition is data here, with its meaning on a row,
-- which is none where a cast throws; NULL counts as false, since conditions are only joined by AND.
pub mod Columns
mod Tests
use Prim.Native.String.{◌++◌ as text_append}
use yalia_sii.Prelude.{
  ℤ, leb_ℤ, String, Bool, true, false, not, ◌&&◌, ◌||◌, Option, none, some, List, [], ◌∷◌, ◌++◌,
  ◌==◌, if◌then◌else◌, is_text, is_some, all, any, find, ◌>>=◌, map, is_empty,
}
use yalia_sii.Json.{Platform, Object, text_at}
use yalia_sii.Sql.{codes, is_digit, escape_like}
use yalia_sii.Template.{
  TableTemplate, TableColumnDef, ColumnType, string, number, boolean, date, json,
}
use yalia_sii.Rows.{TableRow}

-- What Postgres computes for these conditions; none where a cast throws.
pub record Engine : Type 0 where
  -- `s ILIKE '%' || v || '%'`, with the pattern's characters in `v` escaped.
  pub contains_text : String → String → Bool
  -- `Number.isNaN(Number(v))`, and `s::numeric = Number(v)`.
  pub is_nan : String → Bool
  pub equals_number : String → String → Option Bool
  -- `s::boolean`
  pub to_boolean : String → Option Bool
  -- `s::timestamptz`, `s ~ ISO_DATETIME_RE`, and `to_timestamp(s::bigint / 1000.0)`.
  pub to_timestamp : String → Option ℤ
  pub is_iso_datetime : String → Bool
  pub from_epoch : String → Option ℤ
  -- The column `updated_at`.
  pub updated_at : TableRow → ℤ

pub data Edge : Type 0 where
  from until : Edge

pub data Condition : Type 0 where
  write_status_is : String → Condition
  submission_status_is : String → Condition
  updated : Edge → String → Condition
  is_blank : String → Condition
  never : Condition
  number_is : String → String → Condition
  boolean_is : String → Bool → Condition
  contains : String → String → Condition
  date_bound : Edge → String → String → Condition

-- NULL_FILTER_VALUE
abbrev pub null_filter_value : String
null_filter_value = "__null__"

-- WRITE_STATUS_CASE_SQL
unfoldable pub write_status_case : TableRow → Option String
write_status_case r =
    if (is_some r.write_error && not (is_text r.write_error "")) || is_text r.write_status "error"
    then some "error"
    else if is_text r.write_status "sent" || is_text r.submission_status "pending"
    then some "sent"
    else if is_text r.submission_status "revisado"
    then some "review"
    else if is_text r.submission_status "queued"
    then some "queued"
    else none

-- `s` without the ending, none where it does not end so.
strip : String → String → Option String
strip ending String.[] = if ending == String.[] then some String.[] else none
strip ending (String.◌∷◌ c s) =
    let rest = strip ending s in
    if String.◌∷◌ c s == ending
    then some String.[]
    else elim rest [ none ↦ none | some t ↦ some (String.◌∷◌ c t) ]

-- `.+`
not_blank : Option String → Option String
not_blank none = none
not_blank (some s) = if s == "" then none else some s

-- `/^(.+)_(from|until)$/.exec(k)`
unfoldable pub range_match : String → Option (String × Edge)
unfolding strip not_blank
range_match k = elim (not_blank (strip "_from" k)) [
  | some base ↦ some (base, from)
  | none ↦ elim (not_blank (strip "_until" k)) [ some base ↦ some (base, until) | none ↦ none ]
]

unfoldable pub column_of : TableTemplate → String → Option TableColumnDef
column_of t k = find (λ (c : TableColumnDef). c.key == k) t.columns

-- `filterable.has(k)`
unfoldable pub is_filterable : TableTemplate → String → Bool
is_filterable t k = any (λ (c : TableColumnDef). c.filterable && c.key == k) t.columns

-- The bounds of the date columns, in the order in which the filters name them.
abbrev pub Bounds : Type 0
Bounds = List (String × (Option String × Option String))

abbrev with_edge : Edge → String → Option String × Option String → Option String × Option String
with_edge from v b = (some v, b.1)
with_edge until v b = (b.0, some v)

unfoldable pub set_bound : String → Edge → String → Bounds → Bounds
set_bound k e v [] = (k, with_edge e v (none, none)) ∷ []
set_bound k e v ((j, b) ∷ bs) =
    if j == k then (j, with_edge e v b) ∷ bs else (j, b) ∷ set_bound k e v bs

pub record Where : Type 0 where
  pub conditions : List Condition
  pub bounds : Bounds

add : Condition → Where → Where
add c w = record w { conditions = w.conditions ++ c ∷ [] }

-- `(template.columns.find((c) => c.key === k))?.type`
abbrev type_of : TableTemplate → String → Option ColumnType
type_of t k = elim (column_of t k) [ none ↦ none | some c ↦ some c.type ]

typed_condition : Engine → String → String → Option ColumnType → Condition
typed_condition pg k v (some number) = if pg.is_nan v then never else number_is k v
typed_condition pg k v (some boolean) = boolean_is k (v == "true")
typed_condition pg k v _ = contains k v

-- A filter on a column of the template.
unfoldable pub column_filter : Engine → TableTemplate → String → String → Where → Where
unfolding add typed_condition is_filterable column_of
column_filter pg t k v w =
    if is_filterable t k
    then if v == null_filter_value
      then add (is_blank k) w
      else add (typed_condition pg k v (type_of t k)) w
    else w

is_date : Option ColumnType → Bool
is_date (some date) = true
is_date _ = false

-- One turn of the loop over the filters.
unfoldable pub apply_filter : Engine → TableTemplate → String → String → Where → Where
unfolding add column_filter set_bound range_match is_date is_filterable column_of
apply_filter pg t k v w =
    if v == ""
    then w
    else if k == "_writeStatus"
    then add (write_status_is v) w
    else if k == "_submissionStatus"
    then add (submission_status_is v) w
    else if k == "_updatedAt_from"
    then add (updated from v) w
    else if k == "_updatedAt_until"
    then add (updated until v) w
    else elim (range_match k) [
      | some (base, e) ↦
          if is_filterable t base && is_date (type_of t base)
          then record w { bounds = set_bound base e v w.bounds }
          else w
      | none ↦ column_filter pg t k v w
    ]

unfoldable pub apply_each : Engine → TableTemplate → List (String × String) → Where → Where
unfolding apply_filter
apply_each pg t [] w = w
apply_each pg t ((k, v) ∷ fs) w = apply_each pg t fs (apply_filter pg t k v w)

abbrev edge_condition : Edge → String → Option String → List Condition
edge_condition e k none = []
edge_condition e k (some v) = date_bound e k v ∷ []

unfoldable pub bound_conditions : Bounds → List Condition
bound_conditions [] = []
bound_conditions ((k, b) ∷ bs) =
    edge_condition from k b.0 ++ edge_condition until k b.1 ++ bound_conditions bs

unfoldable pub apply_filters : Engine → TableTemplate → List (String × String) → List Condition
unfolding apply_each bound_conditions
apply_filters pg t filters =
    let w = apply_each pg t filters (record { conditions = []; bounds = [] }) in
    w.conditions ++ bound_conditions w.bounds

abbrev lift_or {ℓ} : {A : Type ℓ} → A → Option String → (String → Option A) → Option A
lift_or d none f = some d
lift_or d (some s) f = f s

in_range : Edge → ℤ → ℤ → Bool
in_range from bound x = leb_ℤ bound x
in_range until bound x = leb_ℤ x bound

abbrev is_digits : String → Bool
is_digits s = not (s == "") && all is_digit (codes s)

module _ (pg : Engine) (host : Platform) where
  -- dateCastExpr on a text, none inside where it is NULL.
  unfoldable pub date_cast : String → Option (Option ℤ)
  date_cast s =
      if pg.is_iso_datetime s
      then (pg.to_timestamp s >>= λ d. some (some d))
      else if is_digits s
      then (pg.from_epoch s >>= λ d. some (some d))
      else some none

  compare_date : Edge → ℤ → Option ℤ → Bool
  compare_date e bound none = false
  compare_date e bound (some d) = in_range e bound d

  -- What a condition says of a row.
  unfoldable pub test : Condition → TableRow → Option Bool
  unfolding in_range compare_date date_cast write_status_case
  test (write_status_is v) r = some (is_text (write_status_case r) v)
  test (submission_status_is v) r = some (is_text r.submission_status v)
  test (updated e v) r = pg.to_timestamp v >>= λ d. some (in_range e d (pg.updated_at r))
  test (is_blank k) r = some (elim (text_at host k r.row_data) [ none ↦ true | some s ↦ s == "" ])
  test never r = some false
  test (number_is k v) r = lift_or false (text_at host k r.row_data) (λ s. pg.equals_number s v)
  test (boolean_is k b) r =
      lift_or false (text_at host k r.row_data)
        (λ s. pg.to_boolean s >>= λ x. some (if b then x else not x))
  test (contains k v) r =
      lift_or false (text_at host k r.row_data) (λ s. some (pg.contains_text s v))
  test (date_bound e k v) r =
      lift_or false (text_at host k r.row_data)
        (λ s. date_cast s >>= λ d. pg.to_timestamp v >>= λ b. some (compare_date e b d))

  -- The conditions joined by AND, from the left; the first that is false ends them.
  unfoldable pub test_all : List Condition → TableRow → Option Bool
  unfolding test
  test_all [] r = some true
  test_all (c ∷ cs) r = let rest = test_all cs r in test c r >>= λ b. if b then rest else some false
