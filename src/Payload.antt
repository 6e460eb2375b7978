-- ===== src/Payload.antt =====
-- The body of an outbound call: toCamelCase and the payload of submitGroup in
-- src/tables/table-rows.service.ts, and src/tables/write-collapse.util.ts. Fields keep their order; the rule
-- of JavaScript that integer-like names come first is left out.
pub mod Camel
use Prim.Native.Char.{Char, code}
use yalia_sii.Prelude.{
  ℕ, zero, suc, ◌-◌, String, Bool, true, false, not, ◌&&◌, Option, none, some, List, [], ◌∷◌, ◌++◌,
  map, ◌==◌, ◌=ℕ◌, if◌then◌else◌, has, keep, is_empty, is_some, find,
}
use yalia_sii.Json.{
  Json, null, bool, num, str, arr, obj, Items, nil, cons, Fields, end, field, Object, entries,
  from_entries, from_items, get, put, merge,
}
use yalia_sii.Sql.{is_lower}
use yalia_sii.Template.{TableTemplate, TableColumnDef, WriteConfig, group_by_of}
use yalia_sii.Sweep.{RowWithConnection}

capitals : String
capitals = "ABCDEFGHIJKLMNOPQRSTUVWXYZ"

char_at : ℕ → Char → String → Char
char_at n d String.[] = d
char_at zero d (String.◌∷◌ c s) = c
char_at (suc n) d (String.◌∷◌ c s) = char_at n d s

-- `char.toUpperCase()` of a letter a-z.
unfoldable pub to_upper : Char → Char
unfolding char_at capitals
to_upper c = char_at (code c - b'a') c capitals

-- `key.replace(/_([a-z])/g, (_, char) => char.toUpperCase())`
unfoldable pub camel : String → String
unfolding to_upper
camel String.[] = String.[]
camel (String.◌∷◌ c String.[]) = String.◌∷◌ c String.[]
camel (String.◌∷◌ c (String.◌∷◌ d s)) = elim (code c =ℕ b'_' && is_lower (code d)) [
  | true ↦ String.◌∷◌ (to_upper d) (camel s)
  | false ↦ String.◌∷◌ c (camel (String.◌∷◌ d s))
]

unfoldable mutual
  unfolding camel put

  pub to_camel_case : Json → Json
  to_camel_case (arr vs) = arr (camel_items vs)
  to_camel_case (obj fs) = obj (from_entries (camel_fields fs []))
  to_camel_case null = null
  to_camel_case (bool b) = bool b
  to_camel_case (num n) = num n
  to_camel_case (str s) = str s

  pub camel_items : Items → Items
  camel_items nil = nil
  camel_items (cons v vs) = cons (to_camel_case v) (camel_items vs)

  -- The fields seen so far come last.
  pub camel_fields : Fields → Object → Object
  camel_fields end seen = seen
  camel_fields (field k v fs) seen = camel_fields fs (put (camel k) (to_camel_case v) seen)

pub record PayloadRow : Type 0 where
  pub id : String
  pub fields : Object

-- `Object.entries(r.data).filter(([k]) => !excludedKeys.has(k))`
unfoldable pub without_keys : List String → Object → Object
without_keys ks o = keep (λ e. not (has e.0 ks)) o

-- The fields of a row that go out: those of the columns that are not excluded.
unfoldable pub sent_fields : TableTemplate → Object → Fields
unfolding without_keys
sent_fields t o = from_entries (
    without_keys
      (map (λ (c : TableColumnDef). c.key) (keep (λ c. c.exclude_from_payload) t.columns)) o)

unfoldable pub camel_row : TableTemplate → PayloadRow → PayloadRow
unfolding sent_fields to_camel_case camel_fields
camel_row t r = record { id = r.id; fields = camel_fields (sent_fields t r.fields) [] }

-- `{ internal_ref: r.id, ...r.data }`
unfoldable pub flat_item : PayloadRow → Json
flat_item r = obj (from_entries (merge (("internal_ref", str r.id) ∷ []) r.fields))

-- One line of the collapsed item: the fields that are not lifted.
unfoldable pub add_line_fields : List String → Object → Object → Object
add_line_fields group_by line [] = line
add_line_fields group_by line ((k, v) ∷ o) =
    add_line_fields group_by (if has k group_by then line else put k v line) o

unfoldable pub line_of : List String → PayloadRow → Json
unfolding add_line_fields
line_of group_by r =
    obj (from_entries (add_line_fields group_by (("internal_ref", str r.id) ∷ []) r.fields))

-- `rows.find((r) => key in r.data)`, and the value there.
unfoldable pub first_value : String → List PayloadRow → Option Json
unfolding get
first_value k [] = none
first_value k (r ∷ rows) = elim (get k r.fields) [ none ↦ first_value k rows | some v ↦ some v ]

unfoldable pub common_of : List String → List PayloadRow → Object → Object
unfolding first_value
common_of [] rows seen = seen
common_of (k ∷ ks) rows seen =
    common_of ks rows (elim (first_value k rows) [ none ↦ seen | some v ↦ put k v seen ])

unfoldable pub build_collapsed_payload_item : List PayloadRow → List String → String → String → Json
unfolding line_of common_of
build_collapsed_payload_item rows group_by rows_field batch = obj (
    from_entries (
      put rows_field (arr (from_items (map (line_of group_by) rows)))
        (merge (("batch_ref", str batch) ∷ []) (common_of group_by rows []))))

-- `collapse.rowsField || 'rows'`
abbrev pub rows_field_of : Option String → String
rows_field_of none = "rows"
rows_field_of (some f) = if f == "" then "rows" else f

abbrev pub collapse_of : WriteConfig → Option (Option String)
collapse_of w = elim w.batch [ none ↦ none | some b ↦ b.collapse ]

-- The payload of submitGroup, always an array.
unfoldable pub payload_of : TableTemplate → WriteConfig → List PayloadRow → String → Json
unfolding camel_row flat_item build_collapsed_payload_item
payload_of t w rows batch =
    let camel_rows = map (camel_row t) rows in
    elim (collapse_of w) [
      | none ↦ arr (from_items (map flat_item camel_rows))
      | some rows_field ↦ arr (
          cons
            (build_collapsed_payload_item camel_rows (map camel (group_by_of w))
              (rows_field_of rows_field) batch)
            nil)
    ]
