-- ===== src/Callback.antt =====
-- src/callbacks/sii-result.mapper.ts: the vendor's answers, read back into results of rows and batches.
pub mod Apply
pub mod Final
pub mod RoundTrip
pub mod Tame
mod Tests
use yalia_sii.Prelude.{
  ℕ, String, Bool, true, false, not, ◌&&◌, Option, none, some, List, [], ◌∷◌, ◌++◌, map, ◌==◌,
  if◌then◌else◌, all, is_empty, is_some,
}
use yalia_sii.Json.{
  Json, null, bool, num, str, arr, obj, Items, nil, cons, Fields, end, field, Object, Platform,
  entries, items, get, string_of,
}
use yalia_sii.Rules.{or_else, or_value}

-- `VendorResultItem` and `VendorBatchResult`: `ref` is the `internalRef` or the `batchRef`.
pub record VendorResult : Type 0 where
  pub ref : String
  pub submission_status : String
  pub error_code : Option String
  pub error_message : Option String
  pub raw : Object

pub record MappedVendorResult : Type 0 where
  pub line_items : List VendorResult
  pub batch_items : List VendorResult

-- `typeof v === 'string' && v ? v : undefined`
unfoldable pub text_field : String → Object → Option String
text_field k o = elim (get k o) [ some (str s) ↦ if s == "" then none else some s | _ ↦ none ]

-- An object, or what the code reads as one: the fields of an array are its indices, which no name
-- that is read here is.
unfoldable pub as_object : Json → Option Object
as_object (obj fs) = some (entries fs)
as_object (arr vs) = some []
as_object _ = none

-- `el && typeof el === 'object' && 'internal_ref' in el`
unfoldable pub is_line : Json → Bool
is_line v = elim (as_object v) [ none ↦ false | some o ↦ is_some (get "internal_ref" o) ]

objects_of : List Json → List Object
objects_of [] = []
objects_of (v ∷ vs) = elim (as_object v) [ none ↦ objects_of vs | some o ↦ o ∷ objects_of vs ]

-- `Array.isArray(value) && value.length && value.every(…)`
unfoldable pub lines_in : Json → Option (List Object)
unfolding as_object objects_of is_line
lines_in (arr (cons v vs)) =
    if all is_line (v ∷ items vs) then some (objects_of (v ∷ items vs)) else none
lines_in _ = none

unfoldable pub find_nested_rows : Object → Option (List Object)
unfolding lines_in
find_nested_rows [] = none
find_nested_rows ((k, v) ∷ o) = elim (lines_in v) [
  | none ↦ find_nested_rows o
  | some rows ↦ some rows
]

module _ (host : Platform) where
  -- The name that correlates the object, none where it is missing, null or empty.
  unfoldable pub ref_of : String → Object → Option String
  ref_of k o = elim (get k o) [
    | none ↦ none
    | some null ↦ none
    | some (str s) ↦ if s == "" then none else some s
    | some v ↦ some (string_of host v)
  ]

  -- The result read off `o`, a state or an error that it lacks taken from `parent`.
  unfoldable pub result_of : Object → Object → String → VendorResult
  result_of parent o ref = record {
    ref = ref;
    submission_status =
        or_value (or_else (text_field "state" o) (text_field "state" parent)) "unknown";
    error_code = or_else (text_field "errorCode" o) (text_field "errorCode" parent);
    error_message = or_else (text_field "errorMessage" o) (text_field "errorMessage" parent);
    raw = o;
  }

  unfoldable pub nested_results : Object → List Object → List VendorResult
  nested_results parent [] = []
  nested_results parent (o ∷ os) = elim (ref_of "internal_ref" o) [
    | none ↦ nested_results parent os
    | some ref ↦ result_of parent o ref ∷ nested_results parent os
  ]

  abbrev lines_then : List VendorResult → MappedVendorResult → MappedVendorResult
  lines_then rs m = record m { line_items = rs ++ m.line_items }

  unfoldable pub map_items : List Json → MappedVendorResult
  unfolding as_object find_nested_rows ref_of result_of nested_results
  map_items [] = record { line_items = []; batch_items = [] }
  map_items (v ∷ vs) =
      let rest = map_items vs in
      elim (as_object v) [
        | none ↦ rest
        | some o ↦ elim (find_nested_rows o) [
          | some rows ↦ lines_then (nested_results o rows) rest
          | none ↦ elim (ref_of "internal_ref" o) [
            | some ref ↦ lines_then (result_of o o ref ∷ []) rest
            | none ↦ elim (ref_of "batch_ref" o) [
              | some ref ↦ record rest { batch_items = result_of o o ref ∷ rest.batch_items }
              | none ↦ rest
            ]
          ]
        ]
      ]

  unfoldable pub map_vendor_result : Json → MappedVendorResult
  unfolding map_items
  map_vendor_result (arr vs) = map_items (items vs)
  map_vendor_result v = map_items (v ∷ [])

-- The results' references.
abbrev pub refs_of : List VendorResult → List String
refs_of rs = map (λ r. r.ref) rs
