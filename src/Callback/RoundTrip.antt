-- ===== src/Callback/RoundTrip.antt =====
-- An answer that echoes a payload finds exactly the rows that were sent.
use mathlib.Core.List.{append-nil}
use mathlib.Core.Option.{some-injective}
use yalia_sii.Prelude.{
  String, ◌≡◌, refl, ap, subst, ◌∙◌, inl, inr, true, false, not, none, some, List, [], ◌∷◌, map,
  ◌==◌, if◌then◌else◌, all, has, is_some, arith, Bool-cases, Option-cases,
}
use yalia_sii.Json.{
  Json, str, arr, obj, Object, Platform, from_entries, entries-from_entries, from_items,
  items-from_items, get, put, merge, get-put,
}
use yalia_sii.Template.{TableTemplate, WriteConfig, group_by_of}
use yalia_sii.Payload.{
  rows_field_of, PayloadRow, camel, camel_row, flat_item, add_line_fields, line_of, first_value,
  common_of, build_collapsed_payload_item, collapse_of, payload_of,
}
use yalia_sii.Payload.Camel.{lacks, get-merge}
use yalia_sii.Callback.{
  as_object, objects_of, is_line, lines_in, find_nested_rows, ref_of, result_of, nested_results,
  map_items, map_vendor_result, refs_of,
}
use yalia_sii.Callback.Tame.{
  IsTame, IsPlain, put-IsTame, merge-IsTame, find_nested_rows-IsTame, find_nested_rows-put,
  camel_row-IsPlain,
}

lines_in-items :
    (v : Json) (vs : List Json)
    → all is_line (v ∷ vs) ≡ true
    → lines_in (arr (from_items (v ∷ vs))) ≡ some (objects_of (v ∷ vs))
unfolding lines_in
lines_in-items v vs h = rw (items-from_items vs, h) refl

module _ (host : Platform) where
  ref_of-str :
      (k s : String) (o : Object)
      → get k o ≡ some (str s)
      → (s == "") ≡ false
      → ref_of host k o ≡ some s
  unfolding ref_of
  ref_of-str k s o h e = rw (h, ref_of) (rw (e, ref_of) refl)

  add_line_fields-get :
      (ks : List String) (line o : Object)
      → lacks "internal_ref" o ≡ true
      → get "internal_ref" (add_line_fields ks line o) ≡ get "internal_ref" line
  unfolding add_line_fields
  add_line_fields-get ks line [] h = refl
  add_line_fields-get ks line ((k, v) ∷ o) h =
      add_line_fields-get ks (if has k ks then line else put k v line) o (ground arith)
      ∙ ground (arith, get-put k "internal_ref" v line)

  map_items_line :
      (v : Json) (o : Object) (ref : String) (vs : List Json)
      → as_object v ≡ some o
      → find_nested_rows o ≡ none
      → ref_of host "internal_ref" o ≡ some ref
      → refs_of (map_items host (v ∷ vs)).line_items ≡ ref ∷ refs_of (map_items host vs).line_items
  unfolding map_items result_of
  map_items_line v o ref vs e f g = rw (e, map_items, f, g) refl

  map_items_lines :
      (v : Json) (o : Object) (rows : List Object)
      → as_object v ≡ some o
      → find_nested_rows o ≡ some rows
      → (map_items host (v ∷ [])).line_items ≡ nested_results host o rows
  unfolding map_items
  map_items_lines v o rows e f = rw (e, map_items, f) (append-nil (nested_results host o rows))

  flat_result :
      (r : PayloadRow) (vs : List Json)
      → IsPlain r.fields
      → (r.id == "") ≡ false
      → refs_of (map_items host (flat_item r ∷ vs)).line_items
        ≡ r.id ∷ refs_of (map_items host vs).line_items
  unfolding flat_item as_object IsTame lines_in get
  flat_result r vs p h =
      let o = merge (("internal_ref", str r.id) ∷ []) r.fields in
      map_items_line (flat_item r) o r.id vs (ap some (entries-from_entries o))
        (find_nested_rows-IsTame o
          (merge-IsTame (("internal_ref", str r.id) ∷ []) r.fields (refl, tt) p.tame))
        (ref_of-str "internal_ref" r.id o
          (get-merge "internal_ref" (("internal_ref", str r.id) ∷ []) r.fields p.free) h)

  flat_results :
      (t : TableTemplate) (rows : List PayloadRow)
      → all (λ r. not (r.id == "")) rows ≡ true
      → refs_of (map_items host (map flat_item (map (camel_row t) rows))).line_items
        ≡ map (λ r. r.id) rows
  unfolding map_items camel_row
  flat_results t [] h = refl
  flat_results t (r ∷ rows) h =
      flat_result (camel_row t r) (map flat_item (map (camel_row t) rows)) (camel_row-IsPlain t r)
        (ground arith)
      ∙ ap (λ ids. r.id ∷ ids) (flat_results t rows (ground arith))

  line_fields : List String → PayloadRow → Object
  line_fields ks r = add_line_fields ks (("internal_ref", str r.id) ∷ []) r.fields

  line_fields-ref :
      (ks : List String) (r : PayloadRow)
      → IsPlain r.fields
      → get "internal_ref" (line_fields ks r) ≡ some (str r.id)
  unfolding line_fields get
  line_fields-ref ks r p = add_line_fields-get ks (("internal_ref", str r.id) ∷ []) r.fields p.free

  nested_results-lines :
      (parent : Object) (ks : List String) (t : TableTemplate) (rows : List PayloadRow)
      → all (λ r. not (r.id == "")) rows ≡ true
      → refs_of (nested_results host parent (map (line_fields ks) (map (camel_row t) rows)))
        ≡ map (λ r. r.id) rows
  unfolding nested_results camel_row result_of
  nested_results-lines parent ks t [] h = refl
  nested_results-lines parent ks t (r ∷ rows) h =
      rw
        (
          ref_of-str "internal_ref" r.id (line_fields ks (camel_row t r))
              (line_fields-ref ks (camel_row t r) (camel_row-IsPlain t r)) (ground arith),
          nested_results,
        )
        (ap (λ ids. r.id ∷ ids) (nested_results-lines parent ks t rows (ground arith)))

  is_line-lines :
      (ks : List String) (t : TableTemplate) (rows : List PayloadRow)
      → all is_line (map (line_of ks) (map (camel_row t) rows)) ≡ true
  unfolding is_line line_of line_fields camel_row as_object
  is_line-lines ks t [] = refl
  is_line-lines ks t (r ∷ rows) = ground (
    arith,
    is_line-lines ks t rows,
    ap (λ o. is_some (get "internal_ref" o)) (entries-from_entries (line_fields ks (camel_row t r)))
        ∙ ap is_some (line_fields-ref ks (camel_row t r) (camel_row-IsPlain t r)),
  )

  objects_of-lines :
      (ks : List String) (rows : List PayloadRow)
      → objects_of (map (line_of ks) rows) ≡ map (line_fields ks) rows
  unfolding objects_of line_of line_fields as_object
  objects_of-lines ks [] = refl
  objects_of-lines ks (r ∷ rows) =
      ap (λ o. o ∷ objects_of (map (line_of ks) rows)) (entries-from_entries (line_fields ks r))
      ∙ ap (λ os. line_fields ks r ∷ os) (objects_of-lines ks rows)

  get-IsTame :
      (k : String) (v : Json) (o : Object) → IsTame o → get k o ≡ some v → lines_in v ≡ none
  unfolding get IsTame
  get-IsTame k v [] h e = cc
  get-IsTame k v ((j, w) ∷ o) h e = elim (Bool-cases (j == k)) [
    | inl same ↦ subst (λ u. lines_in u ≡ none) (some-injective w v (rw (same, get) at e)) h.0
    | inr other ↦ get-IsTame k v o h.1 (rw (other, get) at e)
  ]

  first_value-tame :
      (k : String) (v : Json) (t : TableTemplate) (rows : List PayloadRow)
      → first_value k (map (camel_row t) rows) ≡ some v
      → lines_in v ≡ none
  unfolding first_value
  first_value-tame k v t [] e = cc
  first_value-tame k v t (r ∷ rows) e = elim (Option-cases (get k (camel_row t r).fields)) [
    | inl missing ↦ first_value-tame k v t rows (rw (missing, first_value) at e)
    | inr (u, found) ↦
        subst (λ u. lines_in u ≡ none) (some-injective u v (rw (found, first_value) at e))
          (get-IsTame k u (camel_row t r).fields (camel_row-IsPlain t r).tame found)
  ]

  common_of-IsTame :
      (ks : List String) (t : TableTemplate) (rows : List PayloadRow) (seen : Object)
      → IsTame seen
      → IsTame (common_of ks (map (camel_row t) rows) seen)
  unfolding common_of
  common_of-IsTame [] t rows seen h = h
  common_of-IsTame (k ∷ ks) t rows seen h =
      elim (Option-cases (first_value k (map (camel_row t) rows))) [
        | inl missing ↦ rw (missing, common_of) (common_of-IsTame ks t rows seen h)
        | inr (v, found) ↦
            rw (found, common_of)
              (common_of-IsTame ks t rows (put k v seen)
                (put-IsTame k v seen (first_value-tame k v t rows found) h))
      ]

  collapsed_results :
      (t : TableTemplate) (ks : List String) (name batch : String) (r : PayloadRow)
      (rows : List PayloadRow)
      → all (λ r. not (r.id == "")) (r ∷ rows) ≡ true
      → refs_of
          (map_items host (
            build_collapsed_payload_item (map (camel_row t) (r ∷ rows)) ks name batch
            ∷ [])).line_items
        ≡ map (λ r. r.id) (r ∷ rows)
  unfolding build_collapsed_payload_item as_object IsTame lines_in
  collapsed_results t ks name batch r rows h =
      let sent = map (camel_row t) (r ∷ rows) in
      let o =
        put name (arr (from_items (map (line_of ks) sent)))
          (merge (("batch_ref", str batch) ∷ []) (common_of ks sent [])) in
      let found : lines_in (arr (from_items (map (line_of ks) sent)))
          ≡ some (map (line_fields ks) sent) =
        lines_in-items (line_of ks (camel_row t r)) (map (line_of ks) (map (camel_row t) rows))
          (is_line-lines ks t (r ∷ rows))
        ∙ ap some (objects_of-lines ks sent) in
      ap refs_of (
        map_items_lines (obj (from_entries o)) o (map (line_fields ks) sent)
          (ap some (entries-from_entries o))
          (find_nested_rows-put name _ _ (map (line_fields ks) sent) found (
            merge-IsTame (("batch_ref", str batch) ∷ []) (common_of ks sent []) (refl, tt)
              (common_of-IsTame ks t (r ∷ rows) [] tt))))
      ∙ nested_results-lines o ks t (r ∷ rows) h

-- What is sent can be correlated: where the vendor echoes the items of a payload, flat or collapsed
-- into one, the results that are read back name exactly the rows that were sent, in their order,
-- whatever fields the rows have. There is a row, and no id is empty.
pub map_vendor_result-payload_of :
    (host : Platform) (t : TableTemplate) (w : WriteConfig) (r : PayloadRow)
    (rows : List PayloadRow) (batch : String)
    → all (λ x. not (x.id == "")) (r ∷ rows) ≡ true
    → refs_of (map_vendor_result host (payload_of t w (r ∷ rows) batch)).line_items
      ≡ map (λ x. x.id) (r ∷ rows)
unfolding map_vendor_result payload_of
map_vendor_result-payload_of host t w r rows batch h = elim (Option-cases (collapse_of w)) [
  | inl flat ↦
      rw
        (
          flat,
          payload_of,
          map_vendor_result,
          items-from_items (map flat_item (map (camel_row t) (r ∷ rows))),
        )
        (flat_results host t (r ∷ rows) h)
  | inr (name, one) ↦
      rw (one, payload_of, map_vendor_result)
        (collapsed_results host t (map camel (group_by_of w)) (rows_field_of name) batch r rows h)
]
