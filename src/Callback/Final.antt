-- ===== src/Callback/Final.antt =====
-- An accepted row is final: no callback changes it.
use mathlib.Core.Option.{some-injective}
use yalia_sii.Prelude.{
  String, ◌≡◌, refl, ap, subst, ◌∙◌, inl, inr, Bool, true, false, not, ◌&&◌, ◌||◌, Option, none,
  some, List, [], ◌∷◌, ◌++◌, map, ◌==◌, ==_refl, any, all, has, find, is_empty, is_some, In, In-map,
  arith, eq_iff, Bool-cases, Option-cases,
}
use yalia_sii.Json.{Json, Platform}
use yalia_sii.Template.{TableTemplate}
use yalia_sii.Rows.{TableRow, is_correcto, ids_of, HasKey}
use yalia_sii.Callback.{VendorResult, map_vendor_result}
use yalia_sii.Callback.Apply.{
  batch_ref, Matched, has_error, joined, apply_one, set_result, matched_rows, by_row, by_batch,
  apply_line_items, apply_batch_items, apply_error_fields, process,
}

-- The row has another id than `x`, or it is accepted.
is_settled : String → TableRow → Bool
is_settled x r = not (r.id == x) || is_correcto r.submission_status

In-has_id : (r : TableRow) (rows : List TableRow) → In r rows → has r.id (ids_of rows) ≡ true
In-has_id r [] m = absurd m
In-has_id r (s ∷ rows) (inl e) =
    ground (arith, ap (λ (u : TableRow). u.id) e, ==_refl r.id, eq_iff s.id r.id)
In-has_id r (s ∷ rows) (inr m) = ground (arith, In-has_id r rows m)

absent-is_settled :
    (x : String) (rows : List TableRow)
    → has x (ids_of rows) ≡ false
    → all (is_settled x) rows ≡ true
unfolding is_settled
absent-is_settled x [] h = refl
absent-is_settled x (s ∷ rows) h = ground (arith, absent-is_settled x rows)

accepted-is_settled :
    (r : TableRow) (rows : List TableRow)
    → HasKey rows
    → In r rows
    → is_correcto r.submission_status ≡ true
    → all (is_settled r.id) rows ≡ true
unfolding is_settled
accepted-is_settled r [] key m h = absurd m
accepted-is_settled r (s ∷ rows) key (inl e) h = ground (
  arith,
  absent-is_settled r.id rows,
  ap (λ (u : TableRow). u.id) e,
  ap (λ (u : TableRow). is_correcto u.submission_status) e,
  key.0,
)
accepted-is_settled r (s ∷ rows) key (inr m) h =
    ground
      (arith, accepted-is_settled r rows key.1 m h, In-has_id r rows m, key.0, eq_iff s.id r.id)

module _ (pick : TableRow → Option VendorResult) where
  apply_one-accepted :
      (r : TableRow) → is_correcto r.submission_status ≡ true → apply_one pick r ≡ r
  apply_one-accepted r h = rw (apply_one, h) refl

  apply_one-id : (r : TableRow) → (apply_one pick r).id ≡ r.id
  unfolding set_result
  apply_one-id r = elim (Option-cases (joined pick r)) [
    | inl e ↦ rw (apply_one, e) refl
    | inr (v, e) ↦ rw (apply_one, e) refl
  ]

  apply_one-is_settled :
      (x : String) (r : TableRow) → is_settled x r ≡ true → is_settled x (apply_one pick r) ≡ true
  unfolding is_settled
  apply_one-is_settled x r h = elim (Bool-cases (is_correcto r.submission_status)) [
    | inl done ↦ rw (apply_one-accepted r done) h
    | inr pending ↦ rw (apply_one-id r) (ground arith)
  ]

  map-is_settled :
      (x : String) (rows : List TableRow)
      → all (is_settled x) rows ≡ true
      → all (is_settled x) (map (apply_one pick) rows) ≡ true
  map-is_settled x [] h = refl
  map-is_settled x (r ∷ rows) h = ground (arith, map-is_settled x rows, apply_one-is_settled x r)

  joined-pending :
      (r : TableRow) (v : VendorResult)
      → joined pick r ≡ some v
      → is_correcto r.submission_status ≡ false
  joined-pending r v e = elim (Bool-cases (is_correcto r.submission_status)) [
    | inl done ↦ cc (rw done at e)
    | inr pending ↦ pending
  ]

  matched_rows-settled :
      (ref : TableRow → String) (items : List VendorResult) (x : String) (rows : List TableRow)
      → all (is_settled x) rows ≡ true
      → any (λ m. m.id == x && has_error m) (matched_rows pick ref items rows) ≡ false
  unfolding matched_rows is_settled
  matched_rows-settled ref items x [] h = refl
  matched_rows-settled ref items x (r ∷ rows) h = elim (Option-cases (joined pick r)) [
    | inl e ↦ rw (e, matched_rows) (matched_rows-settled ref items x rows (ground arith))
    | inr (v, e) ↦
        rw (e, matched_rows)
          (ground (arith, matched_rows-settled ref items x rows, joined-pending r v e))
  ]

any-find : (p : Matched → Bool) (ms : List Matched) → any p ms ≡ false → find p ms ≡ none
any-find p [] h = refl
any-find p (m ∷ ms) h = ground (arith, any-find p ms)

any-append : (p : Matched → Bool) (ms ns : List Matched) → any p (ms ++ ns) ≡ (any p ms || any p ns)
any-append p [] ns = refl
any-append p (m ∷ ms) ns = ground (arith, any-append p ms ns)

apply_error_fields-In :
    (templates : String → Option TableTemplate) (ms : List Matched) (r : TableRow)
    (rows : List TableRow)
    → any (λ m. m.id == r.id && has_error m) ms ≡ false
    → In r rows
    → In r (apply_error_fields templates ms rows)
unfolding apply_error_fields
apply_error_fields-In templates ms r rows h m =
    subst (λ u. In u (apply_error_fields templates ms rows))
      (rw (any-find (λ m. m.id == r.id && has_error m) ms h) refl) (In-map _ r rows m)

survives :
    (templates : String → Option TableTemplate) (first second : TableRow → Option VendorResult)
    (ref₁ ref₂ : TableRow → String) (items₁ items₂ : List VendorResult) (r : TableRow)
    (rows : List TableRow)
    → all (is_settled r.id) rows ≡ true
    → In r rows
    → is_correcto r.submission_status ≡ true
    → In r (
        apply_error_fields templates
          (matched_rows first ref₁ items₁ rows
            ++ matched_rows second ref₂ items₂ (map (apply_one first) rows))
          (map (apply_one second) (map (apply_one first) rows)))
survives templates first second ref₁ ref₂ items₁ items₂ r rows settled m h =
    let once =
      subst (λ u. In u (map (apply_one first) rows)) (apply_one-accepted first r h)
        (In-map (apply_one first) r rows m) in
    let twice =
      subst (λ u. In u (map (apply_one second) (map (apply_one first) rows)))
        (apply_one-accepted second r h)
        (In-map (apply_one second) r (map (apply_one first) rows) once) in
    let none_first = matched_rows-settled first ref₁ items₁ r.id rows settled in
    let none_second =
      matched_rows-settled second ref₂ items₂ r.id (map (apply_one first) rows)
        (map-is_settled first r.id rows settled) in
    apply_error_fields-In templates _ r _
      (any-append (λ m. m.id == r.id && has_error m) (matched_rows first ref₁ items₁ rows) _
        ∙ ground (arith, none_first, none_second))
      twice

-- A row that SII has accepted is final: whatever a callback carries, its job leaves the row in the
-- table with every column as it was. The table has its primary key, and the job does not throw.
pub process-accepted :
    (host : Platform) (as_uuid : String → Option String) (templates : String → Option TableTemplate)
    (payload : Json) (rows after : List TableRow) (r : TableRow)
    → HasKey rows
    → process host as_uuid templates payload rows ≡ some after
    → In r rows
    → is_correcto r.submission_status ≡ true
    → In r after
unfolding process apply_line_items apply_batch_items
process-accepted host as_uuid templates payload rows after r key e m h =
    let lines = (map_vendor_result host payload).line_items in
    let batches = (map_vendor_result host payload).batch_items in
    let settled = accepted-is_settled r rows key m h in
    elim (Bool-cases (is_empty lines && is_empty batches)) [
      | inl nothing ↦ subst (In r) (some-injective _ _ (rw (nothing, process) at e)) m
      | inr something ↦ elim (Bool-cases (all (λ v. is_some (as_uuid v.ref)) lines)) [
        | inr throws ↦ cc (rw (something, process, throws, apply_line_items) at e)
        | inl casts ↦
            subst (In r)
              (some-injective _ _ (rw (something, process, casts, apply_line_items) at e))
              (survives templates (by_row as_uuid lines) (by_batch batches) (λ x. x.id) batch_ref
                lines batches r rows settled m h)
      ]
    ]
