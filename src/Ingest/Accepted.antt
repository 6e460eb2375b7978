-- ===== src/Ingest/Accepted.antt =====
-- A row that SII has accepted is never touched by a load of data.
use yalia_sii.Prelude.{
  ℕ, String, ◌≡◌, refl, sym, ap, subst, ◌⊎◌, inl, inr, Bool, true, false, not, ◌&&◌, Option, none,
  some, List, [], ◌∷◌, ◌++◌, ◌==◌, ==_refl, if◌then◌else◌, all, has, ◌>>=◌, arith, eq_iff,
  Bool-cases,
}
use yalia_sii.Json.{Object, Platform}
use yalia_sii.Template.{TableTemplate}
use yalia_sii.Rows.{TableRow, is_correcto, ids_of, HasKey, accepted}
use yalia_sii.Ingest.{
  Upsert, inserted, updated, skipped, new_row, conflicts, may_update, upsert_row,
}

-- No accepted row has the id `x`.
abbrev pub is_free : String → TableRow → Bool
is_free x r = not (r.id == x && is_correcto r.submission_status)

pub free_of_absent :
    (x : String) (rows : List TableRow) → has x (ids_of rows) ≡ false → all (is_free x) rows ≡ true
free_of_absent x [] h = refl
free_of_absent x (r ∷ rows) h = ground (arith, free_of_absent x rows)

module _ (host : Platform) (now : ℕ) (t : TableTemplate) (conn : String)
    (trace : Option String) where
  -- What one row of the upsert does to the table.
  pub data Upserts (id : String) (d : Object)
      : List TableRow → List TableRow → Upsert → Type 0 where
    created : Upserts id d [] (new_row host now t conn trace id d ∷ []) (inserted id)
    replaced :
        (r : TableRow) (rows : List TableRow)
        → is_correcto r.submission_status ≡ false
        → Upserts id d
            (r ∷ rows)
            (record r { row_data = d; trace_id = trace } ∷ rows)
            (updated r.id)
    refused : (r : TableRow) (rows : List TableRow) → Upserts id d (r ∷ rows) (r ∷ rows) skipped
    passed :
        (r : TableRow) {rows after : List TableRow} {what : Upsert}
        → Upserts id d rows after what
        → Upserts id d (r ∷ rows) (r ∷ after) what

  abbrev UpsertsOf : String → Object → List TableRow → Option (List TableRow × Upsert) → Type 0
  UpsertsOf id d rows none = Unit {0}
  UpsertsOf id d rows (some (after, what)) = Upserts id d rows after what

  may_update-not_correcto :
      (d : Object) (r : TableRow)
      → may_update host now t conn trace d r ≡ some true
      → is_correcto r.submission_status ≡ false
  unfolding may_update
  may_update-not_correcto d r h = ground arith

  upsert_hit :
      (id : String) (d : Object) (r : TableRow) (rows : List TableRow) (wins : Option Bool)
      → may_update host now t conn trace d r ≡ wins
      → UpsertsOf id d (r ∷ rows) (
          wins >>= λ w. some (
            if w
            then (record r { row_data = d; trace_id = trace } ∷ rows, updated r.id)
            else (r ∷ rows, skipped)))
  upsert_hit id d r rows none e = tt
  upsert_hit id d r rows (some true) e = replaced r rows (may_update-not_correcto d r e)
  upsert_hit id d r rows (some false) e = refused r rows

  upsert_miss :
      (id : String) (d : Object) (r : TableRow) (rows : List TableRow)
      (rest : Option (List TableRow × Upsert))
      → UpsertsOf id d rows rest
      → UpsertsOf id d (r ∷ rows) (rest >>= λ (after, what). some (r ∷ after, what))
  upsert_miss id d r rows none u = tt
  upsert_miss id d r rows (some (after, what)) u = passed r u

  upsert_row-UpsertsOf :
      (id : String) (d : Object) (rows : List TableRow)
      → UpsertsOf id d rows (upsert_row host now t conn trace id d rows)
  unfolding upsert_row
  upsert_row-UpsertsOf id d [] = created
  upsert_row-UpsertsOf id d (r ∷ rows) = elim (Bool-cases (conflicts host now t conn trace d r)) [
    | inl hit ↦ rw hit (upsert_hit id d r rows (may_update host now t conn trace d r) refl)
    | inr miss ↦ rw miss (upsert_miss id d r rows _ (upsert_row-UpsertsOf id d rows))
  ]

  pub upsert_row-Upserts :
      (id : String) (d : Object) (rows after : List TableRow) (what : Upsert)
      → upsert_row host now t conn trace id d rows ≡ some (after, what)
      → Upserts id d rows after what
  upsert_row-Upserts id d rows after what e =
      subst (UpsertsOf id d rows) e (upsert_row-UpsertsOf id d rows)

  pub Upserts-accepted :
      {id : String} {d : Object} {rows after : List TableRow} {what : Upsert}
      → Upserts id d rows after what
      → accepted after ≡ accepted rows
  unfolding new_row is_correcto
  Upserts-accepted created = refl
  Upserts-accepted (replaced r rows h) = rw h
  Upserts-accepted (refused r rows) = refl
  Upserts-accepted (passed r u) = ground (arith, Upserts-accepted u)

  pub Upserts-ids :
      {id : String} {d : Object} {rows after : List TableRow} {what : Upsert}
      → Upserts id d rows after what
      → (ids_of after ≡ ids_of rows) ⊎ (ids_of after ≡ ids_of rows ++ id ∷ [])
  unfolding new_row
  Upserts-ids created = inr refl
  Upserts-ids (replaced r rows h) = inl refl
  Upserts-ids (refused r rows) = inl refl
  Upserts-ids (passed r u) = elim (Upserts-ids u) [
    | inl e ↦ inl (ap (λ xs. r.id ∷ xs) e)
    | inr e ↦ inr (ap (λ xs. r.id ∷ xs) e)
  ]

  -- The id reported, if any, is that of a row of the table.
  updated-mem :
      {id : String} {d : Object} {x : String} {rows after : List TableRow}
      → Upserts id d rows after (updated x)
      → has x (ids_of rows) ≡ true
  updated-mem {x} (replaced r rows h) = ground (arith, ==_refl x)
  updated-mem (passed r u) = ground (arith, updated-mem u)

  -- An id that names no accepted row goes on naming none.
  pub Upserts-is_free :
      {id : String} {d : Object} {rows after : List TableRow} {what : Upsert} (x : String)
      → Upserts id d rows after what
      → all (is_free x) rows ≡ true
      → all (is_free x) after ≡ true
  unfolding new_row is_correcto
  Upserts-is_free {id} x created h = ground (arith, Bool-cases (id == x))
  Upserts-is_free x (replaced r rows e) h = h
  Upserts-is_free x (refused r rows) h = h
  Upserts-is_free x (passed r u) h = ground (arith, Upserts-is_free x u)

  inserted-id :
      {id : String} {d : Object} {x : String} {rows after : List TableRow}
      → Upserts id d rows after (inserted x)
      → x ≡ id
  inserted-id created = refl
  inserted-id (passed r u) = inserted-id u

  pub inserted-is_free :
      {id : String} {d : Object} {x : String} {rows after : List TableRow}
      → Upserts id d rows after (inserted x)
      → has id (ids_of rows) ≡ false
      → all (is_free x) after ≡ true
  inserted-is_free {id} {x} {rows} u absent = Upserts-is_free x u (
      free_of_absent x rows (subst (λ y. has y (ids_of rows) ≡ false) (sym (inserted-id u)) absent))

  pub updated-is_free :
      {id : String} {d : Object} {x : String} {rows after : List TableRow}
      → Upserts id d rows after (updated x)
      → HasKey rows
      → all (is_free x) after ≡ true
  updated-is_free (replaced r rows e) key = rw (e, ==_refl r.id) (free_of_absent r.id rows key.0)
  updated-is_free {x} (passed r {rows} u) key =
      ground (arith, updated-is_free u key.1, updated-mem u, key.0, eq_iff r.id x)
