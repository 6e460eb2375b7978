-- ===== src/Ingest.antt =====
-- src/tables/table-rows.service.ts, the landing of rows: ingest, insertAppend, chunk1000 and createRow.
-- The whole of `ingest` is one transaction, `none` where it throws. Of Postgres it uses the primary
-- key, the unique index on (connection_id, id fields) of one table_key, and the `xmax = 0` test.
pub mod Accepted
pub mod Chunks
pub mod Counts
pub mod Frozen
pub mod Immutable
pub mod Newest
pub mod Kept
pub mod Totals
pub mod Transaction
mod Tests
use Prim.Native.Char.{char}
use Prim.Native.String.{compare}
use Prim.Native.Nat.{Ordering}
use yalia_sii.Prelude.{
  ℕ, zero, suc, ◌+◌, ◌-◌, String, Bool, true, false, not, ◌&&◌, ◌||◌, Option, none, some, List, [],
  ◌∷◌, ◌++◌, map, ◌==◌, if◌then◌else◌, is_empty, all, any, length, take, drop, ℤ, pos, negsuc,
  leb_ℤ, ◌>>=◌,
}
use yalia_sii.Json.{Json, null, bool, num, str, arr, obj, Object, Platform, get, string_of, text_at}
use yalia_sii.Sql.{is_column_key, is_table_key}
use yalia_sii.Template.{TableTemplate, id_fields_of}
use yalia_sii.Rows.{TableRow, is_correcto}
use yalia_sii.Loads.{Store, LoadMeta, ◌⧺◌, stage_load_rows, mark_queued}

-- `chunk1000`, by fuel: `chunks n xs` starts with as much fuel as `xs` has entries.
unfoldable pub chunk_loop {ℓ} : {A : Type ℓ} → ℕ → ℕ → List A → List (List A)
chunk_loop zero n xs = []
chunk_loop (suc fuel) n [] = []
chunk_loop (suc fuel) n (x ∷ xs) = take n (x ∷ xs) ∷ chunk_loop fuel n (drop n (x ∷ xs))

unfoldable pub chunks {ℓ} : {A : Type ℓ} → ℕ → List A → List (List A)
unfolding chunk_loop
chunks n xs = chunk_loop (length xs) n xs

-- The control character that joins the parts of a key.
abbrev key_separator : String
key_separator = String.◌∷◌ (char 1 tt) String.[]

unfoldable pub join_parts : List String → String
join_parts [] = ""
join_parts (p ∷ []) = p
join_parts (p ∷ q ∷ ps) = p ⧺ key_separator ⧺ join_parts (q ∷ ps)

-- `v !== null && v !== ''`
abbrev pub is_usable : Json → Bool
is_usable null = false
is_usable (str s) = not (s == "")
is_usable _ = true

module _ (host : Platform) (t : TableTemplate) where
  -- `keyOf`
  unfoldable pub key_parts : List String → Object → Option (List String)
  key_parts [] d = some []
  key_parts (f ∷ fs) d = elim (get f d) [
    | none ↦ none
    | some v ↦ if is_usable v then (key_parts fs d >>= λ ps. some (string_of host v ∷ ps)) else none
  ]

  unfoldable pub key_of : Object → Option String
  unfolding key_parts join_parts
  key_of d = key_parts (id_fields_of t) d >>= λ ps. some (join_parts ps)

  -- `recencyOf`
  unfoldable pub recency_of : Object → ℤ
  recency_of d = if t.recency_field == "" then pos 0 else elim (get t.recency_field d) [
    | none ↦ negsuc 0
    | some v ↦ elim (host.to_number v) [ none ↦ negsuc 0 | some n ↦ n ]
  ]

  -- `if (!prev || recencyOf(data) >= recencyOf(prev)) withId.set(key, data)`
  unfoldable pub put_newest : String → Object → List (String × Object) → List (String × Object)
  put_newest k d [] = (k, d) ∷ []
  put_newest k d ((j, e) ∷ m) =
      if j == k
      then (j, if leb_ℤ (recency_of e) (recency_of d) then d else e) ∷ m
      else (j, e) ∷ put_newest k d m

  pub record Split : Type 0 where
    pub with_id : List (String × Object)
    pub without_id : List Object

  -- The loop over the rows of a delivery.
  unfoldable pub split_rows : Split → List Object → Split
  split_rows acc [] = acc
  split_rows acc (d ∷ ds) =
      split_rows
        (elim (key_of d) [
          | none ↦ record acc { without_id = acc.without_id ++ d ∷ [] }
          | some k ↦ record acc { with_id = put_newest k d acc.with_id }
        ])
        ds

-- `(a < b ? -1 : a > b ? 1 : 0)` on the keys.
abbrev precedes : String → String → Bool
precedes a b = elim (compare a b) [ Ordering.lt ↦ true | _ ↦ false ]

insert_by_key : String × Object → List (String × Object) → List (String × Object)
insert_by_key (k, d) [] = (k, d) ∷ []
insert_by_key (k, d) ((j, e) ∷ m) =
    if precedes j k then (j, e) ∷ insert_by_key (k, d) m else (k, d) ∷ (j, e) ∷ m

unfoldable pub sort_by_key : List (String × Object) → List (String × Object)
unfolding insert_by_key
sort_by_key [] = []
sort_by_key (e ∷ m) = insert_by_key e (sort_by_key m)

-- What one row of the upsert did: `RETURNING id, (xmax = 0) AS inserted`, or nothing returned.
pub data Upsert : Type 0 where
  inserted : String → Upsert
  updated : String → Upsert
  skipped : Upsert

module _ (host : Platform) (now : ℕ) (t : TableTemplate) (conn : String)
    (trace : Option String) where
  -- A row as INSERT makes it, with the column defaults.
  unfoldable pub new_row : String → Object → TableRow
  new_row id d = record {
    id = id;
    table_key = t.key;
    connection_id = conn;
    row_data = d;
    trace_id = trace;
    write_status = none;
    write_error = none;
    last_written_at = none;
    submission_status = none;
    batch_id = none;
    group_id = none;
    load_id = none;
    sii_response = none;
    created_at = now;
  }

  -- Both sides of the index have a value, and the same.
  abbrev same_text : Option String → Option String → Bool
  same_text none b = false
  same_text (some s) none = false
  same_text (some s) (some u) = s == u

  -- `ON CONFLICT (connection_id, …) WHERE table_key = …`
  unfoldable pub conflicts : Object → TableRow → Bool
  conflicts d r =
      r.table_key == t.key
      && r.connection_id == conn
      && all (λ f. same_text (text_at host f r.row_data) (text_at host f d)) (id_fields_of t)

  -- `COALESCE((… )::numeric, -1)`, none where the cast throws.
  abbrev numeric_or : Option String → Option ℤ
  numeric_or none = some (negsuc 0)
  numeric_or (some s) = host.numeric s

  -- The guard of DO UPDATE: not accepted by SII, and not older than what is stored.
  unfoldable pub may_update : Object → TableRow → Option Bool
  may_update d r =
      if is_correcto r.submission_status
      then some false
      else if t.recency_field == ""
      then some true
      else numeric_or (text_at host t.recency_field r.row_data) >>= λ old.
          numeric_or (text_at host t.recency_field d) >>= λ new. some (leb_ℤ old new)

  unfoldable pub upsert_row : String → Object → List TableRow → Option (List TableRow × Upsert)
  upsert_row id d [] = some (new_row id d ∷ [], inserted id)
  upsert_row id d (r ∷ rows) =
      let rest = upsert_row id d rows in
      if conflicts d r
      then (may_update d r >>= λ wins. some (
          if wins
          then (record r { row_data = d; trace_id = trace } ∷ rows, updated r.id)
          else (r ∷ rows, skipped)))
      else rest >>= λ (after, what). some (r ∷ after, what)

  -- What the transaction has done so far; `drawn` counts the ids taken from the database.
  pub record Progress : Type 0 where
    pub rows : List TableRow
    pub drawn : ℕ
    pub affected : List String
    pub n_inserted : ℕ
    pub n_upserted : ℕ
    pub n_skipped : ℕ

  -- One row of the statement and of the loop over what it returned.
  unfoldable pub tally : Progress → List TableRow → Upsert → Progress
  tally p rows (inserted id) = record p {
    rows = rows;
    drawn = suc p.drawn;
    affected = p.affected ++ id ∷ [];
    n_inserted = suc p.n_inserted;
  }
  tally p rows (updated id) = record p {
    rows = rows;
    drawn = suc p.drawn;
    affected = p.affected ++ id ∷ [];
    n_upserted = suc p.n_upserted;
  }
  tally p rows skipped = record p { rows = rows; drawn = suc p.drawn; n_skipped = suc p.n_skipped }

  unfoldable pub upsert_chunk : List Object → Progress → Option Progress
  upsert_chunk [] p = some p
  upsert_chunk (d ∷ ds) p = upsert_row (host.uuid p.drawn) d p.rows >>= λ (rows, what).
      upsert_chunk ds (tally p rows what)

  unfoldable pub upsert_chunks : List (List Object) → Progress → Option Progress
  unfolding upsert_chunk
  upsert_chunks [] p = some p
  upsert_chunks (c ∷ cs) p = upsert_chunk c p >>= λ q. upsert_chunks cs q

  -- A row that the unique index refuses, where the template has one.
  unfoldable pub clashes : Object → List TableRow → Bool
  unfolding conflicts
  clashes d rows = not (is_empty (id_fields_of t)) && any (conflicts d) rows

  abbrev pub append_row : Object → Progress → Progress
  append_row d p = record p {
    rows = p.rows ++ new_row (host.uuid p.drawn) d ∷ [];
    drawn = suc p.drawn;
    affected = p.affected ++ host.uuid p.drawn ∷ [];
    n_inserted = suc p.n_inserted;
  }

  -- `insertAppend`, and the counting of its rows as inserted.
  unfoldable pub insert_append : List Object → Progress → Option Progress
  unfolding clashes
  insert_append [] p = some p
  insert_append (d ∷ ds) p =
      let rest = insert_append ds (append_row d p) in if clashes d p.rows then none else rest

  unfoldable pub append_chunks : List (List Object) → Progress → Option Progress
  unfolding insert_append
  append_chunks [] p = some p
  append_chunks (c ∷ cs) p = insert_append c p >>= λ q. append_chunks cs q
