-- ===== src/Ingest/Counts.antt =====
-- The counts of the inserts of `ingest`.
use yalia_sii.Ingest.{append_row, clashes, new_row}
use mathlib.Core.Option.{some-injective}
use yalia_sii.Prelude.{
  ℕ, suc, ◌+◌, ◌≤◌, String, ◌≡◌, refl, sym, ap, subst, ◌∙◌, inl, inr, Bool, Option, some, List, [],
  ◌∷◌, ◌++◌, map, is_empty, length, length-append, length-map, >>=-eq-some, arith, Bool-cases,
  Option-cases,
}
use yalia_sii.Json.{Object, Platform}
use yalia_sii.Template.{TableTemplate, id_fields_of}
use yalia_sii.Rows.{TableRow, update_where}
use yalia_sii.Ingest.{
  Split, put_newest, key_of, split_rows, sort_by_key, insert_by_key, chunks, Upsert, inserted,
  updated, skipped, upsert_row, Progress, tally, upsert_chunk, upsert_chunks, insert_append,
  append_chunks,
}
use yalia_sii.Ingest.Accepted.{Upserts, created, replaced, refused, passed, upsert_row-Upserts}
use yalia_sii.Ingest.Chunks.{concat, concat-chunks}
use yalia_sii.Ingest.Transaction.{write_rows, has_safe_names}

pub length-update_where :
    (p : TableRow → Bool) (f : TableRow → TableRow) (rows : List TableRow)
    → length (update_where p f rows) ≡ length rows
length-update_where p f [] = refl
length-update_where p f (r ∷ rows) = ap suc (length-update_where p f rows)

length-insert_by_key :
    (e : String × Object) (m : List (String × Object)) → length (insert_by_key e m) ≡ suc (length m)
unfolding insert_by_key
length-insert_by_key e [] = refl
length-insert_by_key e (f ∷ m) = ground (arith, length-insert_by_key e m)

length-sort_by_key : (m : List (String × Object)) → length (sort_by_key m) ≡ length m
unfolding sort_by_key
length-sort_by_key [] = refl
length-sort_by_key (e ∷ m) = length-insert_by_key e (sort_by_key m) ∙ ap suc (length-sort_by_key m)

module _ (host : Platform) (t : TableTemplate) where
  length-put_newest :
      (k : String) (d : Object) (m : List (String × Object))
      → length (put_newest host t k d m) ≤ suc (length m)
  unfolding put_newest
  length-put_newest k d [] = omega arith
  length-put_newest k d (e ∷ m) = ground (arith, length-put_newest k d m)

  size : Split host t → ℕ
  size a = length a.with_id + length a.without_id

  size-without :
      (d : Object) (a : Split host t)
      → size (record a { without_id = a.without_id ++ d ∷ [] }) ≡ suc (size a)
  unfolding size
  size-without d a = omega (arith, length-append a.without_id (d ∷ []))

  size-with :
      (k : String) (d : Object) (a : Split host t)
      → size (record a { with_id = put_newest host t k d a.with_id }) ≤ suc (size a)
  unfolding size
  size-with k d a = omega (arith, length-put_newest k d a.with_id)

  size-split_rows :
      (ds : List Object) (a : Split host t) → size (split_rows host t a ds) ≤ size a + length ds
  unfolding split_rows
  size-split_rows [] a = omega arith
  size-split_rows (d ∷ ds) a = elim (Option-cases (key_of host t d)) [
    | inl e ↦ rw (e, split_rows) (omega (arith, size-without d a, size-split_rows ds _))
    | inr (k, e) ↦ rw (e, split_rows) (omega (arith, size-with k d a, size-split_rows ds _))
  ]

module _ (host : Platform) (now : ℕ) (t : TableTemplate) (conn : String)
    (trace : Option String) where
  unfoldable pub handled : Progress host now t conn trace → ℕ
  handled p = p.n_inserted + p.n_upserted + p.n_skipped

  -- From `p` to `q` the table grew by what was counted as inserted, and `k` rows were counted.
  pub record Counts (k : ℕ) (p q : Progress host now t conn trace) : Type 0 where
    pub grew : length q.rows + p.n_inserted ≡ length p.rows + q.n_inserted
    pub counted : handled q ≡ handled p + k

  grown : Upsert → ℕ
  grown (inserted id) = 1
  grown (updated id) = 0
  grown skipped = 0

  length-Upserts :
      {id : String} {d : Object} {rows after : List TableRow} {what : Upsert}
      → Upserts host now t conn trace id d rows after what
      → length after ≡ length rows + grown what
  unfolding grown
  length-Upserts created = refl
  length-Upserts (replaced r rows h) = omega arith
  length-Upserts (refused r rows) = omega arith
  length-Upserts (passed r u) = omega (arith, length-Upserts u)

  tally-Counts :
      (p : Progress host now t conn trace) (after : List TableRow) (what : Upsert)
      → length after ≡ length p.rows + grown what
      → Counts 1 p (tally host now t conn trace p after what)
  unfolding grown tally handled
  tally-Counts p after (inserted id) e = record { grew = omega arith; counted = omega arith }
  tally-Counts p after (updated id) e = record { grew = omega arith; counted = omega arith }
  tally-Counts p after skipped e = record { grew = omega arith; counted = omega arith }

  Counts-trans :
      (j k : ℕ) (p q r : Progress host now t conn trace)
      → Counts j p q
      → Counts k q r
      → Counts (j + k) p r
  Counts-trans j k p q r v w = record {
    grew = omega (arith, v.grew, w.grew);
    counted = omega (arith, v.counted, w.counted);
  }

  Counts-step :
      (k : ℕ) (p q r : Progress host now t conn trace)
      → Counts 1 p q
      → Counts k q r
      → Counts (suc k) p r
  Counts-step k p q r v w = record {
    grew = omega (arith, v.grew, w.grew);
    counted = omega (arith, v.counted, w.counted);
  }

  Counts-refl : (p : Progress host now t conn trace) → Counts 0 p p
  Counts-refl p = record { grew = refl; counted = omega arith }

  upsert_chunk-Counts :
      (ds : List Object) (p q : Progress host now t conn trace)
      → upsert_chunk host now t conn trace ds p ≡ some q
      → Counts (length ds) p q
  unfolding upsert_chunk
  upsert_chunk-Counts [] p q e = subst (Counts 0 p) (some-injective p q e) (Counts-refl p)
  upsert_chunk-Counts (d ∷ ds) p q e =
      let ((after, what), done, rest) =
        >>=-eq-some (upsert_row host now t conn trace (host.uuid p.drawn) d p.rows) _ e in
      Counts-step (length ds) p (tally host now t conn trace p after what) q
        (tally-Counts p after what
          (length-Upserts (upsert_row-Upserts host now t conn trace _ d p.rows after what done)))
        (upsert_chunk-Counts ds _ q rest)

  upsert_chunks-Counts :
      (cs : List (List Object)) (p q : Progress host now t conn trace)
      → upsert_chunks host now t conn trace cs p ≡ some q
      → Counts (length (concat cs)) p q
  unfolding upsert_chunks concat
  upsert_chunks-Counts [] p q e = subst (Counts 0 p) (some-injective p q e) (Counts-refl p)
  upsert_chunks-Counts (c ∷ cs) p q e =
      let (r, done, rest) = >>=-eq-some (upsert_chunk host now t conn trace c p) _ e in
      subst (λ n. Counts n p q) (sym (length-append c (concat cs)))
        (Counts-trans (length c) (length (concat cs)) p r q (upsert_chunk-Counts c p r done)
          (upsert_chunks-Counts cs r q rest))

  append_row-Counts :
      (d : Object) (p : Progress host now t conn trace)
      → Counts 1 p (append_row host now t conn trace d p)
  unfolding handled
  append_row-Counts d p = record {
    grew =
        omega
          (arith, length-append p.rows (new_row host now t conn trace (host.uuid p.drawn) d ∷ []));
    counted = omega arith;
  }

  insert_append-Counts :
      (ds : List Object) (p q : Progress host now t conn trace)
      → insert_append host now t conn trace ds p ≡ some q
      → Counts (length ds) p q
  unfolding insert_append
  insert_append-Counts [] p q e = subst (Counts 0 p) (some-injective p q e) (Counts-refl p)
  insert_append-Counts (d ∷ ds) p q e = elim (Bool-cases (clashes host now t conn trace d p.rows)) [
    | inl clash ↦ cc (rw (clash, insert_append) at e)
    | inr fresh ↦
        Counts-step (length ds) p (append_row host now t conn trace d p) q (append_row-Counts d p) (
          insert_append-Counts ds (append_row host now t conn trace d p) q
            (rw (fresh, insert_append) at e))
  ]

  append_chunks-Counts :
      (cs : List (List Object)) (p q : Progress host now t conn trace)
      → append_chunks host now t conn trace cs p ≡ some q
      → Counts (length (concat cs)) p q
  unfolding append_chunks concat
  append_chunks-Counts [] p q e = subst (Counts 0 p) (some-injective p q e) (Counts-refl p)
  append_chunks-Counts (c ∷ cs) p q e =
      let (r, done, rest) = >>=-eq-some (insert_append host now t conn trace c p) _ e in
      subst (λ n. Counts n p q) (sym (length-append c (concat cs)))
        (Counts-trans (length c) (length (concat cs)) p r q (insert_append-Counts c p r done)
          (append_chunks-Counts cs r q rest))

  pub write_rows-Counts :
      (ds : List Object) (p q : Progress host now t conn trace)
      → write_rows host now t conn trace ds p ≡ some q
      → (k : ℕ) × (k ≤ length ds) × Counts k p q
  unfolding write_rows size
  write_rows-Counts ds p q e = elim (Bool-cases (is_empty (id_fields_of t))) [
    | inl plain ↦ (
      length ds,
      omega arith,
      subst (λ n. Counts n p q) (ap length (concat-chunks 1000 ds (omega arith)))
          (append_chunks-Counts (chunks 1000 ds) p q (rw plain at e)),
    )
    | inr keyed ↦ elim (Bool-cases (has_safe_names host now t conn trace)) [
      | inl safe ↦
          let split = split_rows host t (record { with_id = []; without_id = [] }) ds in
          let sorted = map (λ (e : String × Object). e.1) (sort_by_key split.with_id) in
          let (r, done, same) =
            >>=-eq-some (upsert_chunks host now t conn trace (chunks 1000 sorted) p) _
              (rw (keyed, safe) at e) in
          let sized : length sorted ≡ length split.with_id =
            length-map (λ (e : String × Object). e.1) (sort_by_key split.with_id)
            ∙ length-sort_by_key split.with_id in
          (
            length sorted + length split.without_id,
            omega (
              arith,
              sized,
              size-split_rows host t ds (record { with_id = []; without_id = [] }),
            ),
            Counts-trans (length sorted) (length split.without_id) p r q
                (subst (λ n. Counts n p r) (ap length (concat-chunks 1000 sorted (omega arith)))
                  (upsert_chunks-Counts (chunks 1000 sorted) p r done))
                (subst (λ n. Counts n r q)
                  (ap length (concat-chunks 1000 split.without_id (omega arith)))
                  (append_chunks-Counts (chunks 1000 split.without_id) r q same)),
          )
      | inr unsafe ↦ cc (rw (keyed, unsafe) at e)
    ]
  ]
