-- ===== src/Retention/Purge.antt =====
-- src/retention/retention.service.ts, batchedDelete and executePurge, over the tables that can be
-- purged. A batch deletes the first rows in question; each turn of the loop is a statement.
use yalia_sii.Prelude.{
  ℕ, zero, suc, ◌+◌, ◌≤◌, ◌<◌, max, Bool, true, not, Option, none, some, List, [], ◌∷◌, ◌++◌, ◌=ℕ◌,
  ltb, ◌≡◌, refl, ap, ◌∙◌, inl, inr, if◌then◌else◌, keep, count, Bool-cases, arith,
}

module _ {A : Type 0} (p : A → Bool) where
  -- `DELETE … WHERE ctid IN (SELECT ctid … LIMIT size)`: what is left, and how many went.
  unfoldable pub delete_batch : ℕ → List A → List A × ℕ
  delete_batch zero rows = (rows, 0)
  delete_batch (suc size) [] = ([], 0)
  delete_batch (suc size) (r ∷ rows) =
      let (left, n) = delete_batch size rows in
      let (kept, m) = delete_batch (suc size) rows in if p r then (left, suc n) else (r ∷ kept, m)

  -- What a purge leaves, how many rows it has deleted, and the progress it has told.
  pub record Purged : Type 0 where
    pub rows : List A
    pub processed : ℕ
    pub told : List (ℕ × ℕ)

  unfoldable pub batched_delete : ℕ → ℕ → ℕ → Purged → Option Purged
  unfolding delete_batch
  batched_delete zero size total s = none
  batched_delete (suc fuel) size total s =
      let (left, n) = delete_batch size s.rows in
      let done = s.processed + n in
      let s' : Purged = record {
        rows = left;
        processed = done;
        told = s.told ++ (done, max total done) ∷ [];
      } in
      let rest = batched_delete fuel size total s' in if ltb n size then some s' else rest

  delete_batch-counted :
      (size : ℕ) (rows : List A)
      → count p rows ≡ count p (delete_batch size rows).0 + (delete_batch size rows).1
  unfolding delete_batch
  delete_batch-counted zero rows = omega arith
  delete_batch-counted (suc size) [] = omega arith
  delete_batch-counted (suc size) (r ∷ rows) =
      ground (arith, delete_batch-counted size rows, delete_batch-counted (suc size) rows)

  delete_batch-others :
      (size : ℕ) (rows : List A)
      → keep (λ r. not (p r)) (delete_batch size rows).0 ≡ keep (λ r. not (p r)) rows
  unfolding delete_batch
  delete_batch-others zero rows = refl
  delete_batch-others (suc size) [] = refl
  delete_batch-others (suc size) (r ∷ rows) = elim (Bool-cases (p r)) [
    | inl hit ↦ rw (hit, delete_batch) (delete_batch-others size rows)
    | inr miss ↦
        rw (miss, delete_batch, miss) (ap (λ rs. r ∷ rs) (delete_batch-others (suc size) rows))
  ]

  delete_batch-short :
      (size : ℕ) (rows : List A)
      → ltb (delete_batch size rows).1 size ≡ true
      → (delete_batch size rows).0 ≡ keep (λ r. not (p r)) rows
  unfolding delete_batch
  delete_batch-short zero rows h = cc
  delete_batch-short (suc size) [] h = refl
  delete_batch-short (suc size) (r ∷ rows) h = elim (Bool-cases (p r)) [
    | inl hit ↦
        rw (hit, delete_batch)
          (delete_batch-short size rows (ground (arith, rw (hit, delete_batch) at h)))
    | inr miss ↦
        rw (miss, delete_batch)
          (ap (λ rs. r ∷ rs) (delete_batch-short (suc size) rows (rw (miss, delete_batch) at h)))
  ]

  count-keep-not : (rows : List A) → count p (keep (λ r. not (p r)) rows) ≡ 0
  count-keep-not [] = refl
  count-keep-not (r ∷ rows) = elim (Bool-cases (p r)) [
    | inl hit ↦ rw hit (count-keep-not rows)
    | inr miss ↦ rw (miss, miss) (count-keep-not rows)
  ]

  -- With more fuel than rows in question, the loop ends, and exactly those rows are gone.
  batched_delete-ends :
      (fuel size total : ℕ) (s : Purged)
      → 0 < size
      → count p s.rows < fuel
      → (s' : Purged) × (batched_delete fuel size total s ≡ some s')
        × (s'.rows ≡ keep (λ r. not (p r)) s.rows)
        × (s'.processed ≡ s.processed + count p s.rows)
  unfolding batched_delete
  batched_delete-ends zero size total s big enough = absurd (omega (arith, enough))
  batched_delete-ends (suc fuel) size total s big enough =
      let left = (delete_batch size s.rows).0 in
      let n = (delete_batch size s.rows).1 in
      let counted = delete_batch-counted size s.rows in
      let s1 : Purged = record {
        rows = left;
        processed = s.processed + n;
        told = s.told ++ (s.processed + n, max total (s.processed + n)) ∷ [];
      } in
      elim (Bool-cases (ltb n size)) [
        | inl short ↦
            let rest = delete_batch-short size s.rows short in
            let empty : count p left ≡ 0 = ap (count p) rest ∙ count-keep-not s.rows in
            (s1, rw (short, batched_delete) refl, rest, omega (arith, counted, empty))
        | inr full ↦
            let more : size ≤ n = ground (arith, full) in
            let (s', e, rows, processed) =
              batched_delete-ends fuel size total s1 big
                (omega (arith, enough, counted, more, big)) in
            (
              s',
              rw (full, batched_delete) e,
              rows ∙ delete_batch-others size s.rows,
              omega (arith, processed, counted),
            )
      ]

  -- `total === 0 ? 0 : batchedDelete(…)`, with fuel for every row and one more turn.
  unfoldable pub purge_rows : ℕ → List A → Option (List A × ℕ)
  unfolding batched_delete
  purge_rows size rows =
      if count p rows =ℕ 0
      then some (rows, 0)
      else elim (batched_delete (suc (count p rows)) size (count p rows)
          (record { rows = rows; processed = 0; told = (0, count p rows) ∷ [] })) [
            | none ↦ none
            | some s ↦ some (s.rows, s.processed)
          ]

  nothing_to_purge : (rows : List A) → count p rows ≡ 0 → keep (λ r. not (p r)) rows ≡ rows
  nothing_to_purge [] h = refl
  nothing_to_purge (r ∷ rows) h = elim (Bool-cases (p r)) [
    | inl hit ↦ absurd (ground (arith, hit))
    | inr miss ↦ rw miss (ap (λ rs. r ∷ rs) (nothing_to_purge rows (ground (arith, miss))))
  ]

  -- A purge in batches ends, whatever the size of a batch: it leaves exactly the rows that are not
  -- in question, in their order, and says how many went. A batch has room for a row.
  pub purge_rows-exact :
      (size : ℕ) (rows : List A)
      → 0 < size
      → purge_rows size rows ≡ some (keep (λ r. not (p r)) rows, count p rows)
  unfolding purge_rows
  purge_rows-exact size rows big = elim (Bool-cases (count p rows =ℕ 0)) [
    | inl zero_rows ↦
        let none_left : count p rows ≡ 0 = ground (arith, zero_rows) in
        rw (zero_rows, purge_rows, nothing_to_purge rows none_left, none_left) refl
    | inr some_rows ↦
        let (s', e, left, n) =
          batched_delete-ends (suc (count p rows)) size (count p rows)
            (record { rows = rows; processed = 0; told = (0, count p rows) ∷ [] }) big
            (omega arith) in
        let told : s'.processed ≡ count p rows = omega (arith, n) in
        rw (some_rows, purge_rows, e, left, told) refl
  ]
