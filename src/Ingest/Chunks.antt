-- ===== src/Ingest/Chunks.antt =====
-- The chunks that the inserts are sent in.
use yalia_sii.Prelude.{
  ℕ, zero, suc, ◌≤◌, ◌≡◌, refl, ap, ◌∙◌, List, [], ◌∷◌, ◌++◌, length, take, drop, All,
  take-append-drop, length-take, length-drop, arith,
}
use yalia_sii.Ingest.{chunks, chunk_loop}

module _ {ℓ} {A : Type ℓ} where
  unfoldable pub concat : List (List A) → List A
  concat [] = []
  concat (c ∷ cs) = c ++ concat cs

  concat-chunk_loop :
      (fuel n : ℕ) (xs : List A) → 1 ≤ n → length xs ≤ fuel → concat (chunk_loop fuel n xs) ≡ xs
  unfolding concat chunk_loop
  concat-chunk_loop zero n [] h le = refl
  concat-chunk_loop zero n (x ∷ xs) h le = absurd (omega (arith, le))
  concat-chunk_loop (suc fuel) n [] h le = refl
  concat-chunk_loop (suc fuel) n (x ∷ xs) h le =
      ap (λ ys. take n (x ∷ xs) ++ ys)
        (concat-chunk_loop fuel n (drop n (x ∷ xs)) h (omega (arith, length-drop n (x ∷ xs))))
      ∙ take-append-drop n (x ∷ xs)

  chunk_loop-sized :
      (fuel n : ℕ) (xs : List A)
      → 1 ≤ n
      → All (λ c. (1 ≤ length c) × (length c ≤ n)) (chunk_loop fuel n xs)
  unfolding chunk_loop
  chunk_loop-sized zero n xs h = tt
  chunk_loop-sized (suc fuel) n [] h = tt
  chunk_loop-sized (suc fuel) n (x ∷ xs) h = (
    (omega (arith, length-take n (x ∷ xs)), omega (arith, length-take n (x ∷ xs))),
    chunk_loop-sized fuel n (drop n (x ∷ xs)) h,
  )

  pub concat-chunks : (n : ℕ) (xs : List A) → 1 ≤ n → concat (chunks n xs) ≡ xs
  unfolding chunks
  concat-chunks n xs h = concat-chunk_loop (length xs) n xs h (omega arith)

  pub chunks-sized :
      (n : ℕ) (xs : List A) → 1 ≤ n → All (λ c. (1 ≤ length c) × (length c ≤ n)) (chunks n xs)
  unfolding chunks
  chunks-sized n xs h = chunk_loop-sized (length xs) n xs h

  -- Cut into chunks of at most `n` entries, a list loses nothing and keeps its order: the chunks one
  -- after the other are the list, none is empty, and none has more than `n` entries.
  pub chunks-partition :
      (n : ℕ) (xs : List A)
      → 1 ≤ n
      → (concat (chunks n xs) ≡ xs) × All (λ c. (1 ≤ length c) × (length c ≤ n)) (chunks n xs)
  chunks-partition n xs h = (concat-chunks n xs h, chunks-sized n xs h)
