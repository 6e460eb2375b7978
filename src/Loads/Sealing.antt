-- ===== src/Loads/Sealing.antt =====
-- When a load is sealed: whatever the order in which its batches and its seal arrive.
use yalia_sii.Prelude.{
  ℕ, ◌≤◌, ◌<◌, String, ◌≡◌, refl, inl, inr, true, false, Option, none, some, List, [], ◌∷◌, ltb,
  any, arith, Bool-cases, Option-cases,
}
use yalia_sii.Rows.{TableRow, update_where}
use yalia_sii.Loads.{
  TableLoad, Store, load_of, sealed_load, received, is_staged_in, update_load, seal,
  flip_load_if_complete,
}

-- A load whose total is known and reached does not stay unsealed.
abbrev pub Settled : String → Store → Type 0
Settled id s =
    (l : TableLoad) (n : ℕ)
    → load_of id s.loads ≡ some l
    → l.expected_batches ≡ some n
    → l.sealed_at ≡ none
    → received id s.load_batches < n

module _ (id : String) (f : TableLoad → TableLoad)
    (same : (l : TableLoad) → (f l).load_id ≡ l.load_id) where
  pub load_of-update_load :
      (loads : List TableLoad) (l : TableLoad)
      → load_of id loads ≡ some l
      → load_of id (update_load id f loads) ≡ some (f l)
  load_of-update_load [] l h = cc
  load_of-update_load (k ∷ loads) l h = ground (arith, same k, load_of-update_load loads l)

-- The two outcomes of flipLoadIfComplete: nothing is left to do, or the load is sealed now.
pub data Flip (now : ℕ) (id : String) (s s' : Store) : Type 0 where
  waits : s' ≡ s → Settled id s → Flip now id s s'
  seals :
      (k : TableLoad) (n : ℕ)
      → load_of id s.loads ≡ some k
      → k.sealed_at ≡ none
      → k.expected_batches ≡ some n
      → n ≤ received id s.load_batches
      → s' ≡ seal now id s
      → Flip now id s s'

Flip-of_found :
    (now : ℕ) (id : String) (s : Store) (k : TableLoad) (sealed expected : Option ℕ)
    → load_of id s.loads ≡ some k
    → k.sealed_at ≡ sealed
    → k.expected_batches ≡ expected
    → Flip now id s (flip_load_if_complete now id s)
unfolding flip_load_if_complete
Flip-of_found now id s k (some at) expected found e f =
    waits (ground arith) (λ l n h e' u. ground arith)
Flip-of_found now id s k none none found e f = waits (ground arith) (λ l n h e' u. ground arith)
Flip-of_found now id s k none (some n) found e f =
    elim (Bool-cases (ltb (received id s.load_batches) n)) [
      | inl short ↦ waits (ground arith) (λ l m h e' u. ground arith)
      | inr enough ↦ seals k n found e f (ground arith) (ground arith)
    ]

pub Flip-Flip : (now : ℕ) (id : String) (s : Store) → Flip now id s (flip_load_if_complete now id s)
unfolding flip_load_if_complete
Flip-Flip now id s = elim (Option-cases (load_of id s.loads)) [
  | inl missing ↦ waits (ground arith) (λ l n h e u. ground arith)
  | inr (k, found) ↦ Flip-of_found now id s k k.sealed_at k.expected_batches found refl refl
]

seal-load_of :
    (now : ℕ) (id : String) (s : Store) (k : TableLoad)
    → load_of id s.loads ≡ some k
    → load_of id (seal now id s).loads ≡ some (record k { sealed_at = some now })
unfolding seal
seal-load_of now id s k found =
    load_of-update_load id (λ l. record l { sealed_at = some now }) (λ l. refl) s.loads k found

pub Flip-Settled : (now : ℕ) (id : String) (s s' : Store) → Flip now id s s' → Settled id s'
Flip-Settled now id s s' (waits e h) = rw e h
Flip-Settled now id s s' (seals k n found unsealed e enough same) =
    λ l m h e' u. cc (same, seal-load_of now id s k found)

-- What flipping keeps and grants: the batches received, a seal once set, and no row left staged.
abbrev pub NoStaged : String → Store → Type 0
NoStaged id s = (sealed_load id s.loads ≡ true) → any (is_staged_in id) s.rows ≡ false

none_staged :
    (id : String) (rows : List TableRow)
    → any
        (is_staged_in id)
        (update_where (is_staged_in id) (λ r. record r { submission_status = some "queued" }) rows)
      ≡ false
none_staged id [] = refl
none_staged id (r ∷ rows) = ground (arith, none_staged id rows)

module _ (now : ℕ) (id : String) (s s' : Store) where
  pub Flip-NoStaged : Flip now id s s' → NoStaged id s → NoStaged id s'
  unfolding seal
  Flip-NoStaged (waits e h) k = rw e k
  Flip-NoStaged (seals k n found unsealed e enough same) h = rw same (λ _. none_staged id s.rows)

  pub Flip-sealed :
      Flip now id s s' → sealed_load id s.loads ≡ true → sealed_load id s'.loads ≡ true
  Flip-sealed (waits e h) k = rw e k
  Flip-sealed (seals k n found unsealed e enough same) h = cc (unsealed, found)

  pub Flip-received : Flip now id s s' → s'.load_batches ≡ s.load_batches
  unfolding seal
  Flip-received (waits e h) = cc
  Flip-received (seals k n found unsealed e enough same) = cc

  pub Flip-expected :
      (k : TableLoad)
      → Flip now id s s'
      → load_of id s.loads ≡ some k
      → (k' : TableLoad) × (load_of id s'.loads ≡ some k')
        × (k'.expected_batches ≡ k.expected_batches)
  Flip-expected k (waits e h) found = (k, rw e found, refl)
  Flip-expected k (seals j n at unsealed e enough same) found =
      (record k { sealed_at = some now }, rw same (seal-load_of now id s k found), refl)
