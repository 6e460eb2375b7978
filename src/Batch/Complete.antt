-- ===== src/Batch/Complete.antt =====
-- The partitions of a sweep: which rows they hold, and how they differ.
use yalia_sii.Prelude.{
  both_true, ==_refl, ◌==◌, ◌&&◌, Option-cases, false, ◌+◌, String, ◌≡◌, refl, sym, ap, ◌∙◌, inl,
  inr, Bool, true, List, [], ◌∷◌, ◌++◌, map, count, count-append, In, All, arith, eq_iff,
  Bool-cases,
}
use yalia_sii.Json.{Platform}
use yalia_sii.Rules.{SendPhase, create, update, delete}
use yalia_sii.Payload.{PayloadRow}
use yalia_sii.Sweep.{RowWithConnection}
use yalia_sii.Batch.{
  Partition, GroupKey, stored, values, same_values, same_key, group_key_of, group_values_of,
  key_of_partition, phase_of, same_phase, payload_row, belongs, add_to_partition, partition,
}

same_phase_eq : (p q : SendPhase) → same_phase p q ≡ true → p ≡ q
same_phase_eq create create h = refl
same_phase_eq create update h = cc
same_phase_eq create delete h = cc
same_phase_eq update create h = cc
same_phase_eq update update h = refl
same_phase_eq update delete h = cc
same_phase_eq delete create h = cc
same_phase_eq delete update h = cc
same_phase_eq delete delete h = refl

-- The rows of all partitions.
unfoldable pub rows_in : List Partition → List PayloadRow
rows_in [] = []
rows_in (p ∷ ps) = p.rows ++ rows_in ps

module _ (host : Platform) (cols : List String) where
  count-add_to_partition :
      (q : PayloadRow → Bool) (r : RowWithConnection) (ps : List Partition)
      → count q (rows_in (add_to_partition host cols r ps))
        ≡ count q (payload_row host r ∷ []) + count q (rows_in ps)
  unfolding rows_in add_to_partition
  count-add_to_partition q r [] = omega arith
  count-add_to_partition q r (p ∷ ps) = elim (Bool-cases (belongs host cols r p)) [
    | inl here ↦
        rw (here, add_to_partition)
          (omega (
            arith,
            count-append q (p.rows ++ payload_row host r ∷ []) (rows_in ps),
            count-append q p.rows (payload_row host r ∷ []),
            count-append q p.rows (rows_in ps),
          ))
    | inr there ↦
        rw (there, add_to_partition)
          (omega (
            arith,
            count-append q p.rows (rows_in (add_to_partition host cols r ps)),
            count-append q p.rows (rows_in ps),
            count-add_to_partition q r ps,
          ))
  ]

  count-partition :
      (q : PayloadRow → Bool) (rows : List RowWithConnection) (ps : List Partition)
      → count q (rows_in (partition host cols rows ps))
        ≡ count q (map (payload_row host) rows) + count q (rows_in ps)
  unfolding partition
  count-partition q [] ps = omega arith
  count-partition q (r ∷ rows) ps = ground (
    arith,
    count-partition q rows (add_to_partition host cols r ps),
    count-add_to_partition q r ps,
  )

  same_values_eq : (v w : List (String × String)) → same_values host v w ≡ true → v ≡ w
  same_values_eq [] [] h = refl
  same_values_eq [] (b ∷ w) h = cc
  same_values_eq (a ∷ v) [] h = cc
  same_values_eq ((a, x) ∷ v) ((b, y) ∷ w) h =
      let (first, rest) = both_true (a == b && x == y) (same_values host v w) h in
      let (names, texts) = both_true (a == b) (x == y) first in
      let tail = same_values_eq v w rest in
      rw ((eq_iff a b).0 names, (eq_iff x y).0 texts, tail) refl

  same_values_refl : (v : List (String × String)) → same_values host v v ≡ true
  same_values_refl [] = refl
  same_values_refl ((a, x) ∷ v) = rw (==_refl a, ==_refl x) (same_values_refl v)

  same_key_refl : (a : GroupKey) → same_key host a a ≡ true
  same_key_refl (stored a) = ==_refl a
  same_key_refl (values v) = same_values_refl v

  same_phase_refl : (p : SendPhase) → same_phase p p ≡ true
  same_phase_refl create = refl
  same_phase_refl update = refl
  same_phase_refl delete = refl

  same_key_eq : (a b : GroupKey) → same_key host a b ≡ true → a ≡ b
  same_key_eq (stored a) (stored b) h = ap stored ((eq_iff a b).0 h)
  same_key_eq (stored a) (values w) h = cc
  same_key_eq (values v) (stored b) h = cc
  same_key_eq (values v) (values w) h = ap values (same_values_eq v w h)

  -- A row of the partition comes from one of `rows`, of its connection, phase and group.
  abbrev pub Comes : List RowWithConnection → Partition → PayloadRow → Type 0
  Comes rows p x =
      (r : RowWithConnection) × In r rows
      × (x ≡ payload_row host r)
      × (r.connection_id ≡ p.connection_id)
      × (phase_of r ≡ p.phase)
      × (group_key_of host cols r ≡ key_of_partition host p)

  abbrev pub Uniform : List RowWithConnection → List Partition → Type 0
  Uniform rows ps = All (λ p. All (Comes rows p) p.rows) ps

  All-snoc :
      (rows : List RowWithConnection) (p : Partition) (xs : List PayloadRow) (x : PayloadRow)
      → All (Comes rows p) xs
      → Comes rows p x
      → All (Comes rows p) (xs ++ x ∷ [])
  All-snoc rows p [] x h c = (c, tt)
  All-snoc rows p (y ∷ xs) x h c = (h.0, All-snoc rows p xs x h.1 c)

  belongs-Comes :
      (rows : List RowWithConnection) (r : RowWithConnection) (p : Partition)
      → In r rows
      → belongs host cols r p ≡ true
      → Comes rows p (payload_row host r)
  unfolding belongs
  belongs-Comes rows r p m h = (
    r,
    m,
    refl,
    ground (arith, eq_iff p.connection_id r.connection_id),
    sym (same_phase_eq p.phase (phase_of r) (ground arith)),
    sym (same_key_eq (key_of_partition host p) (group_key_of host cols r) (ground arith)),
  )

  key_of_fresh :
      (r : RowWithConnection)
      → group_key_of host cols r
        ≡ key_of_partition host (record {
          connection_id = r.connection_id;
          group_values = group_values_of host cols r;
          group_id = r.group_id;
          phase = phase_of r;
          rows = payload_row host r ∷ [];
        })
  unfolding group_key_of
  key_of_fresh r = elim (Option-cases r.group_id) [
    | inl old ↦ rw (group_key_of, old) refl
    | inr (g, new) ↦ rw (group_key_of, new) refl
  ]

  add_to_partition-Uniform :
      (rows : List RowWithConnection) (r : RowWithConnection) (ps : List Partition)
      → In r rows
      → Uniform rows ps
      → Uniform rows (add_to_partition host cols r ps)
  unfolding add_to_partition
  add_to_partition-Uniform rows r [] m h = (((r, m, refl, refl, refl, key_of_fresh r), tt), tt)
  add_to_partition-Uniform rows r (p ∷ ps) m h = elim (Bool-cases (belongs host cols r p)) [
    | inl here ↦
        rw (here, add_to_partition)
          (All-snoc rows p p.rows (payload_row host r) h.0 (belongs-Comes rows r p m here), h.1)
    | inr there ↦ rw (there, add_to_partition) (h.0, add_to_partition-Uniform rows r ps m h.1)
  ]

  partition-Uniform :
      (rows rest : List RowWithConnection) (ps : List Partition)
      → ((r : RowWithConnection) → In r rest → In r rows)
      → Uniform rows ps
      → Uniform rows (partition host cols rest ps)
  unfolding partition
  partition-Uniform rows [] ps f h = h
  partition-Uniform rows (r ∷ rest) ps f h =
      partition-Uniform rows rest (add_to_partition host cols r ps) (λ s m. f s (inr m))
        (add_to_partition-Uniform rows r ps (f r (inl refl)) h)

  -- The partitions are of another connection, another phase or another group.
  abbrev pub Differ : Partition → Partition → Type 0
  Differ p q =
      p.connection_id ≡ q.connection_id
      → p.phase ≡ q.phase
      → key_of_partition host p ≡ key_of_partition host q
      → ⊥

  abbrev pub Apart : List Partition → Type 0
  Apart [] = Unit {0}
  Apart (p ∷ ps) = All (Differ p) ps × Apart ps

  belongs-same :
      (r : RowWithConnection) (p : Partition)
      → p.connection_id ≡ r.connection_id
      → p.phase ≡ phase_of r
      → key_of_partition host p ≡ group_key_of host cols r
      → belongs host cols r p ≡ true
  unfolding belongs
  belongs-same r p c f k =
      rw (belongs, c, f, k)
        (rw (==_refl r.connection_id, same_phase_refl (phase_of r))
          (same_key_refl (group_key_of host cols r)))

  add_to_partition-Differ :
      (r : RowWithConnection) (p : Partition) (ps : List Partition)
      → belongs host cols r p ≡ false
      → All (Differ p) ps
      → All (Differ p) (add_to_partition host cols r ps)
  unfolding add_to_partition
  add_to_partition-Differ r p [] out h =
      (λ c f k. cc (out, belongs-same r p c f (k ∙ sym (key_of_fresh r))), tt)
  add_to_partition-Differ r p (q ∷ ps) out h = elim (Bool-cases (belongs host cols r q)) [
    | inl here ↦ rw (add_to_partition, here) (h.0, h.1)
    | inr there ↦ rw (add_to_partition, there) (h.0, add_to_partition-Differ r p ps out h.1)
  ]

  add_to_partition-Apart :
      (r : RowWithConnection) (ps : List Partition)
      → Apart ps
      → Apart (add_to_partition host cols r ps)
  unfolding add_to_partition
  add_to_partition-Apart r [] h = (tt, tt)
  add_to_partition-Apart r (p ∷ ps) h = elim (Bool-cases (belongs host cols r p)) [
    | inl here ↦ rw (add_to_partition, here) (h.0, h.1)
    | inr there ↦
        rw (add_to_partition, there)
          (add_to_partition-Differ r p ps there h.0, add_to_partition-Apart r ps h.1)
  ]

  partition-Apart :
      (rows : List RowWithConnection) (ps : List Partition)
      → Apart ps
      → Apart (partition host cols rows ps)
  unfolding partition
  partition-Apart [] ps h = h
  partition-Apart (r ∷ rows) ps h =
      partition-Apart rows (add_to_partition host cols r ps) (add_to_partition-Apart r ps h)

-- The partitions of a sweep hold exactly its rows: any test counts as many rows in the partitions as
-- in the sweep; each row of a partition is a row of the sweep that has the partition's connection,
-- phase and group; and no two partitions have the same connection, phase and group.
pub partition_complete :
    (host : Platform) (cols : List String) (q : PayloadRow → Bool) (rows : List RowWithConnection)
    → (count q (rows_in (partition host cols rows [])) ≡ count q (map (payload_row host) rows))
      × Uniform host cols rows (partition host cols rows [])
      × Apart host cols (partition host cols rows [])
unfolding rows_in
partition_complete host cols q rows = (
  omega (arith, count-partition host cols q rows []),
  partition-Uniform host cols rows rows [] (λ r m. m) tt,
  partition-Apart host cols rows [] tt,
)
